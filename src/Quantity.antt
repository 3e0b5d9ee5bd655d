-- ===== src/Quantity.antt =====
-- What the code uses of resource.Quantity, which is not part of the repository.
use Prim.Native.Nat.{Ordering}
use wto.Common.{String, ◌≡◌, ◌≢◌}
use wto.Common.Int.{ℤ, ◌-ℤ◌, ◌≤ℤ◌}

-- Cmp, Sub, MustParse("0"), NewQuantity(n, DecimalSI) and String.
pub record Quantities (Q : Type 0) : Type 0 where
  pub cmp : Q → Q → Ordering
  pub sub : Q → Q → Q
  pub zero : Q
  pub new_quantity : ℤ → Q
  pub show : Q → String

-- The documented meaning: a quantity is a number of some smallest unit, `Cmp` compares these
-- numbers and `Sub` takes their difference.
pub record IsExact {Q : Type 0} (ops : Quantities Q) (value : Q → ℤ) : Type 0 where
  pub le_of_cmp : (a b : Q) → ops.cmp a b ≢ Ordering.gt → value a ≤ℤ value b
  pub cmp_of_le : (a b : Q) → value a ≤ℤ value b → ops.cmp a b ≢ Ordering.gt
  pub value_sub : (a b : Q) → value (ops.sub a b) ≡ value a -ℤ value b
