-- ===== src/Profile/Conditions/Reads.antt =====
-- What a test of a condition reads after setCondition and removeCondition.
use wto.Common.{
  ℕ, String, ◌≡◌, refl, ◌∙◌, Bool, true, false, Option, none, some, List, [], ◌∷◌, ◌==◌, eq_iff,
  eq_refl, any, arith, Bool-cases, inl, inr, ◌&&◌, keep_if,
}
use wto.Api.{Message, Condition, ConditionStatus, condition_true}
use wto.Webhook.Handle.{is_condition_true, is_condition_true_status}
use wto.Profile.Conditions.{is_false, update_condition, set_condition, remove_condition}
use wto.Profile.Conditions.Laws.{
  find_condition, written, HasUniqueTypes, HasNoType, find-set_condition,
}

abbrev pub status_is_true : Option Condition → Bool
status_is_true none = false
status_is_true (some c) = is_condition_true_status c.status

-- The webhook's test reads the first condition of the type.
pub is_condition_true_lem :
    (t : String) (cs : List Condition)
    → is_condition_true cs t ≡ status_is_true (find_condition t cs)
unfolding is_condition_true find_condition
is_condition_true_lem t [] = refl
is_condition_true_lem t (c ∷ cs) = ground (arith, is_condition_true_lem t cs)

-- Some condition of the type is False.
abbrev pub has_false : String → List Condition → Bool
has_false t cs = any (λ c. c.type == t && is_false c.status) cs

abbrev pub HasNoFalse : String → List Condition → Type 0
HasNoFalse t cs = has_false t cs ≡ false

HasNoFalse-of_HasNoType : (t : String) (cs : List Condition) → HasNoType t cs → HasNoFalse t cs
HasNoFalse-of_HasNoType t [] h = refl
HasNoFalse-of_HasNoType t (c ∷ cs) (p, h) = ground (arith, p, HasNoFalse-of_HasNoType t cs h)

module _ (now generation : ℕ) (t : String) (status : ConditionStatus) (reason : String)
    (message : Message) where
  written_status :
      (o : Option Condition)
      → status_is_true (some (written now generation t status reason message o))
        ≡ is_condition_true_status status
  written_status none = refl
  written_status (some c) = refl

  pub is_condition_true-set_condition :
      (cs : List Condition)
      → is_condition_true (set_condition now generation t status reason message cs) t
        ≡ is_condition_true_status status
  is_condition_true-set_condition cs =
      is_condition_true_lem t _
      ∙ rw (find-set_condition, eq_refl) (written_status (find_condition t cs))

  pub is_condition_true-set_condition_other :
      (j : String) (cs : List Condition)
      → (t == j) ≡ false
      → is_condition_true (set_condition now generation t status reason message cs) j
        ≡ is_condition_true cs j
  is_condition_true-set_condition_other j cs other =
      rw (is_condition_true_lem, is_condition_true_lem) (rw (find-set_condition, other) refl)

  pub has_false-set_condition :
      (j : String) (cs : List Condition)
      → (t == j) ≡ false
      → has_false j (set_condition now generation t status reason message cs) ≡ has_false j cs
  unfolding set_condition update_condition
  has_false-set_condition j [] other = ground (arith, other)
  has_false-set_condition j (c ∷ cs) other = ground (
    arith,
    other,
    eq_iff c.type t,
    eq_iff c.type j,
    eq_iff t j,
    has_false-set_condition j cs other,
  )

pub set_condition-HasNoFalse_self :
    (now generation : ℕ) (t reason : String) (message : Message) (cs : List Condition)
    → HasUniqueTypes cs
    → HasNoFalse t (set_condition now generation t condition_true reason message cs)
unfolding set_condition update_condition
set_condition-HasNoFalse_self now generation t reason message [] u = ground arith
set_condition-HasNoFalse_self now generation t reason message (c ∷ cs) (fresh, u) =
    elim (Bool-cases (c.type == t)) [
      | inl same ↦ rw same (ground (arith, rest same))
      | inr other ↦ rw other (
          ground (arith, other, set_condition-HasNoFalse_self now generation t reason message cs u))
    ]
  where
    rest : (c.type == t) ≡ true → HasNoFalse t cs
    rest same = rw (← (eq_iff c.type t).0 same) (HasNoFalse-of_HasNoType c.type cs fresh)

pub has_false-remove_condition :
    (t j : String) (cs : List Condition)
    → (t == j) ≡ false
    → has_false j (remove_condition t cs) ≡ has_false j cs
unfolding remove_condition keep_if
has_false-remove_condition t j [] other = refl
has_false-remove_condition t j (c ∷ cs) other = ground (
  arith,
  other,
  eq_iff c.type t,
  eq_iff c.type j,
  eq_iff t j,
  has_false-remove_condition t j cs other,
)
