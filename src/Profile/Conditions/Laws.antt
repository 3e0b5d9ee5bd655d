-- ===== src/Profile/Conditions/Laws.antt =====
-- The conditions of a profile read as a map from types.
use wto.Common.{
  ℕ, String, ◌≡◌, refl, false, Option, none, some, List, [], ◌∷◌, ◌==◌, eq_iff, keep_if, All, arith,
  Bool-cases, inl, inr, if◌then◌else◌,
}
use wto.Api.{Message, Condition, ConditionStatus}
use wto.Profile.Conditions.{same_status, update_condition, set_condition, remove_condition}

-- The first condition of a type.
unfoldable pub find_condition : String → List Condition → Option Condition
find_condition t [] = none
find_condition t (c ∷ cs) = if c.type == t then some c else find_condition t cs

abbrev pub HasNoType : String → List Condition → Type 0
HasNoType t cs = All (λ c. (c.type == t) ≡ false) cs

-- No type stands twice, as the list's map key in the API promises.
abbrev pub HasUniqueTypes : List Condition → Type 0
HasUniqueTypes [] = Unit
HasUniqueTypes (c ∷ cs) = HasNoType c.type cs × HasUniqueTypes cs

-- What setCondition writes, from the condition of the type that was there.
abbrev pub written :
    ℕ → ℕ → String → ConditionStatus → String → Message → Option Condition → Condition
written now generation t status reason message none = record {
  type = t;
  status = status;
  observed_generation = generation;
  last_transition_time = now;
  reason = reason;
  message = message;
}
written now generation t status reason message (some c) = record {
  type = t;
  status = status;
  observed_generation = generation;
  last_transition_time = if same_status c.status status then c.last_transition_time else now;
  reason = reason;
  message = message;
}

module _ (now generation : ℕ) (t : String) (status : ConditionStatus) (reason : String)
    (message : Message) where
  -- After setCondition the condition of its type is the written one, whose transition time moves
  -- exactly if the status differs, and the condition of any other type is what it was.
  pub find-set_condition :
      (j : String) (cs : List Condition)
      → find_condition j (set_condition now generation t status reason message cs) ≡ (
          if t == j
          then some (written now generation t status reason message (find_condition t cs))
          else find_condition j cs)
  unfolding find_condition set_condition update_condition
  find-set_condition j [] = refl
  find-set_condition j (c ∷ cs) =
      ground (arith, eq_iff c.type t, eq_iff c.type j, eq_iff t j, find-set_condition j cs)

  HasNoType-set_condition :
      (j : String) (cs : List Condition)
      → (t == j) ≡ false
      → HasNoType j cs
      → HasNoType j (set_condition now generation t status reason message cs)
  unfolding set_condition update_condition
  HasNoType-set_condition j [] ne h = (ne, tt)
  HasNoType-set_condition j (c ∷ cs) ne (p, h) = ground (arith, HasNoType-set_condition j cs ne h)

  -- A list of conditions with no type twice has none twice after setCondition.
  pub set_condition-HasUniqueTypes :
      (cs : List Condition)
      → HasUniqueTypes cs
      → HasUniqueTypes (set_condition now generation t status reason message cs)
  unfolding set_condition update_condition
  set_condition-HasUniqueTypes [] u = (tt, tt)
  set_condition-HasUniqueTypes (c ∷ cs) (fresh, u) = elim (Bool-cases (c.type == t)) [
    | inl same ↦ rw same (fresh, u)
    | inr other ↦ rw other (
      HasNoType-set_condition c.type cs (ground (arith, eq_iff t c.type, eq_iff c.type t)) fresh,
      set_condition-HasUniqueTypes cs u,
    )
  ]

-- After removeCondition there is no condition of its type, and that of any other type is what it
-- was.
pub find-remove_condition :
    (t j : String) (cs : List Condition)
    → find_condition j (remove_condition t cs) ≡ (if t == j then none else find_condition j cs)
unfolding find_condition remove_condition keep_if
find-remove_condition t j [] = ground arith
find-remove_condition t j (c ∷ cs) =
    ground (arith, eq_iff c.type t, eq_iff c.type j, eq_iff t j, find-remove_condition t j cs)
