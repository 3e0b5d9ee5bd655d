-- ===== src/TypeConfig/Conditions/Stale.antt =====
-- What setWTCCondition writes, and what it leaves.
use wto.Common.{
  ℕ, String, ◌≡◌, refl, Bool, true, false, Option, none, some, List, [], ◌∷◌, ◌==◌, eq_iff, arith,
  Bool-cases, inl, inr, if◌then◌else◌,
}
use wto.Api.{Message, Condition}
use wto.Profile.Conditions.{same_status}
use wto.Profile.Conditions.Laws.{find_condition}
use wto.TypeConfig.Conditions.{status_of, new_condition, set_wtc_condition}

-- The condition of the type afterwards, from the one that was there.
abbrev pub set_or_kept : ℕ → ℕ → String → Bool → String → Message → Option Condition → Condition
set_or_kept now generation t holds reason message none =
    new_condition now generation t holds reason message
set_or_kept now generation t holds reason message (some c) =
    if same_status c.status (status_of holds)
    then c
    else new_condition now generation t holds reason message

-- The entry of the type, kept or replaced.
find_replaced :
    (kept : Bool) (c n : Condition) (t j : String) (cs : List Condition)
    → c.type ≡ t
    → n.type ≡ t
    → find_condition j (if kept then c ∷ cs else n ∷ cs)
      ≡ (if t == j then some (if kept then c else n) else find_condition j (c ∷ cs))
unfolding find_condition
find_replaced true c n t j cs e e' = ground (arith, e, eq_iff c.type j, eq_iff t j)
find_replaced false c n t j cs e e' =
    ground (arith, e, e', eq_iff c.type j, eq_iff n.type j, eq_iff t j)

-- After setWTCCondition a condition of its type with the same status is the old one, with its old
-- reason, message and generation; one with another status, or none, gives the new condition; and
-- the condition of any other type is what it was.
pub find-set_wtc_condition :
    (now generation : ℕ) (t : String) (holds : Bool) (reason : String) (message : Message)
    (j : String) (cs : List Condition)
    → find_condition j (set_wtc_condition now generation t holds reason message cs) ≡ (
        if t == j
        then some (set_or_kept now generation t holds reason message (find_condition t cs))
        else find_condition j cs)
unfolding find_condition set_wtc_condition
find-set_wtc_condition now generation t holds reason message j [] = ground arith
find-set_wtc_condition now generation t holds reason message j (c ∷ cs) =
    elim (Bool-cases (c.type == t)) [
      | inl same ↦ rw same (
          find_replaced (same_status c.status (status_of holds)) c
            (new_condition now generation t holds reason message) t j cs ((eq_iff c.type t).0 same)
            refl)
      | inr other ↦ rw other (
          ground (
            arith,
            other,
            eq_iff c.type t,
            eq_iff c.type j,
            eq_iff t j,
            find-set_wtc_condition now generation t holds reason message j cs,
          ))
    ]
