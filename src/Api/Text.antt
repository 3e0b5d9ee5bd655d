-- ===== src/Api/Text.antt =====
-- Texts for a person to read, errors, and the results of a reconciler.
use wto.Common.{ℕ, String, List}
use wto.Common.Int.{ℤ}

-- The arguments of `fmt.Sprintf`, by the verb that prints them.
pub data Arg : Type 0 where
  s q : String → Arg
  d : ℤ → Arg
  v : List String → Arg

-- A text is `fmt.Sprintf(format, args…)`. No code reads such a text, so it is kept unprinted. It is
-- never empty, since every format has letters of its own. The last argument may be a text itself,
-- or an error. An error is the API server's, or `fmt.Errorf("… %w", args…, err)`.
mutual
  pub data Message : Type 0 where
    sprintf : String → List Arg → Message
    sprintf_text : String → List Arg → Message → Message
    sprintf_error : String → List Arg → Error → Message

  pub data Error : Type 0 where
    api : String → Error
    wrapped : String → List Arg → Error → Error

-- A Go result with an error beside it.
pub data Result (A : Type 0) : Type 0 where
  ok : A → Result A
  err : Error → Result A

-- What `client.Get` gives: `errors.IsNotFound` tells the two errors apart.
pub data Fetch (A : Type 0) : Type 0 where
  found : A → Fetch A
  not_found failed : Error → Fetch A

pub record NamespacedName : Type 0 where
  pub namespace : String
  pub name : String

-- ctrl.Result: `RequeueAfter` in seconds, or no requeue.
pub data ReconcileResult : Type 0 where
  done : ReconcileResult
  requeue_after : ℕ → ReconcileResult
