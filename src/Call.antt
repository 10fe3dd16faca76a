-- ===== src/Call.antt =====
-- Asynchronous methods that return a `Result` and change what they borrow: a call maps a state to its
-- answer and the state that it leaves. What was changed before an error stays changed.
pub mod Ensures
pub mod Focus
use podseq.Prelude.{Result, ok, err, Bool, true, false}

abbrev pub Call : Type 0 → Type 0 → Type 0 → Type 0
Call S E A = S → Result E A × S

module _ {S E A : Type 0} where
  unfoldable pub pure : A → Call S E A
  pure a s = (ok a, s)

  unfoldable pub throw : E → Call S E A
  throw e s = (err e, s)

  unfoldable pub lift : Result E A → Call S E A
  lift r s = (r, s)

  unfoldable pub gets : (S → A) → Call S E A
  gets f s = (ok (f s), s)

  -- `if b { m } else { n }`.
  unfoldable pub select : Bool → Call S E A → Call S E A → Call S E A
  select true m n = m
  select false m n = n

module _ {S E : Type 0} where
  unfoldable pub modify : (S → S) → Call S E (Unit {0})
  modify f s = (ok tt, f s)

module _ {S E F A : Type 0} where
  within_answer : (E → F) → Result E A × S → Result F A × S
  within_answer f (ok a, s) = (ok a, s)
  within_answer f (err e, s) = (err (f e), s)

  -- `.context(..)?`: the error is mapped.
  unfoldable pub within : (E → F) → Call S E A → Call S F A
  unfolding within_answer
  within f m s = within_answer f (m s)

  attempt_answer : Result E A × S → Result F (Result E A) × S
  attempt_answer (r, s) = (ok r, s)

  -- `match call.await`: the error is a value.
  unfoldable pub attempt : Call S E A → Call S F (Result E A)
  unfolding attempt_answer
  attempt m s = attempt_answer (m s)

module _ {S E A B : Type 0} where
  abbrev pub continue : Result E A × S → (A → Call S E B) → Result E B × S
  continue (ok a, s) k = k a s
  continue (err e, s) k = (err e, s)

  infixl 5 ◌>>=◌ ◌>>◌
  unfoldable pub ◌>>=◌ : Call S E A → (A → Call S E B) → Call S E B
  ◌>>=◌ m k s = continue (m s) k

  abbrev pub ◌>>◌ : Call S E A → Call S E B → Call S E B
  m >> n = m >>= λ _. n

module _ {S T : Type 0} (get : S → T) (put : T → S → S) where
  put_back : {E A : Type 0} → S → Result E A × T → Result E A × S
  put_back s (r, t) = (r, put t s)

  -- A call that changes a part of the state.
  unfoldable pub focus : {E A : Type 0} → Call T E A → Call S E A
  unfolding put_back
  focus m s = put_back s (m (get s))
