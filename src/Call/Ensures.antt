-- ===== src/Call/Ensures.antt =====
-- What a call ensures: from states where `P` holds it ends in one where `Q` holds of its value, or
-- `R` of its error.
use podseq.Prelude.{Result, ok, err, ◌≡◌, refl, Bool, true, false}
use mathlib.Core.Path.{subst}
use podseq.Call.{Call, pure, throw, lift, gets, select, modify, within, attempt, continue, ◌>>=◌}

abbrev pub Post : {S E A : Type 0} → (A → S → Type 0) → (E → S → Type 0) → Result E A × S → Type 0
Post Q R (ok a, s) = Q a s
Post Q R (err e, s) = R e s

pub record Ensures {S E A : Type 0} (P : S → Type 0) (m : Call S E A) (Q : A → S → Type 0)
    (R : E → S → Type 0) : Type 0 where
  pub holds : (s : S) → P s → Post Q R (m s)

-- The same condition after every outcome.
abbrev pub Keeps : {S E A : Type 0} → (S → Type 0) → Call S E A → Type 0
Keeps P m = Ensures P m (λ _. P) (λ _. P)

module _ {S E A : Type 0} {P : S → Type 0} {Q : A → S → Type 0} {R : E → S → Type 0} where
  pub Ensures-pure : (a : A) → ((s : S) → P s → Q a s) → Ensures P (pure a) Q R
  unfolding pure
  Ensures-pure a h = record { holds = h }

  pub Ensures-throw : (e : E) → ((s : S) → P s → R e s) → Ensures P (throw e) Q R
  unfolding throw
  Ensures-throw e h = record { holds = h }

  pub Ensures-gets : (f : S → A) → ((s : S) → P s → Q (f s) s) → Ensures P (gets f) Q R
  unfolding gets
  Ensures-gets f h = record { holds = h }

  pub Ensures-lift :
      (r : Result E A)
      → ((a : A) → r ≡ ok a → (s : S) → P s → Q a s)
      → ((e : E) → r ≡ err e → (s : S) → P s → R e s)
      → Ensures P (lift r) Q R
  unfolding lift
  Ensures-lift (ok a) h g = record { holds = h a refl }
  Ensures-lift (err e) h g = record { holds = g e refl }

module _ {S E : Type 0} {P : S → Type 0} {Q : Unit {0} → S → Type 0} {R : E → S → Type 0} where
  pub Ensures-modify : (f : S → S) → ((s : S) → P s → Q tt (f s)) → Ensures P (modify f) Q R
  unfolding modify
  Ensures-modify f h = record { holds = h }

weaken-Post :
    {S E A : Type 0} (Q Q' : A → S → Type 0) (R R' : E → S → Type 0) (r : Result E A × S)
    → ((a : A) (s : S) → Q a s → Q' a s)
    → ((e : E) (s : S) → R e s → R' e s)
    → Post Q R r
    → Post Q' R' r
weaken-Post Q Q' R R' (ok a, s) g k h = g a s h
weaken-Post Q Q' R R' (err e, s) g k h = k e s h

within-Post :
    {S E F A : Type 0} (Q : A → S → Type 0) (R : F → S → Type 0) (f : E → F) (r : Result E A × S)
    → Post Q (λ e. R (f e)) r
    → Post Q R (within f (λ _. r) r.1)
unfolding within
within-Post Q R f (ok a, s) h = h
within-Post Q R f (err e, s) h = h

attempt-Post :
    {S E F A : Type 0} (Q : Result E A → S → Type 0) (R : F → S → Type 0) (r : Result E A × S)
    → Post (λ a. Q (ok a)) (λ e. Q (err e)) r
    → Post Q R (attempt (λ _. r) r.1)
unfolding attempt
attempt-Post Q R (ok a, s) h = h
attempt-Post Q R (err e, s) h = h

bind-Post :
    {S E A B : Type 0} (Q : A → S → Type 0) (Q' : B → S → Type 0) (R : E → S → Type 0)
    (r : Result E A × S) (k : A → Call S E B)
    → Post Q R r
    → ((a : A) → Ensures (Q a) (k a) Q' R)
    → Post Q' R (continue r k)
bind-Post Q Q' R (ok a, s) k h g = (g a).holds s h
bind-Post Q Q' R (err e, s) k h g = h

module _ {S E A : Type 0} {P P' : S → Type 0} {Q Q' : A → S → Type 0} {R R' : E → S → Type 0}
    {m : Call S E A} where
  pub Ensures-weaken :
      ((s : S) → P' s → P s)
      → ((a : A) (s : S) → Q a s → Q' a s)
      → ((e : E) (s : S) → R e s → R' e s)
      → Ensures P m Q R
      → Ensures P' m Q' R'
  Ensures-weaken f g k h = record {
    holds = λ s p. weaken-Post Q Q' R R' (m s) g k (h.holds s (f s p));
  }

module _ {S E F A : Type 0} {P : S → Type 0} {Q : A → S → Type 0} {R : F → S → Type 0}
    {m : Call S E A} where
  pub Ensures-within : (f : E → F) → Ensures P m Q (λ e. R (f e)) → Ensures P (within f m) Q R
  unfolding within
  Ensures-within f h = record { holds = λ s p. within-Post Q R f (m s) (h.holds s p) }

module _ {S E F A : Type 0} {P : S → Type 0} {Q : Result E A → S → Type 0} {R : F → S → Type 0}
    {m : Call S E A} where
  pub Ensures-attempt : Ensures P m (λ a. Q (ok a)) (λ e. Q (err e)) → Ensures P (attempt m) Q R
  unfolding attempt
  Ensures-attempt h = record { holds = λ s p. attempt-Post Q R (m s) (h.holds s p) }

module _ {S E A B : Type 0} {P : S → Type 0} {Q : A → S → Type 0} {Q' : B → S → Type 0}
    {R : E → S → Type 0} {m : Call S E A} {k : A → Call S E B} where
  pub Ensures-bind :
      Ensures P m Q R → ((a : A) → Ensures (Q a) (k a) Q' R) → Ensures P (m >>= k) Q' R
  unfolding ◌>>=◌
  Ensures-bind h g = record { holds = λ s p. bind-Post Q Q' R (m s) k (h.holds s p) g }

answer-Post :
    {W E A : Type 0} (m : Call W E A) (r : Result E A × W) (s : W)
    → m s ≡ r
    → Post (λ a w. (w0 : W) × (m w0 ≡ (ok a, w))) (λ _ _. Unit {0}) r
answer-Post m (ok a, w) s e = (s, e)
answer-Post m (err x, w) s e = tt

-- A call's own answer is what it ensures of itself.
pub Ensures-answer :
    {W E A : Type 0} (m : Call W E A)
    → Ensures (λ _. Unit {0}) m (λ a w. (w0 : W) × (m w0 ≡ (ok a, w))) (λ _ _. Unit {0})
Ensures-answer m = record { holds = λ s _. answer-Post m (m s) s refl }

module _ {S E A : Type 0} {P : S → Type 0} {Q : A → S → Type 0} {R : E → S → Type 0}
    {m : Call S E A} where
  -- A fact that the state before gives may be used throughout.
  pub Ensures-given : (F : Type 0) → ((s : S) → P s → F) → (F → Ensures P m Q R) → Ensures P m Q R
  Ensures-given F f h = record { holds = λ s p. (h (f s p)).holds s p }

  pub Ensures-ok : Ensures P m Q R → (s : S) → P s → {a : A} → {s' : S} → m s ≡ (ok a, s') → Q a s'
  Ensures-ok h s p e = subst (Post Q R) e (h.holds s p)

  pub Ensures-err :
      Ensures P m Q R → (s : S) → P s → {x : E} → {s' : S} → m s ≡ (err x, s') → R x s'
  Ensures-err h s p e = subst (Post Q R) e (h.holds s p)

both_post :
    {S E A : Type 0} (P : S → Type 0) (r : Result E A × S) → Post (λ _. P) (λ _. P) r → P r.1
both_post P (ok a, s) h = h
both_post P (err e, s) h = h

-- A condition that holds after every outcome holds of the state left behind.
pub Keeps-after :
    {S E A : Type 0} {P : S → Type 0} {m : Call S E A} → Keeps P m → (s : S) → P s → P (m s).1
Keeps-after {P} {m} h s p = both_post P (m s) (h.holds s p)

module _ {S E A B : Type 0} {P : S → Type 0} {Q : A → S → Type 0} {F : A → Type 0}
    {Q' : B → S → Type 0} {R : E → S → Type 0} {m : Call S E A} {k : A → Call S E B} where
  -- As `Ensures-bind`, where the value comes with a fact.
  pub Ensures-bind_fact :
      Ensures P m (λ a s. Q a s × F a) R
      → ((a : A) → F a → Ensures (Q a) (k a) Q' R)
      → Ensures P (m >>= k) Q' R
  Ensures-bind_fact h g = Ensures-bind h λ a.
      Ensures-given (F a) (λ s p. p.1)
        λ f. Ensures-weaken (λ s p. p.0) (λ _ _ q. q) (λ _ _ q. q) (g a f)

module _ {S E A : Type 0} {P : S → Type 0} {Q : A → S → Type 0} {R : E → S → Type 0} where
  pub Ensures-select :
      (b : Bool) {m n : Call S E A}
      → (b ≡ true → Ensures P m Q R)
      → (b ≡ false → Ensures P n Q R)
      → Ensures P (select b m n) Q R
  unfolding select
  Ensures-select true h g = h refl
  Ensures-select false h g = g refl
