-- ===== src/Call/Focus.antt =====
-- What a call ensures that changes a part of the state only.
use podseq.Prelude.{Result, ok, err, ◌≡◌, refl, arith}
use mathlib.Core.Path.{subst}
use podseq.Call.{Call, focus}
use podseq.Call.Ensures.{Post, Ensures, Keeps, Ensures-weaken, Ensures-answer}

focus-Post :
    {S T E A : Type 0} (put : T → S → S) (P : S → Type 0) (G : A → T → Type 0) (s : S)
    (r : Result E A × T)
    → ((t : T) → P (put t s))
    → Post G (λ _ _. Unit {0}) r
    → Post (λ a s'. P s' × ((t : T) × G a t)) (λ _. P) (focus (λ _. r.1) put (λ _. r) s)
unfolding focus
focus-Post put P G s (ok a, t) k g = (k t, (t, g))
focus-Post put P G s (err e, t) k g = k t

module _ {S T : Type 0} (get : S → T) (put : T → S → S) where
  -- A condition that the focused part does not enter is kept, and what the call ensures is a fact of
  -- its value.
  pub Ensures-focus :
      {E A : Type 0} {P : S → Type 0} {m : Call T E A} {G : A → T → Type 0}
      → ((s : S) (t : T) → P s → P (put t s))
      → Ensures (λ _. Unit {0}) m G (λ _ _. Unit {0})
      → Ensures P (focus get put m) (λ a s. P s × ((t : T) × G a t)) (λ _. P)
  unfolding focus
  Ensures-focus {P} {m} {G} k h = record {
    holds = λ s p. focus-Post put P G s (m (get s)) (λ t. k s t p) (h.holds (get s) tt);
  }

  pub Keeps-focus :
      {E A : Type 0} {P : S → Type 0} (m : Call T E A)
      → ((s : S) (t : T) → P s → P (put t s))
      → Keeps P (focus get put m)
  Keeps-focus m k =
      Ensures-weaken (λ _ p. p) (λ _ _ q. q.0) (λ _ _ q. q) (Ensures-focus k (Ensures-answer m))

succeeds-Post :
    {S T E A : Type 0} (put : T → S → S) (P : S → Type 0) (F : A → Type 0) (s : S)
    (r : Result E A × T)
    → ((t : T) → P (put t s))
    → (a : A) × (r.0 ≡ ok a) × F a
    → Post (λ a s'. P s' × F a) (λ _ _. ⊥) (focus (λ _. r.1) put (λ _. r) s)
unfolding focus
succeeds-Post put P F s (ok a, t) k (b, e, f) = (k t, subst F (cc) f)
succeeds-Post put P F s (err x, t) k (b, e, f) = ground arith

module _ {S T : Type 0} (get : S → T) (put : T → S → S) where
  -- A call that always answers does not fail.
  pub Succeeds-focus :
      {E A : Type 0} {P : S → Type 0} (m : Call T E A) (F : A → Type 0)
      → ((s : S) (t : T) → P s → P (put t s))
      → ((t : T) → (a : A) × ((m t).0 ≡ ok a) × F a)
      → Ensures P (focus get put m) (λ a s. P s × F a) (λ _ _. ⊥)
  unfolding focus
  Succeeds-focus {P} m F k h = record {
    holds = λ s p. succeeds-Post put P F s (m (get s)) (λ t. k s t p) (h (get s));
  }

outcome-Post :
    {W E A : Type 0} (m : Call W E A) (r : Result E A × W) (s : W)
    → m s ≡ r
    → Post (λ a w. (w0 : W) × (m w0 ≡ (ok a, w))) (λ e w. (w0 : W) × (m w0 ≡ (err e, w))) r
outcome-Post m (ok a, w) s e = (s, e)
outcome-Post m (err x, w) s e = (s, e)

whole-Post :
    {S T E A : Type 0} (put : T → S → S) (P : S → Type 0) (G : A → T → Type 0) (H : E → T → Type 0)
    (s : S) (r : Result E A × T)
    → ((t : T) → P (put t s))
    → Post G H r
    → Post
        (λ a s'. P s' × ((t : T) × G a t))
        (λ e s'. P s' × ((t : T) × H e t))
        (focus (λ _. r.1) put (λ _. r) s)
unfolding focus
whole-Post put P G H s (ok a, t) k g = (k t, (t, g))
whole-Post put P G H s (err e, t) k g = (k t, (t, g))

-- A focused call's own answer, a value or an error.
pub Ensures-outcome :
    {S T E A : Type 0} (get : S → T) (put : T → S → S) (m : Call T E A) {P : S → Type 0}
    → ((s : S) (t : T) → P s → P (put t s))
    → Ensures P
        (focus get put m)
        (λ a s. P s × ((t : T) × ((t0 : T) × (m t0 ≡ (ok a, t)))))
        (λ e s. P s × ((t : T) × ((t0 : T) × (m t0 ≡ (err e, t)))))
unfolding focus
Ensures-outcome {T} get put m {P} k = record {
  holds = λ s p.
      whole-Post put P (λ a w. (w0 : T) × (m w0 ≡ (ok a, w)))
        (λ e w. (w0 : T) × (m w0 ≡ (err e, w))) s (m (get s)) (λ t. k s t p)
        (outcome-Post m (m (get s)) (get s) refl);
}

run-Post :
    {S T E A : Type 0} (put : T → S → S) (P : S → Type 0) (s : S) (r : Result E A × T)
    → P (put r.1 s)
    → Post (λ _. P) (λ _. P) (focus (λ _. r.1) put (λ _. r) s)
unfolding focus
run-Post put P s (ok a, t) p = p
run-Post put P s (err e, t) p = p

-- A condition that the call's own change keeps.
pub Keeps-focus_run :
    {S T E A : Type 0} (get : S → T) (put : T → S → S) (m : Call T E A) {P : S → Type 0}
    → ((s : S) → P s → P (put (m (get s)).1 s))
    → Keeps P (focus get put m)
unfolding focus
Keeps-focus_run get put m {P} k = record { holds = λ s p. run-Post put P s (m (get s)) (k s p) }

frame-Post :
    {S T E A : Type 0} (get : S → T) (put : T → S → S) (F : S → Type 0) (Q : A → T → Type 0)
    (R : E → T → Type 0) (s : S) (r : Result E A × T)
    → ((t : T) → F (put t s))
    → ((t : T) → t ≡ get (put t s))
    → Post Q R r
    → Post
        (λ a s'. F s' × Q a (get s'))
        (λ e s'. F s' × R e (get s'))
        (focus (λ _. r.1) put (λ _. r) s)
unfolding focus
frame-Post get put F Q R s (ok a, t) k l h = (k t, subst (Q a) (l t) h)
frame-Post get put F Q R s (err e, t) k l h = (k t, subst (R e) (l t) h)

-- What a call ensures of the part that it changes, beside a condition that the part does not enter.
pub Ensures-frame :
    {S T E A : Type 0} (get : S → T) (put : T → S → S) (m : Call T E A) {F : S → Type 0}
    {P : T → Type 0} {Q : A → T → Type 0} {R : E → T → Type 0}
    → ((s : S) (t : T) → F s → F (put t s))
    → ((s : S) (t : T) → t ≡ get (put t s))
    → Ensures P m Q R
    → Ensures
        (λ s. F s × P (get s))
        (focus get put m)
        (λ a s. F s × Q a (get s))
        (λ e s. F s × R e (get s))
unfolding focus
Ensures-frame get put m {F} {P} {Q} {R} k l h = record {
  holds =
      λ s p. frame-Post get put F Q R s (m (get s)) (λ t. k s t p.0) (l s) (h.holds (get s) p.1);
}
