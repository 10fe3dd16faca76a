-- ===== src/Bridge/Registry/Finds.antt =====
-- A map of crates/node/src/bridge.rs and of move/sources/bridge.move whose keys are bytes.
use podseq.Prelude.{
  ==_refl, ◌≡◌, refl, ap, ◌∙◌, true, Bool-cases, inl, inr, some, List, [], ◌∷◌, arith,
  if◌then◌else◌,
}
use podseq.Core.Octets.{Bytes}
use podseq.Bridge.Abi.{same_bytes}
use podseq.Bridge.Registry.{find, put}

pub same_bytes_refl : (xs : Bytes) → same_bytes xs xs ≡ true
same_bytes_refl [] = refl
same_bytes_refl (x ∷ xs) = rw (==_refl x, same_bytes_refl xs) refl

pub same_bytes→eq : (xs ys : Bytes) → same_bytes xs ys ≡ true → xs ≡ ys
same_bytes→eq [] [] h = refl
same_bytes→eq [] (y ∷ ys) h = cc
same_bytes→eq (x ∷ xs) [] h = cc
same_bytes→eq (x ∷ xs) (y ∷ ys) h = ground (arith, same_bytes→eq xs ys)

module _ {V : Type 0} where
  pub find-put :
      (j k : Bytes) (v : V) (m : List (Bytes × V))
      → find k (put j v m) ≡ (if same_bytes j k then some v else find k m)
  unfolding find put
  find-put j k v [] = refl
  find-put j k v ((i, w) ∷ m) = elim (Bool-cases (same_bytes i j)) [
    | inl t ↦ ground (arith, t, ap (λ x. same_bytes x k) (same_bytes→eq i j t))
    | inr f ↦ elim (Bool-cases (same_bytes i k)) [
      | inl g ↦ ground (arith, f, g, apart g)
      | inr g ↦ ground (arith, f, g, find-put j k v m)
    ]
  ]
    where
      apart : same_bytes i k ≡ true → same_bytes j k ≡ true → same_bytes i j ≡ true
      apart g h = ap (same_bytes i) (same_bytes→eq j k h) ∙ g

pub find-same :
    (j k : Bytes) (m : List (Bytes × Unit {0})) → same_bytes j k ≡ true → find j m ≡ find k m
find-same j k m h = ap (λ x. find x m) (same_bytes→eq j k h)
