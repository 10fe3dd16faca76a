-- ===== src/Bridge/Chains/Entries.antt =====
-- The tokens that a registry and its spelling in the file name are there on the L2.
use podseq.Prelude.{
  ℕ, ◌≡◌, sym, inl, inr, some, List, [], ◌∷◌, map, Result, ok, ◌>>=◌, arith, Bool-cases,
  ok_injective,
}
use mathlib.Core.Path.{subst}
use podseq.Core.Octets.{Bytes}
use podseq.Bridge.Abi.{same_bytes}
use podseq.Bridge.Registry.Finds.{same_bytes→eq}
use podseq.Bridge.Registry.{TokenRegistry, find, put, add_token, claimed_by_other, restore_into}
use podseq.Bridge.Chains.{Chains, Outside}
use podseq.Bridge.Chains.Sound.{Stands}
use podseq.Bridge.Chains.Context.{Spells, EntriesFine, RegistryFine}

bind_ok :
    {E A B : Type 0} (x : Result E A) (k : A → Result E B) (a : A) (b : B)
    → x ≡ ok a
    → (x >>= k) ≡ ok b
    → k a ≡ ok b
bind_ok x k a b p e = subst (λ y. (y >>= k) ≡ ok b) p e

pub find-Stands :
    (o : Outside) (coin : Bytes) (a : ℕ) (w : Chains) (es : List (Bytes × ℕ))
    → EntriesFine o w es
    → find coin es ≡ some a
    → Stands o coin a w
unfolding find
find-Stands o coin a w [] fine e = cc
find-Stands o coin a w ((c, b) ∷ es) (h, fine) e = elim (Bool-cases (same_bytes c coin)) [
  | inl t ↦
      subst (λ k. Stands o coin k w) (ground arith)
        (subst (λ k. Stands o k b w) (same_bytes→eq c coin t) h)
  | inr f ↦ find-Stands o coin a w es fine (ground arith)
]

EntriesFine-put :
    (o : Outside) (coin : Bytes) (a : ℕ) (w : Chains) (es : List (Bytes × ℕ))
    → EntriesFine o w es
    → Stands o coin a w
    → EntriesFine o w (put coin a es)
unfolding put
EntriesFine-put o coin a w [] fine h = (h, tt)
EntriesFine-put o coin a w ((c, b) ∷ es) (g, fine) h = elim (Bool-cases (same_bytes c coin)) [
  | inl t ↦ rw t (subst (λ k. Stands o k a w) (sym (same_bytes→eq c coin t)) h, fine)
  | inr f ↦ rw f (g, EntriesFine-put o coin a w es fine h)
]

pub RegistryFine-add :
    (o : Outside) (coin : Bytes) (a : ℕ) (tokens : TokenRegistry) (w : Chains)
    → RegistryFine o tokens w
    → Stands o coin a w
    → RegistryFine o (add_token coin a tokens).0 w
unfolding add_token
RegistryFine-add o coin a tokens w fine h =
    elim (Bool-cases (claimed_by_other (find coin tokens.by_coin_type) a)) [
      | inl t ↦ rw t fine
      | inr f ↦ rw f (EntriesFine-put o coin a w tokens.by_coin_type fine h)
    ]

-- What a registry spells is read back as tokens that are there.
pub restore_into-RegistryFine :
    (o : Outside) (spells : Spells o) (w : Chains) (es : List (Bytes × ℕ))
    (tokens left : TokenRegistry)
    → EntriesFine o w es
    → RegistryFine o tokens w
    → restore_into o.spelling tokens
        (map (λ e. (o.spelling.hex_encode e.0, o.spelling.print_address e.1)) es)
      ≡ ok left
    → RegistryFine o left w
unfolding restore_into
restore_into-RegistryFine o spells w [] tokens left fine f e =
    subst (λ t. RegistryFine o t w) (ok_injective e) f
restore_into-RegistryFine o spells w ((c, a) ∷ es) tokens left (h, fine) f e =
    restore_into-RegistryFine o spells w es (add_token c a tokens).0 left fine
      (RegistryFine-add o c a tokens w f h)
      (bind_ok (o.spelling.parse_address (o.spelling.print_address a)) _ a left
        (spells.address_read a)
        (bind_ok (o.spelling.hex_decode (o.spelling.hex_encode c)) _ c left (spells.hex_read c) e))
