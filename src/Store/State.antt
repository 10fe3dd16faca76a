-- ===== src/Store/State.antt =====
-- crates/node/src/store/state_store.rs: the fork-choice hashes and the height, in `state.json`.
use podseq.Prelude.{
  ℕ, ◌≤◌, ◌≡◌, ◌⊎◌, inl, inr, Option, none, some, arith, Result, ok, err, Result-cases,
}
use podseq.Store.Disk.{
  Text, StoreError, Disk, Io, Fault, with_fault, Codec, IsRoundTrip, read_to_string, save_raw,
}

pub record ChainState : Type 0 where
  pub head : Text
  pub safe : Text
  pub finalized : Text
  pub height : ℕ
  pub timestamp : ℕ

module _ (c : Codec ChainState) where
  parsed : Result StoreError ChainState → Result StoreError (Option ChainState)
  parsed (ok state) = ok (some state)
  parsed (err e) = err e

  parse_text : Result StoreError Text × Disk → Result StoreError (Option ChainState) × Disk
  unfolding parsed
  parse_text (ok text, d) = (parsed (c.from_str text), d)
  parse_text (err e, d) = (err e, d)

  -- A blank file is an error here, unlike in the other stores.
  unfoldable pub load : Io (Option ChainState)
  unfolding parse_text read_to_string
  load d = elim d.main [ none ↦ (ok none, d) | some text ↦ parse_text (read_to_string text d) ]

  unfoldable pub save : ChainState → Io (Unit {0})
  save state = save_raw c state

  -- After a save that succeeds, the next load that can read the file gives the saved state; after one
  -- that fails, the file is as it was.
  pub save-load :
      (laws : IsRoundTrip c) (state : ChainState) (d : Disk) (f : Fault)
      → 1 ≤ f.healthy
      → (((save state d).0 ≡ ok tt) × ((load (with_fault f (save state d).1)).0 ≡ ok (some state)))
        ⊎ ((e : StoreError) × ((save state d).0 ≡ err e) × ((save state d).1.main ≡ d.main))
  unfolding load save save_raw
  save-load laws state d f h = elim (Result-cases (c.to_string_pretty state)) [
    | inl (s, e) ↦ ground (arith, laws.reads_back state s e)
    | inr (x, e) ↦ ground arith
  ]
