-- ===== src/Store/Blocks.antt =====
-- crates/node/src/store/block_store.rs: one file per height, written in place. The BCS encoding of a
-- block is a parameter. The file system fails as in Store/Disk; `torn` is what a write that fails
-- leaves in its file.
use podseq.Prelude.{
  ℕ, zero, suc, max, ◌≤◌, ◌≡◌, Bool, false, Option, none, some, List, [], ◌∷◌, arith, ◌==◌, ==_refl,
  Result, ok, err, Result-cases, inl, inr,
}
use podseq.Store.Disk.{Text, StoreError, io, block_not_found}
use podseq.Store.Map.{contains_key, insert, get-insert}
use podseq.Store.Map as Map

pub record Dir : Type 0 where
  pub files : List (ℕ × Text)
  pub healthy : ℕ
  pub torn : Text

pub record BlockCodec (B : Type 0) : Type 0 where
  pub height : B → ℕ
  pub to_bytes : B → Result StoreError Text
  pub from_bytes : Text → Result StoreError B

-- `Iterator::max` of the heights in the directory.
max_key : List (ℕ × Text) → Option ℕ
max_key [] = none
max_key ((k, f) ∷ m) = elim (max_key m) [ none ↦ some k | some j ↦ some (max k j) ]

unfoldable pub has : ℕ → Dir → Bool
has height d = contains_key height d.files

-- An unreadable directory has no latest height.
unfoldable pub latest_height : Dir → Option ℕ
unfolding max_key
latest_height d = elim d.healthy [ zero ↦ none | suc n ↦ max_key d.files ]

module _ {B : Type 0} (c : BlockCodec B) where
  -- `std::fs::write` of the file of a height.
  write_block : ℕ → Text → Dir → Result StoreError (Unit {0}) × Dir
  write_block h bytes d = elim d.healthy [
    | zero ↦ (err io, record d { files = insert h d.torn d.files })
    | suc n ↦ (ok tt, record d { files = insert h bytes d.files; healthy = n })
  ]

  put_encoded : ℕ → Result StoreError Text → Dir → Result StoreError (Unit {0}) × Dir
  unfolding write_block
  put_encoded h (ok bytes) d = write_block h bytes d
  put_encoded h (err e) d = (err e, d)

  unfoldable pub put : B → Dir → Result StoreError (Unit {0}) × Dir
  unfolding put_encoded
  put block d = put_encoded (c.height block) (c.to_bytes block) d

  read_block : Text → Dir → Result StoreError B × Dir
  read_block bytes d = elim d.healthy [
    | zero ↦ (err io, d)
    | suc n ↦ (c.from_bytes bytes, record d { healthy = n })
  ]

  unfoldable pub get : ℕ → Dir → Result StoreError B × Dir
  unfolding read_block
  get height d = elim (Map.get height d.files) [
    | none ↦ (err (block_not_found height), d)
    | some bytes ↦ read_block bytes d
  ]

  -- A put changes no other height, whether it succeeds or not; and a block that was put is what the
  -- next get of its height reads, if one call of the file system succeeds.
  pub put-get :
      (reads_back : (b : B) (bytes : Text) → c.to_bytes b ≡ ok bytes → c.from_bytes bytes ≡ ok b)
      (block : B) (d : Dir)
      → ((k : ℕ)
          → (c.height block == k) ≡ false
          → Map.get k (put block d).1.files ≡ Map.get k d.files)
        × ((put block d).0 ≡ ok tt
            → 1 ≤ (put block d).1.healthy
            → (get (c.height block) (put block d).1).0 ≡ ok block)
  unfolding put get
  put-get reads_back block d = elim (Result-cases (c.to_bytes block)) [
    | inr (e, p) ↦ (λ k n. ground arith, λ h o. ground arith)
    | inl (bytes, p) ↦ (
      λ k n. ground (
        arith,
        get-insert (c.height block) k bytes d.files,
        get-insert (c.height block) k d.torn d.files,
      ),
      λ h o. ground (
        arith,
        reads_back block bytes p,
        get-insert (c.height block) (c.height block) bytes d.files,
        ==_refl (c.height block),
      ),
    )
  ]
