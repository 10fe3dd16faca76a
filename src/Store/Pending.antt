-- ===== src/Store/Pending.antt =====
-- crates/node/src/store/pending_store.rs: the heights of blocks that were produced and are not yet
-- settled. The contents of the file `pending.json` are the list of heights as it was read; every
-- use sorts it and drops repeated heights first.
pub mod Heights
pub mod Recovery
use podseq.Prelude.{
  ℕ, zero, suc, List, [], ◌∷◌, ltb, leb, ◌==◌, if◌then◌else◌, Result, ok, err, ◌>>=◌,
}
use podseq.Store.Disk.{StoreError, Disk, Io, Codec, mutate, load_raw}

insert_sorted : ℕ → List ℕ → List ℕ
insert_sorted h [] = h ∷ []
insert_sorted h (x ∷ xs) = if leb h x then h ∷ x ∷ xs else x ∷ insert_sorted h xs

-- `sort_unstable` of numbers.
sort_unstable : List ℕ → List ℕ
unfolding insert_sorted
sort_unstable [] = []
sort_unstable (x ∷ xs) = insert_sorted x (sort_unstable xs)

-- `Vec::dedup`: of equal neighbours the first stays.
dedup_after : ℕ → List ℕ → List ℕ
dedup_after last [] = []
dedup_after last (x ∷ xs) = let rest = dedup_after x xs in if x == last then rest else x ∷ rest

dedup : List ℕ → List ℕ
unfolding dedup_after
dedup [] = []
dedup (x ∷ xs) = x ∷ dedup_after x xs

-- What `load_raw` does to the heights that it has parsed.
unfoldable pub normalize : List ℕ → List ℕ
unfolding sort_unstable dedup
normalize heights = dedup (sort_unstable heights)

-- `binary_search` of a sorted list without repetitions: `Ok` of the position, or `Err` of the
-- position at which the height would stand.
later : Result ℕ ℕ → Result ℕ ℕ
later (ok i) = ok (suc i)
later (err i) = err (suc i)

unfoldable pub binary_search : ℕ → List ℕ → Result ℕ ℕ
unfolding later
binary_search h [] = err 0
binary_search h (x ∷ xs) =
    if x == h then ok 0 else if ltb h x then err 0 else later (binary_search h xs)

-- `Vec::insert` and `Vec::remove` at a position within the list.
insert_at : ℕ → ℕ → List ℕ → List ℕ
insert_at zero h xs = h ∷ xs
insert_at (suc i) h [] = h ∷ []
insert_at (suc i) h (x ∷ xs) = x ∷ insert_at i h xs

remove_at : ℕ → List ℕ → List ℕ
remove_at i [] = []
remove_at zero (x ∷ xs) = xs
remove_at (suc i) (x ∷ xs) = x ∷ remove_at i xs

-- The closures of `mark` and `clear`.
unfoldable pub mark_height : ℕ → List ℕ → List ℕ
unfolding insert_at
mark_height h heights = elim (binary_search h heights) [
  | ok i ↦ heights
  | err i ↦ insert_at i h heights
]

unfoldable pub clear_height : ℕ → List ℕ → List ℕ
unfolding remove_at
clear_height h heights = elim (binary_search h heights) [
  | ok i ↦ remove_at i heights
  | err i ↦ heights
]

module _ (c : Codec (List ℕ)) where
  unfoldable pub mark : ℕ → Io (Unit {0})
  mark h = mutate c (λ heights. ok (mark_height h (normalize heights)))

  unfoldable pub clear : ℕ → Io (Unit {0})
  clear h = mutate c (λ heights. ok (clear_height h (normalize heights)))

  normalize_read : Result StoreError (List ℕ) × Disk → Result StoreError (List ℕ) × Disk
  normalize_read (ok heights, d) = (ok (normalize heights), d)
  normalize_read (err e, d) = (err e, d)

  unfoldable pub pending : Io (List ℕ)
  unfolding normalize_read
  pending d = normalize_read (load_raw c d)
