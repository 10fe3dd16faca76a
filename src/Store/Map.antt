-- ===== src/Store/Map.antt =====
-- `BTreeMap<u64, V>`: the pairs in ascending order of their keys.
use podseq.Prelude.{
  ℕ, suc, ◌≤◌, ◌≡◌, refl, Bool, Option, none, some, List, [], ◌∷◌, arith, ltb, ◌==◌, if◌then◌else◌,
  is_some,
}

module _ {V : Type 0} where
  unfoldable pub get : ℕ → List (ℕ × V) → Option V
  get k [] = none
  get k ((j, w) ∷ m) = if j == k then some w else get k m

  unfoldable pub contains_key : ℕ → List (ℕ × V) → Bool
  contains_key k m = is_some (get k m)

  -- Also the assignment through `get_mut` of a key that is there.
  unfoldable pub insert : ℕ → V → List (ℕ × V) → List (ℕ × V)
  insert k v [] = (k, v) ∷ []
  insert k v ((j, w) ∷ m) =
      if ltb k j then (k, v) ∷ (j, w) ∷ m else if j == k then (k, v) ∷ m else (j, w) ∷ insert k v m

  pub get-insert :
      (k i : ℕ) (v : V) (m : List (ℕ × V))
      → get i (insert k v m) ≡ (if k == i then some v else get i m)
  unfolding get insert
  get-insert k i v [] = refl
  get-insert k i v ((j, w) ∷ m) = ground (arith, get-insert k i v m)

  -- The keys ascend strictly, and the first is at least `lo`.
  abbrev pub SortedFrom : ℕ → List (ℕ × V) → Type 0
  SortedFrom lo [] = Unit {0}
  SortedFrom lo ((k, v) ∷ m) = (lo ≤ k) × SortedFrom (suc k) m

  pub insert-SortedFrom :
      (lo k : ℕ) (v : V) (m : List (ℕ × V))
      → lo ≤ k
      → SortedFrom lo m
      → SortedFrom lo (insert k v m)
  unfolding insert
  insert-SortedFrom lo k v [] h s = (h, tt)
  insert-SortedFrom lo k v ((j, w) ∷ m) h s = ground (arith, insert-SortedFrom (suc j) k v m)

  -- A key below the bound is not there.
  pub get-SortedFrom : (lo k : ℕ) (m : List (ℕ × V)) → SortedFrom lo m → suc k ≤ lo → get k m ≡ none
  unfolding get
  get-SortedFrom lo k [] s h = refl
  get-SortedFrom lo k ((j, w) ∷ m) s h = ground (arith, get-SortedFrom (suc j) k m s.1)
