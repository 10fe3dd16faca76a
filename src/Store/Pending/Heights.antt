-- ===== src/Store/Pending/Heights.antt =====
-- The list of heights as a strictly ascending set.
use podseq.Prelude.{
  ◌∙◌, ℕ, suc, ◌≤◌, ◌≡◌, refl, false, not, ◌&&◌, ◌||◌, List, [], ◌∷◌, arith, ◌==◌, contains,
}
use podseq.Store.Pending.{
  insert_sorted, sort_unstable, dedup_after, dedup, normalize, binary_search, insert_at, remove_at,
  mark_height, clear_height,
}

-- Strictly ascending, and at least `lo`.
abbrev pub Ascending : ℕ → List ℕ → Type 0
Ascending lo [] = Unit {0}
Ascending lo (x ∷ xs) = (lo ≤ x) × Ascending (suc x) xs

abbrev Weakly : ℕ → List ℕ → Type 0
Weakly lo [] = Unit {0}
Weakly lo (x ∷ xs) = (lo ≤ x) × Weakly x xs

insert_sorted-Weakly :
    (lo h : ℕ) (xs : List ℕ) → lo ≤ h → Weakly lo xs → Weakly lo (insert_sorted h xs)
unfolding insert_sorted
insert_sorted-Weakly lo h [] k w = (k, tt)
insert_sorted-Weakly lo h (x ∷ xs) k w = ground (arith, insert_sorted-Weakly x h xs)

sort_unstable-Weakly : (xs : List ℕ) → Weakly 0 (sort_unstable xs)
unfolding sort_unstable
sort_unstable-Weakly [] = tt
sort_unstable-Weakly (x ∷ xs) =
    insert_sorted-Weakly 0 x (sort_unstable xs) (omega arith) (sort_unstable-Weakly xs)

dedup_after-Ascending :
    (last : ℕ) (xs : List ℕ) → Weakly last xs → Ascending (suc last) (dedup_after last xs)
unfolding dedup_after
dedup_after-Ascending last [] w = tt
dedup_after-Ascending last (x ∷ xs) w = ground (arith, dedup_after-Ascending x xs)

pub normalize-Ascending : (xs : List ℕ) → Ascending 0 (normalize xs)
unfolding normalize dedup
normalize-Ascending xs = go (sort_unstable xs) (sort_unstable-Weakly xs)
  where
    go : (ys : List ℕ) → Weakly 0 ys → Ascending 0 (dedup ys)
    go [] w = tt
    go (y ∷ ys) w = (omega arith, dedup_after-Ascending y ys w.1)

contains-insert_sorted :
    (k h : ℕ) (xs : List ℕ) → contains k (insert_sorted h xs) ≡ ((h == k) || contains k xs)
unfolding insert_sorted
contains-insert_sorted k h [] = refl
contains-insert_sorted k h (x ∷ xs) = ground (arith, contains-insert_sorted k h xs)

contains-sort_unstable : (k : ℕ) (xs : List ℕ) → contains k (sort_unstable xs) ≡ contains k xs
unfolding sort_unstable
contains-sort_unstable k [] = refl
contains-sort_unstable k (x ∷ xs) =
    rw (contains-insert_sorted k x (sort_unstable xs), contains-sort_unstable k xs)

contains-dedup_after :
    (k last : ℕ) (xs : List ℕ)
    → ((last == k) || contains k (dedup_after last xs)) ≡ ((last == k) || contains k xs)
unfolding dedup_after
contains-dedup_after k last [] = refl
contains-dedup_after k last (x ∷ xs) = ground (arith, contains-dedup_after k x xs)

-- Sorting and dropping repetitions keeps the heights.
pub contains-normalize : (k : ℕ) (xs : List ℕ) → contains k (normalize xs) ≡ contains k xs
unfolding normalize dedup
contains-normalize k xs = go (sort_unstable xs) ∙ contains-sort_unstable k xs
  where
    go : (ys : List ℕ) → contains k (dedup ys) ≡ contains k ys
    go [] = refl
    go (y ∷ ys) = contains-dedup_after k y ys

-- A position found is where the height stands; otherwise the height is not there, and an insertion
-- at the position keeps the order.
pub mark_height-Ascending :
    (lo h : ℕ) (xs : List ℕ) → lo ≤ h → Ascending lo xs → Ascending lo (mark_height h xs)
unfolding mark_height binary_search insert_at
mark_height-Ascending lo h [] k a = (k, tt)
mark_height-Ascending lo h (x ∷ xs) k a = ground (arith, mark_height-Ascending (suc x) h xs)

pub contains-mark_height :
    (k h : ℕ) (xs : List ℕ) → contains k (mark_height h xs) ≡ ((h == k) || contains k xs)
unfolding mark_height binary_search insert_at
contains-mark_height k h [] = refl
contains-mark_height k h (x ∷ xs) = ground (arith, contains-mark_height k h xs)

Ascending-mono : (lo hi : ℕ) (xs : List ℕ) → lo ≤ hi → Ascending hi xs → Ascending lo xs
Ascending-mono lo hi [] h a = tt
Ascending-mono lo hi (x ∷ xs) h a = (omega arith, a.1)

pub clear_height-Ascending :
    (lo h : ℕ) (xs : List ℕ) → Ascending lo xs → Ascending lo (clear_height h xs)
unfolding clear_height binary_search remove_at
clear_height-Ascending lo h [] a = tt
clear_height-Ascending lo h (x ∷ xs) a =
    ground (arith, clear_height-Ascending (suc x) h xs a.1, Ascending-mono lo (suc x) xs)

contains_below : (lo k : ℕ) (xs : List ℕ) → Ascending lo xs → suc k ≤ lo → contains k xs ≡ false
contains_below lo k [] a h = refl
contains_below lo k (x ∷ xs) a h = ground (arith, contains_below (suc x) k xs a.1)

pub contains-clear_height :
    (lo k h : ℕ) (xs : List ℕ)
    → Ascending lo xs
    → contains k (clear_height h xs) ≡ (not (h == k) && contains k xs)
unfolding clear_height binary_search remove_at
contains-clear_height lo k h [] a = ground arith
contains-clear_height lo k h (x ∷ xs) a = ground (
  arith,
  contains-clear_height (suc x) k h xs a.1,
  contains_below (suc x) k xs a.1,
  contains_below (suc x) h xs a.1,
)
