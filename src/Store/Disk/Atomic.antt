-- ===== src/Store/Disk/Atomic.antt =====
-- A change through `mutate` happens whole or not at all, when reads, writes and renames may fail.
use podseq.Prelude.{
  ◌≤◌, ◌≡◌, ◌⊎◌, inl, inr, none, some, arith, Result, ok, err, Result-cases, if◌then◌else◌,
}
use podseq.Store.Disk.{
  Text, StoreError, Disk, Codec, IsRoundTrip, is_blank, load_raw, save_raw, mutate,
}

module _ {T : Type 0} (c : Codec T) where
  -- What a process that starts now will read: the store's file, with no fault on the way.
  unfoldable pub contents : Disk → Result StoreError T
  contents d = elim d.main [
    | none ↦ ok c.default
    | some text ↦ if is_blank text then ok c.default else c.from_str text
  ]

  load_raw-main : (d : Disk) → (load_raw c d).1.main ≡ d.main
  unfolding load_raw
  load_raw-main d = ground arith

  load_raw-value :
      (d : Disk) → ((load_raw c d).0 ≡ contents d) ⊎ ((e : StoreError) × ((load_raw c d).0 ≡ err e))
  unfolding load_raw contents
  load_raw-value d = ground arith

  -- The file was replaced by the text of `y`, or stands as it was.
  save_raw-cases :
      (laws : IsRoundTrip c) (y : T) (d : Disk)
      → (((save_raw c y d).0 ≡ ok tt) × (contents (save_raw c y d).1 ≡ ok y))
        ⊎ ((e : StoreError) × ((save_raw c y d).0 ≡ err e) × ((save_raw c y d).1.main ≡ d.main))
  unfolding contents save_raw
  save_raw-cases laws y d = elim (Result-cases (c.to_string_pretty y)) [
    | inl (s, e) ↦ ground (arith, laws.reads_back y s e, laws.not_blank y s e)
    | inr (x, e) ↦ ground arith
  ]

  -- A call either succeeds, and what is read afterwards is `f` of what was read before, or fails,
  -- and the store's file stands as it was.
  abbrev pub AllOrNothing :
      (T → Result StoreError T) → Disk → Result StoreError (Unit {0}) × Disk → Type 0
  AllOrNothing f d (r, d') =
      ((x : T) × (y : T) × (contents d ≡ ok x) × (f x ≡ ok y) × (r ≡ ok tt) × (contents d' ≡ ok y))
      ⊎ ((e : StoreError) × (r ≡ err e) × (d'.main ≡ d.main))

  -- From whichever read, write or rename on these calls fail, and whatever a failing write leaves in
  -- the temporary file, a change is made whole and reported, or an error is reported and the file
  -- stands as it was. The test whether the file exists is taken to answer rightly.
  pub mutate-AllOrNothing :
      (laws : IsRoundTrip c) (f : T → Result StoreError T) (d : Disk)
      → AllOrNothing f d (mutate c f d)
  unfolding mutate
  mutate-AllOrNothing laws f d = elim (Result-cases (load_raw c d).0) [
    | inr (e, h) ↦ inr (e, ground arith, ground (arith, load_raw-main d))
    | inl (x, h) ↦ elim (Result-cases (f x)) [
      | inr (e, k) ↦ inr (e, ground arith, ground (arith, load_raw-main d))
      | inl (y, k) ↦
          ground (arith, load_raw-main d, load_raw-value d, save_raw-cases laws y (load_raw c d).1)
    ]
  ]

  -- With three calls that succeed, and contents that can be printed, a change is made.
  pub mutate-ok :
      (laws : IsRoundTrip c) (f : T → Result StoreError T) (d : Disk) (x y : T) (s : Text)
      → 3 ≤ d.healthy
      → contents d ≡ ok x
      → f x ≡ ok y
      → c.to_string_pretty y ≡ ok s
      → ((mutate c f d).0 ≡ ok tt) × (contents (mutate c f d).1 ≡ ok y)
  unfolding mutate load_raw save_raw contents
  mutate-ok laws f d x y s h e k p = ground (arith, laws.reads_back y s p, laws.not_blank y s p)

  -- An error of the closure is returned, with one call that succeeds.
  pub mutate-err :
      (f : T → Result StoreError T) (d : Disk) (x : T) (e : StoreError)
      → 1 ≤ d.healthy
      → contents d ≡ ok x
      → f x ≡ err e
      → ((mutate c f d).0 ≡ err e) × ((mutate c f d).1.main ≡ d.main)
  unfolding mutate load_raw contents
  mutate-err f d x e h p k = ground arith

  pub contents-main : (d d' : Disk) → d'.main ≡ d.main → contents d' ≡ contents d
  unfolding contents
  contents-main d d' e = ground arith
