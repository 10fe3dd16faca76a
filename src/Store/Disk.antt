-- ===== src/Store/Disk.antt =====
-- The file access that the JSON stores share (`load_raw`, `save_raw` and `mutate` of
-- crates/node/src/store/inbox_store.rs and pending_store.rs). A text is its list of code points.
-- The file system fails by a fault that the environment chooses: a number of calls that succeed,
-- and what a write that fails, or that the crash of the process interrupts, leaves in its file. The
-- test of `path.exists()` is taken to answer rightly.
pub mod Atomic
use podseq.Prelude.{
  ℕ, zero, suc, Bool, false, ◌&&◌, ◌||◌, Option, none, some, List, leb, ◌==◌, if◌then◌else◌, all,
  Result, ok, err, ◌≡◌, ◌>>=◌,
}

abbrev pub Text : Type 0
Text = List ℕ

-- `char::is_whitespace`: the code points with the property White_Space.
unfoldable pub is_whitespace : ℕ → Bool
is_whitespace c =
    (leb 9 c && leb c 13)
    || (c == 32)
    || (c == 0x85)
    || (c == 0xa0)
    || (c == 0x1680)
    || (leb 0x2000 c && leb c 0x200a)
    || (c == 0x2028)
    || (c == 0x2029)
    || (c == 0x202f)
    || (c == 0x205f)
    || (c == 0x3000)

-- `text.trim().is_empty()`.
unfoldable pub is_blank : Text → Bool
is_blank = all is_whitespace

pub data StoreError : Type 0 where
  io serde : StoreError
  block_not_found : ℕ → StoreError
  conflict : ℕ → StoreError  -- the message, by the nonce that it names

-- One store's file, `main`, and the temporary file beside it; and the fault to come: the file
-- system answers `healthy` more calls, and a write that fails leaves `torn` in its file.
pub record Disk : Type 0 where
  pub main : Option Text
  pub tmp : Option Text
  pub healthy : ℕ
  pub torn : Option Text

-- The fault that one call meets.
pub record Fault : Type 0 where
  pub healthy : ℕ
  pub torn : Option Text

abbrev pub with_fault : Fault → Disk → Disk
with_fault f d = record d { healthy = f.healthy; torn = f.torn }

-- A call of a store: its result, and the disk that it leaves.
abbrev pub Io : Type 0 → Type 0
Io A = Disk → Result StoreError A × Disk

-- One call of the file system.
spend : {A : Type 0} → ℕ → Disk → Disk → Result StoreError A → Disk → Result StoreError A × Disk
spend zero d failed r done = (err io, failed)
spend (suc n) d failed r done = (r, record done { healthy = n })

-- `std::fs::read_to_string` of the store's file, which exists and holds `text`.
unfoldable pub read_to_string : Text → Io Text
unfolding spend
read_to_string text d = spend d.healthy d d (ok text) d

-- `std::fs::write` to the temporary file.
unfoldable pub write_tmp : Text → Io (Unit {0})
unfolding spend
write_tmp text d =
    spend d.healthy d (record d { tmp = d.torn }) (ok tt) (record d { tmp = some text })

-- `std::fs::rename` of the temporary file over the store's file: it happens whole or not at all.
unfoldable pub rename_tmp : Io (Unit {0})
unfolding spend
rename_tmp d = spend d.healthy d d (ok tt) (record d { main = d.tmp; tmp = none })

-- serde_json for the type `T` of a store's contents, and `T::default()`.
pub record Codec (T : Type 0) : Type 0 where
  pub to_string_pretty : T → Result StoreError Text
  pub from_str : Text → Result StoreError T
  pub default : T

-- What the stores rely on: a value that is printed is read back, and its text is not blank.
pub record IsRoundTrip {T : Type 0} (c : Codec T) : Type 0 where
  pub reads_back : (x : T) (s : Text) → c.to_string_pretty x ≡ ok s → c.from_str s ≡ ok x
  pub not_blank : (x : T) (s : Text) → c.to_string_pretty x ≡ ok s → is_blank s ≡ false

module _ {T : Type 0} (c : Codec T) where
  parse : Text → Result StoreError T
  parse text = if is_blank text then ok c.default else c.from_str text

  parse_read : Result StoreError Text × Disk → Result StoreError T × Disk
  unfolding parse
  parse_read (ok text, d) = (parse text, d)
  parse_read (err e, d) = (err e, d)

  load_from : Option Text → Io T
  unfolding parse_read read_to_string
  load_from none d = (ok c.default, d)
  load_from (some text) d = parse_read (read_to_string text d)

  unfoldable pub load_raw : Io T
  unfolding load_from
  load_raw d = load_from d.main d

  rename_written : Result StoreError (Unit {0}) × Disk → Result StoreError (Unit {0}) × Disk
  unfolding rename_tmp
  rename_written (ok _, d) = rename_tmp d
  rename_written (err e, d) = (err e, d)

  save_text : Result StoreError Text → Io (Unit {0})
  unfolding rename_written write_tmp
  save_text (ok text) d = rename_written (write_tmp text d)
  save_text (err e) d = (err e, d)

  unfoldable pub save_raw : T → Io (Unit {0})
  unfolding save_text
  save_raw file = save_text (c.to_string_pretty file)

  save_mutated : Result StoreError T → Io (Unit {0})
  save_mutated (ok file) d = save_raw file d
  save_mutated (err e) d = (err e, d)

  mutate_loaded :
      (T → Result StoreError T) → Result StoreError T × Disk → Result StoreError (Unit {0}) × Disk
  unfolding save_mutated
  mutate_loaded f (ok file, d) = save_mutated (f file) d
  mutate_loaded f (err e, d) = (err e, d)

  -- A closure that changes the contents in place is the function to its new contents.
  unfoldable pub mutate : (T → Result StoreError T) → Io (Unit {0})
  unfolding mutate_loaded
  mutate f d = mutate_loaded f (load_raw d)
