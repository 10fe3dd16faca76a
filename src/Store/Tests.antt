-- ===== src/Store/Tests.antt =====
-- Runs and instances of the stores' theorems.
use podseq.Prelude.{ℕ, ◌≡◌, refl, ◌⊎◌, true, none, some, List, [], ◌∷◌, arith, contains, ok, err}
use podseq.Store.Disk.{
  StoreError, serde, Disk, Fault, with_fault, Codec, IsRoundTrip, is_blank, is_whitespace, mutate,
  load_raw, save_raw, read_to_string, write_tmp, rename_tmp,
}
use podseq.Store.Disk.Atomic.{contents, AllOrNothing, mutate-AllOrNothing}
use podseq.Store.Map.{get, contains_key, insert}
use podseq.Store.Inbox.{
  Submission, Nonces, submitted, add_submitted, set_included, record_submitted, mark_included,
}
use podseq.Store.Inbox.Memory.{nonces_codec, nonces_codec-IsRoundTrip}
use podseq.Store.Inbox.Lifecycle
use podseq.Store.Inbox.Lifecycle.{Call, includes, StoreEvolves, run_calls-Evolves}
use podseq.Store.Pending.{pending, normalize}
use podseq.Store.Pending.Heights.{Ascending}
use podseq.Store.Pending.Recovery
use podseq.Store.Pending.Recovery.{marks, clears, perform-contents, run_calls-still_pending}

abbrev empty_disk : Disk
empty_disk = record { main = none; tmp = none; healthy = 3; torn = none }

abbrev healthy_call : Fault
healthy_call = record { healthy = 3; torn = none }

-- The rename fails, after the temporary file was written.
abbrev no_rename : Fault
no_rename = record { healthy = 2; torn = none }

-- The write of the temporary file is cut short.
abbrev torn_write : Fault
torn_write = record { healthy = 1; torn = some (b'{' ∷ []) }

abbrev forced : Submission
forced = record {
  deadline_height = 310;
  deadline_ms = 1600000;
  first_seen_height = 10;
  tx_hash = b'd' ∷ b'e' ∷ [];
  tx_bytes = b'0' ∷ b'2' ∷ [];
}

mutate-AllOrNothing_example :
    AllOrNothing nonces_codec
      (add_submitted 3 forced)
      (with_fault torn_write empty_disk)
      (mutate nonces_codec (add_submitted 3 forced) (with_fault torn_write empty_disk))
mutate-AllOrNothing_example =
    mutate-AllOrNothing nonces_codec nonces_codec-IsRoundTrip (add_submitted 3 forced)
      (with_fault torn_write empty_disk)

abbrev stored : Disk
stored = (record_submitted nonces_codec 3 forced empty_disk).1

abbrev stored_nonces : Nonces
stored_nonces = (3, submitted forced) ∷ []

stored-contents : contents nonces_codec stored ≡ ok stored_nonces
unfolding record_submitted mutate load_raw save_raw write_tmp rename_tmp contents nonces_codec
    add_submitted contains_key get insert is_blank is_whitespace
stored-contents = refl

abbrev calls : List (Fault × Call)
calls =
    (no_rename, includes 3 42) ∷ (healthy_call, includes 3 42) ∷ (healthy_call, includes 3 43) ∷ []

run_calls-Evolves_example :
    StoreEvolves nonces_codec stored_nonces (Lifecycle.run_calls nonces_codec stored calls)
run_calls-Evolves_example =
    run_calls-Evolves nonces_codec nonces_codec-IsRoundTrip calls stored stored_nonces
      stored-contents (omega arith)

marks_included : (mark_included nonces_codec 3 42 (with_fault healthy_call stored)).0 ≡ ok tt
unfolding mark_included record_submitted mutate load_raw save_raw write_tmp rename_tmp contents
    read_to_string nonces_codec add_submitted set_included contains_key get insert is_blank
    is_whitespace
marks_included = refl

-- A text that begins with a bracket and then has each height as one code point.
heights_codec : Codec (List ℕ)
heights_codec = record {
  to_string_pretty = λ heights. ok (b'[' ∷ heights);
  from_str = λ text. elim text [ [] ↦ err serde | b ∷ heights ↦ ok heights ];
  default = [];
}

heights_codec-IsRoundTrip : IsRoundTrip heights_codec
unfolding heights_codec is_blank is_whitespace
heights_codec-IsRoundTrip = record {
  reads_back = λ x s h. ground arith;
  not_blank = λ x s h. ground arith;
}

-- Heights out of order and twice, as an edited file may hold them.
abbrev edited : Disk
edited = record { main = some (b'[' ∷ 7 ∷ 2 ∷ 7 ∷ []); tmp = none; healthy = 3; torn = none }

edited-contents : contents heights_codec edited ≡ ok (7 ∷ 2 ∷ 7 ∷ [])
unfolding contents heights_codec is_blank is_whitespace
edited-contents = refl

edited_pending : (pending heights_codec edited).0 ≡ ok (2 ∷ 7 ∷ [])
unfolding pending normalize load_raw heights_codec read_to_string is_blank is_whitespace
edited_pending = refl

perform-contents_example :
    let (r, d') = Recovery.perform heights_codec heights_codec-IsRoundTrip (marks 5) edited in
    ((ys : List ℕ) × (r ≡ ok tt)
      × (contents heights_codec d' ≡ ok ys)
      × Ascending 0 ys
      × ((k : ℕ)
          → contains k ys
            ≡ Recovery.has_after heights_codec heights_codec-IsRoundTrip
                (marks 5)
                k
                (contains k (7 ∷ 2 ∷ 7 ∷ []))))
    ⊎ ((e : StoreError) × (r ≡ err e) × (contents heights_codec d' ≡ ok (7 ∷ 2 ∷ 7 ∷ [])))
perform-contents_example =
    perform-contents heights_codec heights_codec-IsRoundTrip (marks 5) edited (7 ∷ 2 ∷ 7 ∷ [])
      edited-contents

run_calls-still_pending_example :
    (ys : List ℕ) × (contents heights_codec (
        Recovery.run_calls heights_codec heights_codec-IsRoundTrip edited
          ((torn_write, marks 5) ∷ (healthy_call, clears 2) ∷ []))
      ≡ ok ys)
    × (contains 7 ys ≡ true)
run_calls-still_pending_example =
    run_calls-still_pending heights_codec heights_codec-IsRoundTrip
      ((torn_write, marks 5) ∷ (healthy_call, clears 2) ∷ []) edited (7 ∷ 2 ∷ 7 ∷ []) 7
      edited-contents refl refl
