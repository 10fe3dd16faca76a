-- ===== src/Store/Inbox/Memory.antt =====
-- A codec for the contents of `inbox.json` that meets the laws asked of serde_json: numbers are one
-- code point each, and a list is written behind its length.
use podseq.Prelude.{
  ℕ, zero, suc, ◌≡◌, refl, false, Option, none, some, List, [], ◌∷◌, ◌++◌, arith, length, take,
  drop, Result, ok, err,
}
use podseq.Store.Disk.{Text, StoreError, serde, Codec, IsRoundTrip, is_blank, is_whitespace}
use podseq.Store.Inbox.{NonceRecord, Nonces, submitted, included}

take-append : (xs ys : List ℕ) → take (length xs) (xs ++ ys) ≡ xs
take-append [] ys = refl
take-append (x ∷ xs) ys = rw (take-append xs ys)

drop-append : (xs ys : List ℕ) → drop (length xs) (xs ++ ys) ≡ ys
drop-append [] ys = refl
drop-append (x ∷ xs) ys = drop-append xs ys

abbrev put_text : Text → Text → Text
put_text t rest = length t ∷ (t ++ rest)

put_record : NonceRecord → Text → Text
put_record (submitted s) rest =
    0
    ∷ s.deadline_height
    ∷ s.deadline_ms
    ∷ s.first_seen_height
    ∷ put_text s.tx_hash (put_text s.tx_bytes rest)
put_record (included h x) rest = 1 ∷ h ∷ put_text x rest

put_nonces : Nonces → Text
put_nonces [] = []
put_nonces ((n, r) ∷ m) = n ∷ put_record r (put_nonces m)

get_text : Text → Option (Text × Text)
get_text [] = none
get_text (n ∷ t) = some (take n t, drop n t)

get_text-put : (t rest : Text) → get_text (put_text t rest) ≡ some (t, rest)
unfolding get_text
get_text-put t rest = rw (take-append t rest, drop-append t rest)

get_bytes : ℕ → ℕ → ℕ → Text → Option (Text × Text) → Option (NonceRecord × Text)
get_bytes a b f h none = none
get_bytes a b f h (some (x, rest)) = some (
  submitted (record {
    deadline_height = a;
    deadline_ms = b;
    first_seen_height = f;
    tx_hash = h;
    tx_bytes = x;
  }),
  rest,
)

get_hash : ℕ → ℕ → ℕ → Option (Text × Text) → Option (NonceRecord × Text)
get_hash a b f none = none
get_hash a b f (some (h, rest)) = get_bytes a b f h (get_text rest)

get_included : ℕ → Option (Text × Text) → Option (NonceRecord × Text)
get_included h none = none
get_included h (some (x, rest)) = some (included h x, rest)

get_record : Text → Option (NonceRecord × Text)
unfolding get_bytes get_hash get_included
get_record (zero ∷ a ∷ b ∷ f ∷ t) = get_hash a b f (get_text t)
get_record (suc zero ∷ h ∷ t) = get_included h (get_text t)
get_record _ = none

get_record-put : (r : NonceRecord) (rest : Text) → get_record (put_record r rest) ≡ some (r, rest)
unfolding get_record put_record
get_record-put (submitted s) rest =
    rw (get_text-put s.tx_hash (put_text s.tx_bytes rest), get_hash, get_text-put s.tx_bytes rest)
get_record-put (included h x) rest = rw (get_text-put x rest)

get_cons : NonceRecord → ℕ → Option Nonces → Option Nonces
get_cons r n none = none
get_cons r n (some m) = some ((n, r) ∷ m)

-- The reader of the remaining pairs is handed over.
get_pair : (Text → Option Nonces) → Text → Option Nonces
unfolding get_cons
get_pair others [] = none
get_pair others (n ∷ t) = elim (get_record t) [
  | none ↦ none
  | some (r, rest) ↦ get_cons r n (others rest)
]

get_nonces : ℕ → Text → Option Nonces
unfolding get_pair
get_nonces zero t = some []
get_nonces (suc k) t = get_pair (get_nonces k) t

get_nonces-put : (m : Nonces) → get_nonces (length m) (put_nonces m) ≡ some m
unfolding get_nonces put_nonces
get_nonces-put [] = refl
get_nonces-put ((n, r) ∷ m) = ground (arith, get_record-put r (put_nonces m), get_nonces-put m)

print_nonces : Nonces → Result StoreError Text
print_nonces m = ok (b'{' ∷ length m ∷ put_nonces m)

or_serde : Option Nonces → Result StoreError Nonces
or_serde none = err serde
or_serde (some m) = ok m

parse_nonces : Text → Result StoreError Nonces
unfolding or_serde
parse_nonces (b ∷ k ∷ t) = or_serde (get_nonces k t)
parse_nonces _ = err serde

unfoldable pub nonces_codec : Codec Nonces
unfolding print_nonces parse_nonces put_nonces get_nonces put_record get_record get_text
nonces_codec = record { to_string_pretty = print_nonces; from_str = parse_nonces; default = [] }

parse-print : (m : Nonces) (s : Text) → print_nonces m ≡ ok s → parse_nonces s ≡ ok m
unfolding print_nonces parse_nonces
parse-print m [] h = cc
parse-print m (b ∷ []) h = cc
parse-print m (b ∷ k ∷ t) h = ground (arith, get_nonces-put m)

print-not_blank : (m : Nonces) (s : Text) → print_nonces m ≡ ok s → is_blank s ≡ false
unfolding print_nonces is_blank is_whitespace
print-not_blank m s h = ground arith

pub nonces_codec-IsRoundTrip : IsRoundTrip nonces_codec
unfolding nonces_codec
nonces_codec-IsRoundTrip = record { reads_back = parse-print; not_blank = print-not_blank }
