-- ===== src/Cdid/Ids.antt =====
-- cdid/cdid.go: parsing what `String` writes, and the time of an id.
use concrnt.Prelude.{
  ℕ, ◌*◌, ◌/◌, ◌^◌, ◌≤◌, ◌<◌, ◌≡◌, ◌∙◌, refl, Bool, true, false, not, List, [], ◌∷◌, ◌++◌, Option,
  none, some, map, ◌==◌, All, arith, all_below, all_below_sound, length, take, drop, take-append,
  drop-append, All-append, length-append, ◌⊎◌, ap, inl, inr,
}
use concrnt.Prelude.Int.{ℤ, pos, negsuc}
use concrnt.Prelude.Outcome.{ok}
use concrnt.Cdid.{
  Cdid, Kind, time_kind, hash_kind, new, clamp, unix_milli, time_bytes, from_time_bytes, get_time,
  to_bytes, to_string, parse, zero_hash, zero_time, zero_bytes, is_cdid_char,
}
use concrnt.Cdid.Base32.{encode, digit, quintets, undigit}
use concrnt.Cdid.Base32.RoundTrip.{IsByte, decode-encode}

-- The value is a well-formed `CDID`: its arrays hold bytes, are of the declared sizes, and those
-- that its kind does not use are zero.
pub record IsValid (c : Cdid) : Type 0 where
  pub time_size : length c.time ≡ 6
  pub bytes_size : length c.bytes ≡ 10
  pub hash_size : length c.hash ≡ 15
  pub time_bytes : All IsByte c.time
  pub bytes_bytes : All IsByte c.bytes
  pub hash_bytes : All IsByte c.hash
  pub unused_hash : c.kind ≡ time_kind → c.hash ≡ zero_hash
  pub unused_time : c.kind ≡ hash_kind → (c.time ≡ zero_time) × (c.bytes ≡ zero_bytes)

abbrev same : Bool → Bool → Bool
same true b = b
same false b = not b

abbrev pub is_in_alphabet : Option ℕ → Bool
is_in_alphabet none = false
is_in_alphabet (some q) = true

-- The six bytes of a 48-bit number read back to it.
pub from_time_bytes-time_bytes : (m : ℕ) → m < 2 ^ 48 → from_time_bytes (time_bytes m) ≡ m
unfolding from_time_bytes time_bytes
from_time_bytes-time_bytes m h = omega arith

pub clamp-lt : (t : ℤ) → clamp t < 2 ^ 48
unfolding clamp
clamp-lt (pos n) = ground arith
clamp-lt (negsuc n) = omega arith

-- The time of a new id is the given instant, to the millisecond and clamped to the 48-bit range.
pub get_time-new :
    (bytes : List ℕ) (t : ℤ) → get_time (new bytes t) ≡ pos (clamp (unix_milli t) * 1000000)
unfolding get_time new
get_time-new bytes t =
    rw (from_time_bytes-time_bytes (clamp (unix_milli t)) (clamp-lt (unix_milli t)))
      (ap pos (omega arith))

clamp_mono : (m n : ℕ) → m ≤ n → clamp (pos m) ≤ clamp (pos n)
unfolding clamp
clamp_mono m n h = ground arith

quintets-head : (a : ℕ) (bs : List ℕ) → (qs : List ℕ) × (quintets (a ∷ bs) ≡ (a / 8) ∷ qs)
unfolding quintets
quintets-head a [] = (_, refl)
quintets-head a (b ∷ []) = (_, refl)
quintets-head a (b ∷ c ∷ []) = (_, refl)
quintets-head a (b ∷ c ∷ d ∷ []) = (_, refl)
quintets-head a (b ∷ c ∷ d ∷ e ∷ rest) = (_, refl)

digit_table : all_below 32 (λ q. not (digit q == b'x')) ≡ true
unfolding all_below digit
digit_table = refl

-- The text of bytes begins with a character of the alphabet, so never with an `x`.
encode-head :
    (a : ℕ) (bs : List ℕ)
    → IsByte a
    → (c : ℕ) × (s : List ℕ) × (encode (a ∷ bs) ≡ c ∷ s) × ((c == b'x') ≡ false)
unfolding encode
encode-head a bs h =
    let (qs, e) = quintets-head a bs in (digit (a / 8), map digit qs, ap (map digit) e, not_x)
  where
    not_x : (digit (a / 8) == b'x') ≡ false
    not_x = ground (arith, all_below_sound 32 _ digit_table (a / 8) (omega arith))

parse-time :
    (a : ℕ) (bs : List ℕ)
    → All IsByte (a ∷ bs)
    → length (a ∷ bs) ≡ 16
    → parse (encode (a ∷ bs))
      ≡ ok (record {
        kind = time_kind;
        time = take 6 (a ∷ bs);
        bytes = drop 6 (a ∷ bs);
        hash = zero_hash;
      })
unfolding parse
parse-time a bs h n =
    let (c, s, e, not_x) = encode-head a bs h.0 in
    let d = decode-encode (a ∷ bs) h in rw e (rw not_x (rw (← e) (rw d (rw n))))

parse-hash :
    (hash : List ℕ)
    → All IsByte hash
    → length hash ≡ 15
    → parse (b'x' ∷ encode hash)
      ≡ ok (record { kind = hash_kind; time = zero_time; bytes = zero_bytes; hash = hash })
unfolding parse
parse-hash hash h n = rw (decode-encode hash h) (rw n)

take_of_length : (t b : List ℕ) → length t ≡ 6 → take 6 (t ++ b) ≡ t
take_of_length t b n = rw n at (take-append t b)

drop_of_length : (t b : List ℕ) → length t ≡ 6 → drop 6 (t ++ b) ≡ b
drop_of_length t b n = rw n at (drop-append t b)

parse-encode_append :
    (t b : List ℕ)
    → length t ≡ 6
    → length b ≡ 10
    → All IsByte t
    → All IsByte b
    → parse (encode (t ++ b))
      ≡ ok (record { kind = time_kind; time = t; bytes = b; hash = zero_hash })
parse-encode_append [] b n m ht hb = absurd (omega arith)
parse-encode_append (a ∷ t) b n m ht hb =
    parse-time a (t ++ b) (All-append IsByte (a ∷ t) b ht hb)
      (omega (arith, length-append (a ∷ t) b))
    ∙ (λ i. ok (record {
      kind = time_kind;
      time = take_of_length (a ∷ t) b n i;
      bytes = drop_of_length (a ∷ t) b n i;
      hash = zero_hash;
    }))

Kind-cases : (k : Kind) → (k ≡ time_kind) ⊎ (k ≡ hash_kind)
Kind-cases time_kind = inl refl
Kind-cases hash_kind = inr refl

to_string-time : (c : Cdid) → c.kind ≡ time_kind → to_string c ≡ encode (c.time ++ c.bytes)
unfolding to_string to_bytes
to_string-time c e = rw (e, to_string) (rw (e, to_bytes))

to_string-hash : (c : Cdid) → c.kind ≡ hash_kind → to_string c ≡ b'x' ∷ encode c.hash
unfolding to_string
to_string-hash c e = rw (e, to_string)

-- Parsing the text of a well-formed id gives the id back, of either kind.
pub parse-to_string : (c : Cdid) → IsValid c → parse (to_string c) ≡ ok c
parse-to_string c v = elim (Kind-cases c.kind) [
  | inl e ↦ rw (to_string-time c e) (
      parse-encode_append c.time c.bytes v.time_size v.bytes_size v.time_bytes v.bytes_bytes
      ∙ cc (e, v.unused_hash e))
  | inr e ↦ rw (to_string-hash c e) (
      parse-hash c.hash v.hash_bytes v.hash_size ∙ cc (e, (v.unused_time e).0, (v.unused_time e).1))
]

-- A new id made with ten bytes is well formed.
pub new-IsValid :
    (bytes : List ℕ) (t : ℤ) → length bytes ≡ 10 → All IsByte bytes → IsValid (new bytes t)
unfolding new
new-IsValid bytes t n h = record {
  time_size = refl;
  bytes_size = n;
  hash_size = refl;
  time_bytes = omega arith;
  bytes_bytes = h;
  hash_bytes = omega arith;
  unused_hash = λ e. refl;
  unused_time = λ e. cc;
}

char_table : all_below 256 (λ c. same (is_cdid_char c) (is_in_alphabet (undigit c))) ≡ true
unfolding all_below is_cdid_char undigit
char_table = refl

-- IsCDIDChar accepts a byte exactly if the encoding's alphabet has it.
pub is_cdid_char_lem : (c : ℕ) → IsByte c → is_cdid_char c ≡ is_in_alphabet (undigit c)
is_cdid_char_lem c h = ground (arith, all_below_sound 256 _ char_table c h)
