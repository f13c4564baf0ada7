-- ===== src/Cdid.antt =====
-- cdid/cdid.go: content ids. A byte is a number below 256, and a text is the list of its bytes.
-- An instant is an integer of nanoseconds from the unix epoch.
pub mod Base32
pub mod Ids
pub mod Order
use concrnt.Prelude.{
  ℕ, ◌+◌, ◌-◌, ◌*◌, ◌/◌, ◌%◌, ◌^◌, Bool, true, false, not, ◌&&◌, ◌||◌, List, [], ◌∷◌, ◌++◌, Option,
  none, some, leb, ltb, ◌==◌, if◌then◌else◌, length, take, drop,
}
use concrnt.Prelude.Int.{ℤ, pos, negsuc}
use concrnt.Prelude.Outcome.{Outcome, ok, err, panic}
use Base32.{encode, decode}

pub data Kind : Type 0 where
  time_kind hash_kind : Kind

-- `CDID`: arrays of 6, 10 and 15 bytes
pub record Cdid : Type 0 where
  pub kind : Kind
  pub time : List ℕ
  pub bytes : List ℕ
  pub hash : List ℕ

abbrev pub zero_hash : List ℕ
zero_hash = 0 ∷ 0 ∷ 0 ∷ 0 ∷ 0 ∷ 0 ∷ 0 ∷ 0 ∷ 0 ∷ 0 ∷ 0 ∷ 0 ∷ 0 ∷ 0 ∷ 0 ∷ []

abbrev pub zero_time : List ℕ
zero_time = 0 ∷ 0 ∷ 0 ∷ 0 ∷ 0 ∷ 0 ∷ []

abbrev pub zero_bytes : List ℕ
zero_bytes = 0 ∷ 0 ∷ 0 ∷ 0 ∷ 0 ∷ 0 ∷ 0 ∷ 0 ∷ 0 ∷ 0 ∷ []

-- `CDID{}`
abbrev pub zero_cdid : Cdid
zero_cdid = record { kind = time_kind; time = zero_time; bytes = zero_bytes; hash = zero_hash }

-- `t.UnixMilli()`, rounded down
abbrev pub unix_milli : ℤ → ℤ
unix_milli (pos n) = pos (n / 1000000)
unix_milli (negsuc n) = negsuc (n / 1000000)

-- `min(max(m, 0), 1<<48-1)`
unfoldable pub clamp : ℤ → ℕ
clamp (pos n) = if ltb n (2 ^ 48) then n else 2 ^ 48 - 1
clamp (negsuc n) = 0

-- the six assignments of setTime, each conversion to `byte` a remainder
unfoldable pub time_bytes : ℕ → List ℕ
time_bytes m =
    (m / 2 ^ 40 % 256)
    ∷ (m / 2 ^ 32 % 256)
    ∷ (m / 2 ^ 24 % 256)
    ∷ (m / 2 ^ 16 % 256)
    ∷ (m / 2 ^ 8 % 256)
    ∷ (m % 256)
    ∷ []

-- New
unfoldable pub new : List ℕ → ℤ → Cdid
unfolding time_bytes clamp
new bytes t = record {
  kind = time_kind;
  time = time_bytes (clamp (unix_milli t));
  bytes = bytes;
  hash = zero_hash;
}

-- NewFromHash
unfoldable pub new_from_hash : List ℕ → Cdid
new_from_hash hash = record { kind = hash_kind; time = zero_time; bytes = zero_bytes; hash = hash }

-- MakeHash, over the digest
unfoldable pub make_hash : (List ℕ → List ℕ) → List ℕ → Cdid
unfolding new_from_hash
make_hash keccak b = new_from_hash (take 15 (keccak b))

-- the value of six bytes; the shifted bytes do not overlap, so `|` is `+`
unfoldable pub from_time_bytes : List ℕ → ℕ
from_time_bytes (a ∷ b ∷ c ∷ d ∷ e ∷ f ∷ _) =
    a * 2 ^ 40 + b * 2 ^ 32 + c * 2 ^ 24 + d * 2 ^ 16 + e * 2 ^ 8 + f
from_time_bytes _ = 0

-- GetTime; the zero `time.Time` is the first instant of the year 1
unfoldable pub get_time : Cdid → ℤ
unfolding from_time_bytes
get_time c = elim c.kind [
  | hash_kind ↦ negsuc (62135596800 * 1000000000 - 1)
  | time_kind ↦ (let m = from_time_bytes c.time in pos (m / 1000 * 1000000000 + m % 1000 * 1000000))
]

-- Bytes
unfoldable pub to_bytes : Cdid → List ℕ
to_bytes c = elim c.kind [ hash_kind ↦ c.hash | time_kind ↦ c.time ++ c.bytes ]

-- String
unfoldable pub to_string : Cdid → List ℕ
unfolding encode to_bytes
to_string c = elim c.kind [ hash_kind ↦ b'x' ∷ encode c.hash | time_kind ↦ encode (to_bytes c) ]

pub data ParseError : Type 0 where
  corrupt_input : ParseError

hash_cdid : Option (List ℕ) → Outcome ParseError Cdid
hash_cdid none = err corrupt_input
hash_cdid (some b) =
    if not (length b == 15)
    then ok zero_cdid
    else ok (record { kind = hash_kind; time = zero_time; bytes = zero_bytes; hash = b })

time_cdid : Option (List ℕ) → Outcome ParseError Cdid
time_cdid none = err corrupt_input
time_cdid (some b) =
    if not (length b == 16)
    then ok zero_cdid
    else ok (record { kind = time_kind; time = take 6 b; bytes = drop 6 b; hash = zero_hash })

-- Parse: `s[0]` panics on the empty text
unfoldable pub parse : List ℕ → Outcome ParseError Cdid
unfolding decode hash_cdid time_cdid
parse [] = panic
parse (c ∷ s) = if c == b'x' then hash_cdid (decode s) else time_cdid (decode (c ∷ s))

-- IsHashCDID, IsTimeCDID
unfoldable pub is_hash_cdid : List ℕ → Bool
is_hash_cdid [] = false
is_hash_cdid (c ∷ s) = c == b'x'

unfoldable pub is_time_cdid : List ℕ → Bool
is_time_cdid [] = false
is_time_cdid (c ∷ s) = not (c == b'x')

-- IsCDIDChar
unfoldable pub is_cdid_char : ℕ → Bool
is_cdid_char c =
    ((leb b'0' c && leb c b'9') || (leb b'a' c && leb c b'z'))
    && not (c == b'i')
    && not (c == b'l')
    && not (c == b'o')
    && not (c == b'x')
