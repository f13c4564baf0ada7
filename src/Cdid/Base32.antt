-- ===== src/Cdid/Base32.antt =====
-- cdid/cdid.go: the base-32 text of bytes, as `encoder` and `decoder` (encoding/base32 without
-- padding) write and read it over the alphabet of the ids.
pub mod RoundTrip
use concrnt.Prelude.{
  ℕ, suc, ◌+◌, ◌*◌, ◌/◌, ◌%◌, Bool, true, false, ◌||◌, List, [], ◌∷◌, ◌++◌, Option, none, some, map,
  ◌==◌, if◌then◌else◌,
}
use concrnt.Prelude.Text.{codes}

-- `encoding`
abbrev pub alphabet : List ℕ
alphabet = codes "0123456789abcdefghjkmnpqrstuvwyz"

abbrev pub nth : List ℕ → ℕ → ℕ
nth [] i = 0
nth (x ∷ xs) i = elim i [ Prim.Native.Nat.zero ↦ x | suc j ↦ nth xs j ]

unfoldable pub digit : ℕ → ℕ
digit q = nth alphabet q

-- the five-bit groups of bytes, big end first
unfoldable pub quintets : List ℕ → List ℕ
quintets [] = []
quintets (a ∷ []) = (a / 8) ∷ (a % 8 * 4) ∷ []
quintets (a ∷ b ∷ []) = (a / 8) ∷ (a % 8 * 4 + b / 64) ∷ (b / 2 % 32) ∷ (b % 2 * 16) ∷ []
quintets (a ∷ b ∷ c ∷ []) =
    (a / 8) ∷ (a % 8 * 4 + b / 64) ∷ (b / 2 % 32) ∷ (b % 2 * 16 + c / 16) ∷ (c % 16 * 2) ∷ []
quintets (a ∷ b ∷ c ∷ d ∷ []) =
    (a / 8)
    ∷ (a % 8 * 4 + b / 64)
    ∷ (b / 2 % 32)
    ∷ (b % 2 * 16 + c / 16)
    ∷ (c % 16 * 2 + d / 128)
    ∷ (d / 4 % 32)
    ∷ (d % 4 * 8)
    ∷ []
quintets (a ∷ b ∷ c ∷ d ∷ e ∷ rest) =
    (a / 8)
    ∷ (a % 8 * 4 + b / 64)
    ∷ (b / 2 % 32)
    ∷ (b % 2 * 16 + c / 16)
    ∷ (c % 16 * 2 + d / 128)
    ∷ (d / 4 % 32)
    ∷ (d % 4 * 8 + e / 32)
    ∷ (e % 32)
    ∷ quintets rest

-- `encoder.EncodeToString`
unfoldable pub encode : List ℕ → List ℕ
unfolding quintets digit
encode bs = map digit (quintets bs)

find_from : List ℕ → ℕ → ℕ → Option ℕ
find_from [] i c = none
find_from (x ∷ xs) i c = if x == c then some i else find_from xs (i + 1) c

-- the value of a character
unfoldable pub undigit : ℕ → Option ℕ
unfolding find_from
undigit c = find_from alphabet 0 c

-- stripNewlines
unfoldable pub strip_newlines : List ℕ → List ℕ
strip_newlines [] = []
strip_newlines (c ∷ s) = if c == 10 || c == 13 then strip_newlines s else c ∷ strip_newlines s

unfoldable pub undigits : List ℕ → Option (List ℕ)
unfolding undigit
undigits [] = some []
undigits (c ∷ s) = elim (undigit c) [
  | none ↦ none
  | some q ↦ elim (undigits s) [ none ↦ none | some qs ↦ some (q ∷ qs) ]
]

-- the bytes of the groups; a last block of 1, 3 or 6 characters writes nothing, and bits that are
-- left over are dropped without a test
unfoldable pub unquintets : List ℕ → List ℕ
unquintets (p ∷ q ∷ []) = ((p * 8 + q / 4) % 256) ∷ []
unquintets (p ∷ q ∷ r ∷ s ∷ []) = ((p * 8 + q / 4) % 256) ∷ ((q * 64 + r * 2 + s / 16) % 256) ∷ []
unquintets (p ∷ q ∷ r ∷ s ∷ t ∷ []) =
    ((p * 8 + q / 4) % 256) ∷ ((q * 64 + r * 2 + s / 16) % 256) ∷ ((s * 16 + t / 2) % 256) ∷ []
unquintets (p ∷ q ∷ r ∷ s ∷ t ∷ u ∷ v ∷ []) =
    ((p * 8 + q / 4) % 256)
    ∷ ((q * 64 + r * 2 + s / 16) % 256)
    ∷ ((s * 16 + t / 2) % 256)
    ∷ ((t * 128 + u * 4 + v / 8) % 256)
    ∷ []
unquintets (p ∷ q ∷ r ∷ s ∷ t ∷ u ∷ v ∷ w ∷ rest) =
    ((p * 8 + q / 4) % 256)
    ∷ ((q * 64 + r * 2 + s / 16) % 256)
    ∷ ((s * 16 + t / 2) % 256)
    ∷ ((t * 128 + u * 4 + v / 8) % 256)
    ∷ ((v * 32 + w) % 256)
    ∷ unquintets rest
unquintets _ = []

-- `decoder.DecodeString`
unfoldable pub decode : List ℕ → Option (List ℕ)
unfolding strip_newlines undigits unquintets
decode s = elim (undigits (strip_newlines s)) [ none ↦ none | some qs ↦ some (unquintets qs) ]
