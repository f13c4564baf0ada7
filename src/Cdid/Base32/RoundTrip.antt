-- ===== src/Cdid/Base32/RoundTrip.antt =====
-- cdid/cdid.go: the text of bytes decodes to the bytes.
use concrnt.Prelude.{
  ℕ, ◌+◌, ◌*◌, ◌/◌, ◌%◌, ◌<◌, ◌≡◌, refl, Bool, true, false, not, ◌&&◌, List, [], ◌∷◌, Option, none,
  some, map, ◌==◌, All, arith, all_below, all_below_sound, ap,
}
use concrnt.Cdid.Base32.{
  digit, undigit, quintets, unquintets, encode, decode, undigits, strip_newlines,
}

abbrev pub IsByte : ℕ → Type 0
IsByte n = n < 256

abbrev pub IsQuintet : ℕ → Type 0
IsQuintet n = n < 32

pub quintets-IsQuintet : (bs : List ℕ) → All IsByte bs → All IsQuintet (quintets bs)
unfolding quintets
quintets-IsQuintet [] h = tt
quintets-IsQuintet (a ∷ []) h = omega arith
quintets-IsQuintet (a ∷ b ∷ []) h = omega arith
quintets-IsQuintet (a ∷ b ∷ c ∷ []) h = omega arith
quintets-IsQuintet (a ∷ b ∷ c ∷ d ∷ []) h = omega arith
quintets-IsQuintet (a ∷ b ∷ c ∷ d ∷ e ∷ rest) (ha, (hb, (hc, (hd, (he, h))))) =
    let below = quintets-IsQuintet rest h in
    (
      omega arith,
      (
        omega arith,
        (
          omega arith,
          (omega arith, (omega arith, (omega arith, (omega arith, (omega arith, below))))),
        ),
      ),
    )

module _ (a b c d e : ℕ) where
  first_byte : a < 256 → b < 256 → (a / 8 * 8 + (a % 8 * 4 + b / 64) / 4) % 256 ≡ a
  first_byte ha hb = omega arith

  second_byte :
      b < 256
      → c < 256
      → ((a % 8 * 4 + b / 64) * 64 + b / 2 % 32 * 2 + (b % 2 * 16 + c / 16) / 16) % 256 ≡ b
  second_byte hb hc = omega arith

  third_byte :
      c < 256 → d < 256 → ((b % 2 * 16 + c / 16) * 16 + (c % 16 * 2 + d / 128) / 2) % 256 ≡ c
  third_byte hc hd = omega arith

  fourth_byte :
      d < 256
      → e < 256
      → ((c % 16 * 2 + d / 128) * 128 + d / 4 % 32 * 4 + (d % 4 * 8 + e / 32) / 8) % 256 ≡ d
  fourth_byte hd he = omega arith

  fifth_byte : e < 256 → ((d % 4 * 8 + e / 32) * 32 + e % 32) % 256 ≡ e
  fifth_byte he = omega arith

last_of_one : (a : ℕ) → a < 256 → (a / 8 * 8 + a % 8 * 4 / 4) % 256 ≡ a
last_of_one a ha = omega arith

last_of_two :
    (a b : ℕ) → b < 256 → ((a % 8 * 4 + b / 64) * 64 + b / 2 % 32 * 2 + b % 2 * 16 / 16) % 256 ≡ b
last_of_two a b hb = omega arith

last_of_three : (b c : ℕ) → c < 256 → ((b % 2 * 16 + c / 16) * 16 + c % 16 * 2 / 2) % 256 ≡ c
last_of_three b c hc = omega arith

last_of_four :
    (c d : ℕ) → d < 256 → ((c % 16 * 2 + d / 128) * 128 + d / 4 % 32 * 4 + d % 4 * 8 / 8) % 256 ≡ d
last_of_four c d hd = omega arith

unquintets-quintets : (bs : List ℕ) → All IsByte bs → unquintets (quintets bs) ≡ bs
unfolding quintets unquintets
unquintets-quintets [] h = refl
unquintets-quintets (a ∷ []) h = rw (last_of_one a h.0)
unquintets-quintets (a ∷ b ∷ []) (ha, (hb, _)) = rw (first_byte a b 0 0 0 ha hb, last_of_two a b hb)
unquintets-quintets (a ∷ b ∷ c ∷ []) (ha, (hb, (hc, _))) =
    rw (first_byte a b c 0 0 ha hb, second_byte a b c 0 0 hb hc, last_of_three b c hc)
unquintets-quintets (a ∷ b ∷ c ∷ d ∷ []) (ha, (hb, (hc, (hd, _)))) = rw (
  first_byte a b c d 0 ha hb,
  second_byte a b c d 0 hb hc,
  third_byte a b c d 0 hc hd,
  last_of_four c d hd,
)
unquintets-quintets (a ∷ b ∷ c ∷ d ∷ e ∷ rest) (ha, (hb, (hc, (hd, (he, h))))) = rw (
  first_byte a b c d e ha hb,
  second_byte a b c d e hb hc,
  third_byte a b c d e hc hd,
  fourth_byte a b c d e hd he,
  fifth_byte a b c d e he,
  unquintets-quintets rest h,
)

is_some_of : ℕ → Option ℕ → Bool
is_some_of q none = false
is_some_of q (some r) = q == r

undigit_table : all_below 32 (λ q. is_some_of q (undigit (digit q))) ≡ true
unfolding all_below undigit digit is_some_of
undigit_table = refl

newline_table : all_below 32 (λ q. not (digit q == 10) && not (digit q == 13)) ≡ true
unfolding all_below digit
newline_table = refl

undigit-digit : (q : ℕ) → IsQuintet q → undigit (digit q) ≡ some q
unfolding is_some_of
undigit-digit q h = some_of (undigit (digit q)) (all_below_sound 32 _ undigit_table q h)
  where
    some_of : (o : Option ℕ) → is_some_of q o ≡ true → o ≡ some q
    some_of none p = cc
    some_of (some r) p = ground arith

undigits-map-digit : (qs : List ℕ) → All IsQuintet qs → undigits (map digit qs) ≡ some qs
unfolding undigits
undigits-map-digit [] h = refl
undigits-map-digit (q ∷ qs) h =
    rw (undigit-digit q h.0, undigits) (rw (undigits-map-digit qs h.1, undigits))

no_newline : (q : ℕ) → IsQuintet q → (not (digit q == 10) && not (digit q == 13)) ≡ true
no_newline q h = all_below_sound 32 _ newline_table q h

strip_newlines-map-digit :
    (qs : List ℕ) → All IsQuintet qs → strip_newlines (map digit qs) ≡ map digit qs
unfolding strip_newlines
strip_newlines-map-digit [] h = refl
strip_newlines-map-digit (q ∷ qs) h =
    ground (arith, no_newline q h.0, strip_newlines-map-digit qs h.1)

-- The text of any bytes decodes to those bytes, whatever their number.
pub decode-encode : (bs : List ℕ) → All IsByte bs → decode (encode bs) ≡ some bs
unfolding decode encode
decode-encode bs h =
    let k = quintets-IsQuintet bs h in
    rw (strip_newlines-map-digit (quintets bs) k, decode)
      (rw (undigits-map-digit (quintets bs) k, decode) (ap some (unquintets-quintets bs h)))
