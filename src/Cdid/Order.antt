-- ===== src/Cdid/Order.antt =====
-- cdid/cdid.go: the order of the texts of ids follows the order of their times, as the comment of
-- setTime asks.
use concrnt.Prelude.{
  ℕ, ◌+◌, ◌*◌, ◌/◌, ◌%◌, ◌^◌, ◌≤◌, ◌<◌, ◌≡◌, ◌∙◌, refl, true, not, ◌||◌, List, [], ◌∷◌, ◌++◌, map,
  ltb, All, arith, all_below, all_below_sound, length, All-append, ◌⊎◌, inl, inr, ap,
}
use mathlib.Core.Path.{subst}
use native.Mathlib.Decide.{dec_lt, ℕ_discrete}
use concrnt.Prelude.Int.{ℤ}
use concrnt.Cdid.{new, clamp, unix_milli, time_bytes, from_time_bytes, to_string}
use concrnt.Cdid.Base32.{encode, digit, quintets}
use concrnt.Cdid.Base32.RoundTrip.{IsByte, IsQuintet, quintets-IsQuintet}
use concrnt.Cdid.Ids.{from_time_bytes-time_bytes, clamp-lt}

-- Go's `s < t` on texts.
abbrev pub Precedes : List ℕ → List ℕ → Type 0
Precedes [] [] = ⊥
Precedes [] (y ∷ ys) = Unit
Precedes (x ∷ xs) [] = ⊥
Precedes (x ∷ xs) (y ∷ ys) = (x < y) ⊎ ((x ≡ y) × Precedes xs ys)

-- The number that digits to the base 32 stand for, and the least that one digit more would be.
weight : List ℕ → ℕ
weight [] = 1
weight (x ∷ xs) = 32 * weight xs

value : List ℕ → ℕ
value [] = 0
value (x ∷ xs) = x * weight xs + value xs

below_next : (x w v : ℕ) → x < 32 → v < w → x * w + v < 32 * w
below_next x w v h k = grind arith

value-lt : (xs : List ℕ) → All IsQuintet xs → value xs < weight xs
unfolding value weight
value-lt [] h = omega arith
value-lt (x ∷ xs) h = below_next x (weight xs) (value xs) h.0 (value-lt xs h.1)

weight_eq : (xs ys : List ℕ) → length xs ≡ length ys → weight xs ≡ weight ys
unfolding weight
weight_eq [] [] n = refl
weight_eq [] (y ∷ ys) n = absurd (omega arith)
weight_eq (x ∷ xs) [] n = absurd (omega arith)
weight_eq (x ∷ xs) (y ∷ ys) n = omega (arith, weight_eq xs ys (omega arith))

-- A larger leading digit outweighs what follows.
leading : (x y w v u : ℕ) → x * w + v < y * w + u → u < w → x ≤ y
leading x y w v u h k = elim (dec_lt y x) [
  | yes more ↦ absurd (grind arith)
  | no less ↦ omega arith
]

value-Precedes :
    (xs ys r s : List ℕ)
    → length xs ≡ length ys
    → All IsQuintet xs
    → All IsQuintet ys
    → value xs < value ys
    → Precedes (xs ++ r) (ys ++ s)
unfolding value
value-Precedes [] [] r s n hx hy h = absurd (omega arith)
value-Precedes [] (y ∷ ys) r s n hx hy h = absurd (omega arith)
value-Precedes (x ∷ xs) [] r s n hx hy h = absurd (omega arith)
value-Precedes (x ∷ xs) (y ∷ ys) r s n hx hy h =
    let w : weight xs ≡ weight ys = weight_eq xs ys (omega arith) in
    let h' : x * weight ys + value xs < y * weight ys + value ys =
      subst (λ k. x * k + value xs < y * weight ys + value ys) w h in
    let le : x ≤ y = leading x y (weight ys) (value xs) (value ys) h' (value-lt ys hy.1) in
    elim (ℕ_discrete x y) [
      | yes e ↦ inr (e, value-Precedes xs ys r s (omega arith) hx.1 hy.1 (rest e h'))
      | no ne ↦ inl (omega arith)
    ]
  where
    rest : x ≡ y → x * weight ys + value xs < y * weight ys + value ys → value xs < value ys
    rest e k = let k' = rw e at k in omega arith

digit_order :
    all_below 32 (λ q. all_below 32 (λ r. not (ltb q r) || ltb (digit q) (digit r))) ≡ true
unfolding all_below digit
digit_order = refl

digit_mono : (q r : ℕ) → IsQuintet q → IsQuintet r → q < r → digit q < digit r
digit_mono q r hq hr lt =
    let row = all_below_sound 32 _ digit_order q hq in
    let cell = all_below_sound 32 _ row r hr in ground arith

map-digit-Precedes :
    (xs ys : List ℕ)
    → All IsQuintet xs
    → All IsQuintet ys
    → Precedes xs ys
    → Precedes (map digit xs) (map digit ys)
map-digit-Precedes [] [] hx hy h = h
map-digit-Precedes [] (y ∷ ys) hx hy h = tt
map-digit-Precedes (x ∷ xs) [] hx hy h = h
map-digit-Precedes (x ∷ xs) (y ∷ ys) hx hy (inl lt) = inl (digit_mono x y hx.0 hy.0 lt)
map-digit-Precedes (x ∷ xs) (y ∷ ys) hx hy (inr (e, h)) =
    inr (ap digit e, map-digit-Precedes xs ys hx.1 hy.1 h)

-- The first ten digits of an id are its time and two bits of its data.
time_digits : List ℕ → ℕ → List ℕ
time_digits (a ∷ b ∷ c ∷ d ∷ e ∷ f ∷ _) g =
    (a / 8)
    ∷ (a % 8 * 4 + b / 64)
    ∷ (b / 2 % 32)
    ∷ (b % 2 * 16 + c / 16)
    ∷ (c % 16 * 2 + d / 128)
    ∷ (d / 4 % 32)
    ∷ (d % 4 * 8 + e / 32)
    ∷ (e % 32)
    ∷ (f / 8)
    ∷ (f % 8 * 4 + g / 64)
    ∷ []
time_digits _ g = []

quintets-time_bytes :
    (m g : ℕ) (rest : List ℕ)
    → length rest ≡ 9
    → (r : List ℕ) × (quintets (time_bytes m ++ g ∷ rest) ≡ time_digits (time_bytes m) g ++ r)
unfolding quintets time_bytes time_digits
quintets-time_bytes m g (h ∷ i ∷ j ∷ rest) n = (_, refl)
quintets-time_bytes m g (h ∷ i ∷ []) n = absurd (omega arith)
quintets-time_bytes m g (h ∷ []) n = absurd (omega arith)
quintets-time_bytes m g [] n = absurd (omega arith)

value-digits :
    (a b c d e f g : ℕ)
    → All IsByte (a ∷ b ∷ c ∷ d ∷ e ∷ f ∷ g ∷ [])
    → value (time_digits (a ∷ b ∷ c ∷ d ∷ e ∷ f ∷ []) g)
      ≡ 4 * from_time_bytes (a ∷ b ∷ c ∷ d ∷ e ∷ f ∷ []) + g / 64
unfolding value weight time_digits from_time_bytes
value-digits a b c d e f g h = omega arith

value-time_digits :
    (m g : ℕ) → m < 2 ^ 48 → IsByte g → value (time_digits (time_bytes m) g) ≡ 4 * m + g / 64
unfolding time_bytes
value-time_digits m g h k =
    value-digits _ _ _ _ _ _ g (omega arith)
    ∙ ap (λ t. 4 * t + g / 64) (from_time_bytes-time_bytes m h)

All-prefix : (xs r : List ℕ) → All IsQuintet (xs ++ r) → All IsQuintet xs
All-prefix [] r h = tt
All-prefix (x ∷ xs) r h = (h.0, All-prefix xs r h.1)

time_bytes-IsByte : (m : ℕ) → All IsByte (time_bytes m)
unfolding time_bytes
time_bytes-IsByte m = omega arith

length-time_digits : (m g : ℕ) → length (time_digits (time_bytes m) g) ≡ 10
unfolding time_digits time_bytes
length-time_digits m g = refl

before : {m n : ℕ} (g h : ℕ) → m < n → g < 4 → 4 * m + g < 4 * n + h
before g h lt k = omega arith

encode-Precedes :
    (m n g h : ℕ) (b c : List ℕ)
    → length b ≡ 9
    → length c ≡ 9
    → All IsByte (g ∷ b)
    → All IsByte (h ∷ c)
    → m < n
    → n < 2 ^ 48
    → Precedes (encode (time_bytes m ++ g ∷ b)) (encode (time_bytes n ++ h ∷ c))
unfolding encode
encode-Precedes m n g h b c lb lc hb hc lt bound =
    let (r, e) = quintets-time_bytes m g b lb in
    let (s, f) = quintets-time_bytes n h c lc in
    let qx =
      quintets-IsQuintet _ (All-append IsByte (time_bytes m) (g ∷ b) (time_bytes-IsByte m) hb) in
    let qy =
      quintets-IsQuintet _ (All-append IsByte (time_bytes n) (h ∷ c) (time_bytes-IsByte n) hc) in
    let px = subst (All IsQuintet) e qx in
    let py = subst (All IsQuintet) f qy in
    map-digit-Precedes _ _ qx qy (
      rw (e, f)
        (value-Precedes _ _ r s (omega (arith, length-time_digits m g, length-time_digits n h))
          (All-prefix _ r px) (All-prefix _ s py)
          (rw (value-time_digits m g (omega arith) hb.0, value-time_digits n h bound hc.0)
            (before (g / 64) (h / 64) lt (omega (arith, hb.0))))))

-- Of two new ids made with ten bytes each, whose clamped millisecond times differ, the earlier
-- one's text is the smaller.
pub to_string-Precedes :
    (b c : List ℕ) (s t : ℤ)
    → length b ≡ 10
    → length c ≡ 10
    → All IsByte b
    → All IsByte c
    → clamp (unix_milli s) < clamp (unix_milli t)
    → Precedes (to_string (new b s)) (to_string (new c t))
unfolding to_string new
to_string-Precedes [] c s t lb lc hb hc lt = absurd (omega arith)
to_string-Precedes (g ∷ b) [] s t lb lc hb hc lt = absurd (omega arith)
to_string-Precedes (g ∷ b) (h ∷ c) s t lb lc hb hc lt =
    encode-Precedes (clamp (unix_milli s)) (clamp (unix_milli t)) g h b c (omega arith)
      (omega arith) hb hc lt (clamp-lt (unix_milli t))
