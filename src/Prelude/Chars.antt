-- ===== src/Prelude/Chars.antt =====
-- Texts from the codes of their characters.
use Prim.Native.Nat.{ℕ, compare, Ordering}
use Prim.Native.Char.{Char, char, nul, IsScalar}
use Prim.Native.String.{String}
use mathlib.Core.Path.{◌≡◌, refl}
use mathlib.Core.List.{List, [], ◌∷◌}

scalar : (n : ℕ) → compare n 55296 ≡ Ordering.lt → IsScalar n
scalar n h = rw h tt

order_char : (n : ℕ) (o : Ordering) → compare n 55296 ≡ o → Char
order_char n Ordering.lt h = char n (scalar n h)
order_char n _ h = nul

-- The character with a code below the surrogates.
unfoldable pub char_of : ℕ → Char
unfolding order_char scalar
char_of n = order_char n (compare n 55296) refl

unfoldable pub text_of_codes : List ℕ → String
unfolding char_of
text_of_codes [] = ""
text_of_codes (c ∷ cs) = String.◌∷◌ (char_of c) (text_of_codes cs)

text_runs : text_of_codes (97 ∷ 98 ∷ []) ≡ "ab"
unfolding text_of_codes
text_runs = refl
