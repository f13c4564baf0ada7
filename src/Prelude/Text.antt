-- ===== src/Prelude/Text.antt =====
-- Texts, as the program uses Go's `strings`: split, prefix, suffix, concatenation, membership.
use Prim.Native.Nat.{ℕ}
use Prim.Native.Char.{Char, code}
use Prim.Native.String.{String}
use Prim.Native.String
use mathlib.Core.Path.{◌≡◌, refl}
use mathlib.Core.Bool.{Bool, true, false, ◌&&◌, ◌||◌}
use mathlib.Core.List.{List, [], ◌∷◌}
use text.Mathlib.Text.{starts_with}
use concrnt.Prelude.Tests.{◌==◌, if◌then◌else◌, str_eq}

-- The code points of a text: its bytes, if it is ASCII.
abbrev pub codes : String → List ℕ
codes String.[] = []
codes (String.◌∷◌ c s) = code c ∷ codes s

-- Go's `s + t`.
abbrev pub concat : String → String → String
concat s t = String.◌++◌ s t

push_first : Char → List String → List String
push_first c [] = String.◌∷◌ c String.[] ∷ []
push_first c (w ∷ ws) = String.◌∷◌ c w ∷ ws

-- `strings.Split(s, sep)` for a separator of one character, given by its code.
unfoldable pub split : ℕ → String → List String
unfolding push_first
split sep String.[] = "" ∷ []
split sep (String.◌∷◌ c s) = if code c == sep then "" ∷ split sep s else push_first c (split sep s)

-- `strings.HasPrefix(s, prefix)`.
abbrev pub has_prefix : String → String → Bool
has_prefix s prefix = starts_with s prefix

-- `slices.Contains(xs, s)`.
unfoldable pub contains : List String → String → Bool
contains [] s = false
contains (x ∷ xs) s = str_eq x s || contains xs s

split_runs : split b'.' "a.bc." ≡ "a" ∷ "bc" ∷ "" ∷ []
unfolding split
split_runs = refl

-- `strings.TrimPrefix(s, p)` and `strings.TrimSuffix(s, p)` for a `p` of one character.
unfoldable pub trim_prefix : ℕ → String → String
trim_prefix p String.[] = String.[]
trim_prefix p (String.◌∷◌ c s) = if code c == p then s else String.◌∷◌ c s

unfoldable pub trim_suffix : ℕ → String → String
trim_suffix p String.[] = String.[]
trim_suffix p (String.◌∷◌ c String.[]) = if code c == p then String.[] else String.◌∷◌ c String.[]
trim_suffix p (String.◌∷◌ c (String.◌∷◌ d s)) = String.◌∷◌ c (trim_suffix p (String.◌∷◌ d s))

-- A property of every code point.
abbrev pub all_codes : (ℕ → Bool) → String → Bool
all_codes p String.[] = true
all_codes p (String.◌∷◌ c s) = p (code c) && all_codes p s
