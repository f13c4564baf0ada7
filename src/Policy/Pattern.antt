-- ===== src/Policy/Pattern.antt =====
-- policy/functions.go: the keys of statements. EvaluatePolicy quotes a key, turns each `*` into
-- `.*`, anchors it and runs the regular expression. Of package regexp this models QuoteMeta and the
-- expressions made of quoted characters, `.*` and the two anchors.
pub mod Language
pub mod Quoting
use Prim.Native.Char.{Char, code}
use Prim.Native.String
use concrnt.Prelude.Text.{codes}
use concrnt.Prelude.{
  ℕ, String, ◌≡◌, ◌≢◌, Bool, true, false, not, ◌&&◌, ◌||◌, ◌==◌, if◌then◌else◌, List, [], ◌∷◌, ◌++◌,
  Option, none, some,
}

abbrev pub is_star : Char → Bool
is_star p = code p == b'*'

-- `.` of package regexp, without the flag s
abbrev pub is_dot : Char → Bool
is_dot c = not (code c == 10)

-- the characters that QuoteMeta escapes: `\.+*?()|[]{}^$`
unfoldable pub is_special : ℕ → Bool
is_special c =
    c == 92
    || c == 46
    || c == 43
    || c == 42
    || c == 63
    || c == 40
    || c == 41
    || c == 124
    || c == 91
    || c == 93
    || c == 123
    || c == 125
    || c == 94
    || c == 36

-- `regexp.QuoteMeta`
unfoldable pub quote_meta : List ℕ → List ℕ
quote_meta [] = []
quote_meta (c ∷ cs) = if is_special c then 92 ∷ (c ∷ quote_meta cs) else c ∷ quote_meta cs

-- `strings.ReplaceAll(s, "\\*", ".*")`
unfoldable pub replace_stars : List ℕ → List ℕ
replace_stars [] = []
replace_stars (c ∷ []) = c ∷ []
replace_stars (c ∷ (d ∷ cs)) = elim (c == 92 && d == 42) [
  | true ↦ 46 ∷ (42 ∷ replace_stars cs)
  | false ↦ c ∷ replace_stars (d ∷ cs)
]

-- `regexKey`
unfoldable pub regex_key : String → List ℕ
unfolding quote_meta replace_stars
regex_key key = 94 ∷ (replace_stars (quote_meta (codes key)) ++ (36 ∷ []))

-- a part of a regular expression: a character, or `.*`
pub data Token : Type 0 where
  lit : ℕ → Token
  any : Token

abbrev pub prepend : Token → Option (List Token) → Option (List Token)
prepend t none = none
prepend t (some ts) = some (t ∷ ts)

-- what stands behind `^`, up to `$`; `none` is any other expression
unfoldable pub tokens : List ℕ → Option (List Token)
tokens [] = none
tokens (c ∷ []) = if c == 36 then some [] else none
tokens (c ∷ (d ∷ cs)) = elim (c == 92) [
  | true ↦ (if is_special d then prepend (lit d) (tokens cs) else none)
  | false ↦ elim (c == 46 && d == 42) [
    | true ↦ prepend any (tokens cs)
    | false ↦ (if is_special c then none else prepend (lit c) (tokens (d ∷ cs)))
  ]
]

-- whether the whole of a text matches; `.` is any character but a line feed
unfoldable pub match_tokens : List Token → List ℕ → Bool
match_tokens [] [] = true
match_tokens [] (c ∷ s) = false
match_tokens (lit p ∷ ts) [] = false
match_tokens (lit p ∷ ts) (c ∷ s) = p == c && match_tokens ts s
match_tokens (any ∷ ts) [] = match_tokens ts []
match_tokens (any ∷ ts) (c ∷ s) =
    match_tokens ts (c ∷ s) || (not (c == 10) && match_tokens (any ∷ ts) s)

-- `regexp.MatchString` for an expression that begins with `^`
unfoldable pub match_string : List ℕ → List ℕ → Bool
unfolding tokens match_tokens
match_string [] s = false
match_string (c ∷ cs) s =
    if c == 94 then (elim (tokens cs) [ none ↦ false | some ts ↦ match_tokens ts s ]) else false

-- the test of a statement's key
unfoldable pub key_matches : String → String → Bool
unfolding is_special regex_key match_string
key_matches key text = match_string (regex_key key) (codes text)

-- what that comes to on the key itself
unfoldable pub matches : String → String → Bool
matches String.[] String.[] = true
matches String.[] (String.◌∷◌ c s) = false
matches (String.◌∷◌ p ps) String.[] = is_star p && matches ps String.[]
matches (String.◌∷◌ p ps) (String.◌∷◌ c s) = elim (is_star p) [
  | true ↦ matches ps (String.◌∷◌ c s) || (is_dot c && matches (String.◌∷◌ p ps) s)
  | false ↦ code p == code c && matches ps s
]

-- The language of a key: a `*` stands for any characters but a line feed, any other character for
-- itself.
pub data Matches : String → String → Type 0 where
  done : Matches String.[] String.[]
  literal :
      {p c : Char} {ps s : String}
      → code p ≢ b'*'
      → c ≡ p
      → Matches ps s
      → Matches (String.◌∷◌ p ps) (String.◌∷◌ c s)
  skip : {p : Char} {ps s : String} → code p ≡ b'*' → Matches ps s → Matches (String.◌∷◌ p ps) s
  absorb :
      {p c : Char} {ps s : String}
      → code p ≡ b'*'
      → code c ≢ 10
      → Matches (String.◌∷◌ p ps) s
      → Matches (String.◌∷◌ p ps) (String.◌∷◌ c s)
