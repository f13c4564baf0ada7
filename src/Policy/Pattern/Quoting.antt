-- ===== src/Policy/Pattern/Quoting.antt =====
-- policy/functions.go: the regular expression that EvaluatePolicy makes of a key.
use Prim.Native.Char.{Char, code}
use concrnt.Prelude.{
  ℕ, String, ◌≡◌, ◌↔◌, ◌≢◌, inl, inr, refl, sym, ◌∙◌, ap, true, false, ◌&&◌, ◌||◌, arith, ◌==◌,
  Bool-cases, List, [], ◌∷◌, ◌++◌, Option, none, some, if◌then◌else◌,
}
use concrnt.Prelude.Text.{codes}
use concrnt.Policy.Pattern.{
  is_special, quote_meta, replace_stars, regex_key, Token, lit, any, prepend, tokens, match_tokens,
  match_string, key_matches, is_star, is_dot, matches, Matches,
}
use concrnt.Policy.Pattern.Language.{matches_iff}

-- the parts that a key stands for
abbrev token_of : ℕ → Token
token_of c = if c == 42 then any else lit c

abbrev tokens_of : List ℕ → List Token
tokens_of [] = []
tokens_of (c ∷ cs) = token_of c ∷ tokens_of cs

not_special : (c : ℕ) → is_special c ≡ false → (c ≢ 92) × (c ≢ 46) × (c ≢ 42)
unfolding is_special
not_special c h = ground arith

replace_keep :
    (x d : ℕ) (cs : List ℕ) → d ≢ 42 → replace_stars (x ∷ (d ∷ cs)) ≡ x ∷ replace_stars (d ∷ cs)
unfolding replace_stars
replace_keep x d cs h =
    let e : (x == 92 && d == 42) ≡ false = ground arith in rw (replace_stars, e) refl

quote_special :
    (c : ℕ) (cs : List ℕ) → is_special c ≡ true → quote_meta (c ∷ cs) ≡ 92 ∷ (c ∷ quote_meta cs)
unfolding quote_meta
quote_special c cs special =
    ap (λ b. if b then 92 ∷ (c ∷ quote_meta cs) else c ∷ quote_meta cs) special

quote_plain : (c : ℕ) (cs : List ℕ) → is_special c ≡ false → quote_meta (c ∷ cs) ≡ c ∷ quote_meta cs
unfolding quote_meta
quote_plain c cs plain = ap (λ b. if b then 92 ∷ (c ∷ quote_meta cs) else c ∷ quote_meta cs) plain

replace_empty : (x : ℕ) → replace_stars (x ∷ quote_meta []) ≡ x ∷ replace_stars (quote_meta [])
unfolding quote_meta replace_stars
replace_empty x = refl

-- A quoted text does not begin with `*`, so nothing is replaced across its beginning.
replace_stars-quote :
    (x : ℕ) (cs : List ℕ) → replace_stars (x ∷ quote_meta cs) ≡ x ∷ replace_stars (quote_meta cs)
replace_stars-quote x [] = replace_empty x
replace_stars-quote x (c ∷ cs) = elim (Bool-cases (is_special c)) [
  | inl special ↦
      rw (quote_special c cs special) (replace_keep x 92 (c ∷ quote_meta cs) (omega (arith)))
  | inr plain ↦
      rw (quote_plain c cs plain)
        (replace_keep x c (quote_meta cs) (let facts = not_special c plain in facts.2))
]

-- What becomes of a character: `.*`, an escaped character, or itself.
replaced_star :
    (cs : List ℕ) → replace_stars (quote_meta (42 ∷ cs)) ≡ 46 ∷ (42 ∷ replace_stars (quote_meta cs))
replaced_star cs =
    rw (quote_special 42 cs (unfold is_special in refl)) (unfold replace_stars in refl)

replaced_special :
    (c : ℕ) (cs : List ℕ)
    → c ≢ 42
    → is_special c ≡ true
    → replace_stars (quote_meta (c ∷ cs)) ≡ 92 ∷ (c ∷ replace_stars (quote_meta cs))
replaced_special c cs other special =
    rw (quote_special c cs special)
      (replace_keep 92 c (quote_meta cs) other ∙ ap (λ r. 92 ∷ r) (replace_stars-quote c cs))

replaced_plain :
    (c : ℕ) (cs : List ℕ)
    → is_special c ≡ false
    → replace_stars (quote_meta (c ∷ cs)) ≡ c ∷ replace_stars (quote_meta cs)
replaced_plain c cs plain = rw (quote_plain c cs plain) (replace_stars-quote c cs)

-- how each of these is read
read_star : (r : List ℕ) → tokens (46 ∷ (42 ∷ r)) ≡ prepend any (tokens r)
unfolding tokens
read_star r = refl

read_special :
    (c : ℕ) (r : List ℕ) → is_special c ≡ true → tokens (92 ∷ (c ∷ r)) ≡ prepend (lit c) (tokens r)
unfolding tokens
read_special c r special = ap (λ b. if b then prepend (lit c) (tokens r) else none) special

read_next :
    (c d : ℕ) (r : List ℕ)
    → is_special c ≡ false
    → tokens (c ∷ (d ∷ r)) ≡ prepend (lit c) (tokens (d ∷ r))
unfolding tokens
read_next c d r plain =
    let facts = not_special c plain in
    let e1 : (c == 92) ≡ false = ground arith in
    let e2 : (c == 46 && d == 42) ≡ false = ground arith in rw (tokens, e1, e2, plain) refl

read_plain :
    (c : ℕ) (r : List ℕ)
    → is_special c ≡ false
    → tokens (c ∷ (r ++ (36 ∷ []))) ≡ prepend (lit c) (tokens (r ++ (36 ∷ [])))
read_plain c [] plain = read_next c 36 [] plain
read_plain c (d ∷ r) plain = read_next c d (r ++ (36 ∷ [])) plain

-- The expression of a key is read as the parts that the key stands for.
tokens-key :
    (cs : List ℕ) → tokens (replace_stars (quote_meta cs) ++ (36 ∷ [])) ≡ some (tokens_of cs)
tokens-key [] = unfold quote_meta replace_stars tokens in refl
tokens-key (c ∷ cs) =
    let rest = replace_stars (quote_meta cs) ++ (36 ∷ []) in
    let ih = tokens-key cs in
    elim (Bool-cases (c == 42)) [
      | inl star ↦
          let e : c ≡ 42 = ground arith in
          rw (e) (
            ap (λ l. tokens (l ++ (36 ∷ []))) (replaced_star cs)
            ∙ read_star rest
            ∙ ap (prepend any) ih)
      | inr other ↦
          let e : token_of c ≡ lit c = rw (other) refl in
          (elim (Bool-cases (is_special c)) [
            | inl special ↦
                ap (λ l. tokens (l ++ (36 ∷ []))) (replaced_special c cs (ground arith) special)
                ∙ read_special c rest special
                ∙ ap (prepend (lit c)) ih
                ∙ ap (λ t. some (t ∷ tokens_of cs)) (sym e)
            | inr plain ↦
                ap (λ l. tokens (l ++ (36 ∷ []))) (replaced_plain c cs plain)
                ∙ read_plain c (replace_stars (quote_meta cs)) plain
                ∙ ap (prepend (lit c)) ih
                ∙ ap (λ t. some (t ∷ tokens_of cs)) (sym e)
          ])
    ]

matches-star :
    (p c : Char) (ps s : String)
    → is_star p ≡ true
    → matches (String.◌∷◌ p ps) (String.◌∷◌ c s)
      ≡ (matches ps (String.◌∷◌ c s) || (is_dot c && matches (String.◌∷◌ p ps) s))
unfolding matches
matches-star p c ps s star = rw (matches, star) refl

matches-star_empty :
    (p : Char) (ps : String)
    → is_star p ≡ true
    → matches (String.◌∷◌ p ps) String.[] ≡ matches ps String.[]
unfolding matches
matches-star_empty p ps star = rw (star) refl

matches-other :
    (p c : Char) (ps s : String)
    → is_star p ≡ false
    → matches (String.◌∷◌ p ps) (String.◌∷◌ c s) ≡ (code p == code c && matches ps s)
unfolding matches
matches-other p c ps s other = rw (matches, other) refl

-- The parts of a key match what the key does.
match_tokens-key : (p s : String) → match_tokens (tokens_of (codes p)) (codes s) ≡ matches p s
unfolding match_tokens
match_tokens-key String.[] String.[] = unfold matches in refl
match_tokens-key String.[] (String.◌∷◌ c s) = unfold matches in refl
match_tokens-key (String.◌∷◌ p ps) String.[] = elim (Bool-cases (is_star p)) [
  | inl star ↦
      let part : token_of (code p) ≡ any = rw (star) refl in
      ap (λ t. match_tokens (t ∷ tokens_of (codes ps)) []) part
      ∙ match_tokens-key ps String.[]
      ∙ sym (matches-star_empty p ps star)
  | inr other ↦ unfold matches in rw (other) refl
]
match_tokens-key (String.◌∷◌ p ps) (String.◌∷◌ c s) = elim (Bool-cases (is_star p)) [
  | inl star ↦
      let part : token_of (code p) ≡ any = rw (star) refl in
      let ts = tokens_of (codes ps) in
      ap (λ t. match_tokens (t ∷ ts) (code c ∷ codes s)) part
      ∙ ap (λ b. b || (is_dot c && match_tokens (any ∷ ts) (codes s)))
          (match_tokens-key ps (String.◌∷◌ c s))
      ∙ ap (λ t. matches ps (String.◌∷◌ c s) || (is_dot c && match_tokens (t ∷ ts) (codes s)))
          (sym part)
      ∙ ap (λ b. matches ps (String.◌∷◌ c s) || (is_dot c && b))
          (match_tokens-key (String.◌∷◌ p ps) s)
      ∙ sym (matches-star p c ps s star)
  | inr other ↦
      let part : token_of (code p) ≡ lit (code p) = rw (other) refl in
      ap (λ t. match_tokens (t ∷ tokens_of (codes ps)) (code c ∷ codes s)) part
      ∙ ap (λ b. code p == code c && b) (match_tokens-key ps s)
      ∙ sym (matches-other p c ps s other)
]

-- The expression accepts what the key matches.
pub key_matches-matches : (key text : String) → key_matches key text ≡ matches key text
unfolding key_matches match_string regex_key
key_matches-matches key text =
    ap
      (λ (o : Option (List Token)). elim o [
        | none ↦ false
        | some ts ↦ match_tokens ts (codes text)
      ])
      (tokens-key (codes key))
    ∙ match_tokens-key key text

-- The regular expression that is made of a key accepts the texts in the key's language, and no
-- others: those in which a `*` of the key is any characters but a line feed, and every other
-- character of the key is itself, also one with a meaning in regular expressions.
pub key_matches_iff : (key text : String) → (key_matches key text ≡ true) ↔ Matches key text
key_matches_iff key text = rw (key_matches-matches key text) (matches_iff key text)
