-- ===== src/Policy/Pattern/Language.antt =====
-- policy/functions.go: the key test of EvaluatePolicy decides the language of the key.
use Prim.Native.Char.{Char, code}
use text.Mathlib.TextLemmas.{nil-append, cons-append}
use text.Mathlib.TextEquality.{Char-path}
use concrnt.Prelude.{
  sym, ap, ℕ, String, ◌≡◌, ◌↔◌, inl, inr, refl, Bool, true, not, arith, ◌==◌, Bool-cases,
}
use concrnt.Prelude.Text.{concat, all_codes}
use concrnt.Policy.Pattern.{is_star, matches, Matches, done, literal, skip, absorb}

star_code : (p : Char) → is_star p ≡ true → code p ≡ b'*'
star_code p h = ground arith

matches_sound : (p s : String) → matches p s ≡ true → Matches p s
unfolding matches
matches_sound String.[] String.[] h = done
matches_sound String.[] (String.◌∷◌ c s) h = cc
matches_sound (String.◌∷◌ p ps) String.[] h =
    skip (star_code p (ground arith)) (matches_sound ps String.[] (ground arith))
matches_sound (String.◌∷◌ p ps) (String.◌∷◌ c s) h = elim (Bool-cases (is_star p)) [
  | inl star ↦ elim (Bool-cases (matches ps (String.◌∷◌ c s))) [
    | inl e ↦ skip (star_code p star) (matches_sound ps (String.◌∷◌ c s) e)
    | inr e ↦
        absorb (star_code p star) (ground arith) (matches_sound (String.◌∷◌ p ps) s (ground arith))
  ]
  | inr lit ↦
      literal (ground arith) (Char-path c p (ground arith)) (matches_sound ps s (ground arith))
]

matches-star_skip :
    (p : Char) (ps s : String)
    → is_star p ≡ true
    → matches ps s ≡ true
    → matches (String.◌∷◌ p ps) s ≡ true
unfolding matches
matches-star_skip p ps String.[] star h = ground arith
matches-star_skip p ps (String.◌∷◌ c s) star h = ground arith

matches_complete : {p s : String} → Matches p s → matches p s ≡ true
unfolding matches
matches_complete done = refl
matches_complete (literal other e m) = ground (arith, matches_complete m, ap code e)
matches_complete (skip {p = p} {ps = ps} {s = s} star m) =
    matches-star_skip p ps s (ground arith) (matches_complete m)
matches_complete (absorb star dot m) = ground (arith, matches_complete m)

pub matches_iff : (p s : String) → (matches p s ≡ true) ↔ Matches p s
matches_iff p s = (matches_sound p s, matches_complete)

-- no `*` in the text
abbrev pub is_plain : ℕ → Bool
is_plain c = not (c == b'*')

abbrev pub is_dot_code : ℕ → Bool
is_dot_code c = not (c == 10)

star_takes : (t : String) → all_codes is_dot_code t ≡ true → Matches "*" t
star_takes String.[] h = skip refl done
star_takes (String.◌∷◌ c s) h = absorb refl (ground arith) (star_takes s (ground arith))

star_only_takes : (t : String) → matches "*" t ≡ true → all_codes is_dot_code t ≡ true
unfolding matches
star_only_takes String.[] h = refl
star_only_takes (String.◌∷◌ c String.[]) h = ground arith
star_only_takes (String.◌∷◌ c (String.◌∷◌ d t)) h = ground (arith, star_only_takes (String.◌∷◌ d t))

plain_empty :
    (c : Char) (ps : String) → is_plain (code c) ≡ true → matches (String.◌∷◌ c ps) "" ≡ true → ⊥
unfolding matches
plain_empty c ps h m = ground arith

plain_first :
    (c d : Char) (ps k : String)
    → is_plain (code c) ≡ true
    → matches (String.◌∷◌ c ps) (String.◌∷◌ d k) ≡ true
    → (code c ≡ code d) × (matches ps k ≡ true)
unfolding matches
plain_first c d ps k h m = ground arith

prefix_star_takes :
    (s t : String)
    → all_codes is_plain s ≡ true
    → Matches "*" t
    → Matches (concat s "*") (concat s t)
prefix_star_takes String.[] t h m = rw (nil-append t) m
prefix_star_takes (String.◌∷◌ c s) t h m =
    rw (cons-append c s "*", cons-append c s t)
      (literal (ground arith) refl (prefix_star_takes s t (ground arith) m))

prefix_star_only :
    (s k : String)
    → all_codes is_plain s ≡ true
    → matches (concat s "*") k ≡ true
    → (t : String) × (k ≡ concat s t) × (matches "*" t ≡ true)
unfolding matches
prefix_star_only String.[] k h m = (k, sym (nil-append k), m)
prefix_star_only (String.◌∷◌ c s) String.[] h m =
    absurd (plain_empty c (concat s "*") (ground arith) (rw (cons-append c s "*") at m))
prefix_star_only (String.◌∷◌ c s) (String.◌∷◌ d k) h m =
    let (same, rest) =
      plain_first c d (concat s "*") k (ground arith) (rw (cons-append c s "*") at m) in
    let (t, e, mt) = prefix_star_only s k (ground arith) rest in
    (t, rw (cons-append c s t) (cc (e, Char-path c d same)), mt)

-- A key that ends in `*` and has no other `*` matches the texts that begin with what stands before
-- the `*`, so long as no line feed follows.
pub matches-prefix_star :
    (s k : String)
    → all_codes is_plain s ≡ true
    → (matches (concat s "*") k ≡ true)
      ↔ ((t : String) × (k ≡ concat s t) × (all_codes is_dot_code t ≡ true))
matches-prefix_star s k h = (
  (λ m. let (t, e, mt) = prefix_star_only s k h m in (t, e, star_only_takes t mt)),
  (λ (t, e, dots). rw e (matches_complete (prefix_star_takes s t h (star_takes t dots)))),
)

matches_plain_self : (s : String) → all_codes is_plain s ≡ true → matches s s ≡ true
unfolding matches
matches_plain_self String.[] h = refl
matches_plain_self (String.◌∷◌ c s) h = ground (arith, matches_plain_self s)

matches_plain_only : (s k : String) → all_codes is_plain s ≡ true → matches s k ≡ true → k ≡ s
unfolding matches
matches_plain_only String.[] String.[] h m = refl
matches_plain_only String.[] (String.◌∷◌ d k) h m = cc
matches_plain_only (String.◌∷◌ c s) String.[] h m = absurd (plain_empty c s (ground arith) m)
matches_plain_only (String.◌∷◌ c s) (String.◌∷◌ d k) h m =
    let (same, rest) = plain_first c d s k (ground arith) m in
    cc (matches_plain_only s k (ground arith) rest, Char-path c d same)

-- A key without `*` matches itself and no other text.
pub matches-plain : (s k : String) → all_codes is_plain s ≡ true → (matches s k ≡ true) ↔ (k ≡ s)
matches-plain s k h = (matches_plain_only s k h, (λ e. rw e (matches_plain_self s h)))
