-- ===== src/Record/Entities/Lookup.antt =====
-- internal/usecase/record/entity.go: the branch of GetEntity for an alias calls GetEntity once.
use mathlib.Core.Path.{subst}
use Prim.Native.Char.{Char, code}
use Prim.Native.String
use text.Mathlib.TextEquality.{starts_with_iff}
use concrnt.Prelude.{
  ◌≡◌, refl, sym, ◌∙◌, ap, ℕ, suc, String, Bool, true, false, ◌&&◌, List, [], ◌∷◌, Option, some,
  inl, inr, if-cases, ◌==◌, arith, Option-cases, Bool-cases,
}
use concrnt.Prelude.Outcome.{ok, ◌>>=◌, >>=-eq-ok, >>=-agree, Outcome-cases, returns, fails, panics}
use concrnt.Prelude.Text.{has_prefix, concat, trim_prefix}
use concrnt.Uri.{CcUri, is_ccid, is_id, parse_cc_uri}
use concrnt.Commit.Guards.{ok-injective}
use concrnt.Record.{Env, parse_uri}
use concrnt.Record.Entities.{is_redirect, find_redirect, get_entity_at, get_entity, resolve_alias}

-- the code of the first character, 0 for the empty text
first_code : String → ℕ
first_code String.[] = 0
first_code (String.◌∷◌ c s) = code c

first_code-has_prefix :
    (c : Char) (t s : String) → has_prefix s (String.◌∷◌ c t) ≡ true → first_code s ≡ code c
unfolding first_code
first_code-has_prefix c t s h =
    let (rest, e) = (starts_with_iff s (String.◌∷◌ c t)).0 h in
    sym (ap first_code (sym (String.append.cons c t rest) ∙ e))

and_left : (a b : Bool) → (a && b) ≡ true → a ≡ true
and_left true b h = refl
and_left false b h = cc

and_right : (a b : Bool) → (a && b) ≡ true → b ≡ true
and_right true b h = h
and_right false b h = cc

-- A CCID is no alias.
is_ccid-has_prefix : (s : String) → is_ccid s ≡ true → has_prefix s "@" ≡ false
unfolding is_ccid is_id
is_ccid-has_prefix s h = elim (Bool-cases (has_prefix s "@")) [
  | inr differs ↦ differs
  | inl alias ↦ absurd (
      let con = and_right (String.len s == 42) _ (and_left _ _ h) in
      let same : Path ℕ b'c' b'@' =
        sym (first_code-has_prefix "c" "on" s con) ∙ first_code-has_prefix "@" "" s alias in
      omega (arith))
]

some-injective : {A : Type 0} {a b : A} → Path (Option A) (some a) (some b) → a ≡ b
some-injective h = cc

find_redirect-is_redirect :
    (env : Env) (records : List String) {r : String}
    → find_redirect env records ≡ some r
    → is_redirect env r ≡ true
unfolding find_redirect
find_redirect-is_redirect env [] h = cc
find_redirect-is_redirect env (x ∷ xs) h = elim (if-cases (is_redirect env x) h) [
  | inl (found, taken) ↦ subst (λ y. is_redirect env y ≡ true) (some-injective taken) found
  | inr (_, later) ↦ find_redirect-is_redirect env xs later
]

-- The owner of a redirect is a CCID.
redirect_owner :
    (env : Env) (r : String)
    → is_redirect env r ≡ true
    → (parsed : CcUri) × (parse_cc_uri env.kit.url r ≡ ok parsed) × (is_ccid parsed.owner ≡ true)
unfolding is_redirect
redirect_owner env r h = elim (Outcome-cases (parse_cc_uri env.kit.url r)) [
  | returns parsed e ↦ let h1 = rw (is_redirect, e) at h in (parsed, e, and_left _ _ h1)
  | fails x e ↦ let h1 = rw (is_redirect, e) at h in absurd (cc)
  | panics e ↦ let h1 = rw (is_redirect, e) at h in absurd (cc)
]

-- Where an owner is a CCID, GetEntity does not call itself.
get_entity_at-is_ccid :
    (env : Env) (r : String) (parsed : CcUri) (n : ℕ)
    → parse_cc_uri env.kit.url r ≡ ok parsed
    → is_ccid parsed.owner ≡ true
    → get_entity_at (suc n) env r ≡ get_entity_at 1 env r
unfolding get_entity_at
get_entity_at-is_ccid env r parsed n e ccid =
    let no_alias = is_ccid-has_prefix parsed.owner ccid in rw (parse_uri, e, no_alias)

resolve_alias-is_redirect :
    (env : Env) (alias r : String) → resolve_alias env alias ≡ ok r → is_redirect env r ≡ true
unfolding resolve_alias
resolve_alias-is_redirect env alias r h =
    let (records, _, h1) = >>=-eq-ok (env.lookup_txt (concat "_concrnt." alias)) _ h in
    elim (Option-cases (find_redirect env records)) [
      | inl missing ↦ let h2 = rw (missing) at h1 in cc
      | inr (redirect, found) ↦
          let h2 = rw (found) at h1 in
          subst (λ y. is_redirect env y ≡ true) (ok-injective h2)
            (find_redirect-is_redirect env records found)
    ]

-- The rest of GetEntity for an alias is the same with any number of calls left.
alias_step :
    (env : Env) (n : ℕ) (alias : String)
    → (resolve_alias env alias >>= λ redirect. get_entity_at (suc n) env redirect)
      ≡ (resolve_alias env alias >>= λ redirect. get_entity_at 1 env redirect)
alias_step env n alias = >>=-agree (resolve_alias env alias) _ _ (λ r e.
    let (parsed, parses, ccid) = redirect_owner env r (resolve_alias-is_redirect env alias r e) in
    get_entity_at-is_ccid env r parsed n parses ccid)

-- With two or more calls of its branch for an alias left, GetEntity returns the same, since the
-- redirect that an alias leads to names its owner by a CCID. What a commit in it does is not counted.
pub get_entity_at-get_entity :
    (env : Env) (uri : String) (n : ℕ) → get_entity_at (suc (suc n)) env uri ≡ get_entity env uri
unfolding get_entity get_entity_at
get_entity_at-get_entity env uri n = elim (Outcome-cases (parse_uri env uri)) [
  | fails x e ↦ rw (e)
  | panics e ↦ rw (e)
  | returns parsed e ↦ let step = alias_step env n (trim_prefix b'@' parsed.owner) in rw (e, step)
]
