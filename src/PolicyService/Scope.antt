-- ===== src/PolicyService/Scope.antt =====
-- internal/service/policy.go: which record keys a rewritten statement key covers.
use text.Mathlib.TextLemmas.{cons-append, append_assoc}
use concrnt.Prelude.{String, ◌≡◌, ◌↔◌, true, arith, refl}
use concrnt.Prelude.Text.{concat, all_codes}
use concrnt.Policy.Pattern.{key_matches}
use concrnt.Policy.Pattern.Quoting.{key_matches-matches}
use concrnt.Policy.Pattern.Language.{is_plain, is_dot_code, matches-prefix_star, matches-plain}
use concrnt.PolicyService.{rewrite_key}

-- Where the resource's own key holds no `*`, a statement key "." covers that key alone.
pub scope-this :
    (source key : String)
    → all_codes is_plain source ≡ true
    → (key_matches (rewrite_key source ".") key ≡ true) ↔ (key ≡ source)
unfolding rewrite_key
scope-this source key h =
    rw (key_matches-matches (rewrite_key source ".") key) (matches-plain source key h)

-- Where the resource's own key holds no `*`, a statement key "" covers the keys that begin
-- with it, without a line feed behind it.
pub scope-all :
    (source key : String)
    → all_codes is_plain source ≡ true
    → (key_matches (rewrite_key source "") key ≡ true)
      ↔ ((t : String) × (key ≡ concat source t) × (all_codes is_dot_code t ≡ true))
unfolding rewrite_key
scope-all source key h =
    rw (key_matches-matches (rewrite_key source "") key) (matches-prefix_star source key h)

all_codes-slash :
    (s : String) → all_codes is_plain s ≡ true → all_codes is_plain (concat s "/") ≡ true
all_codes-slash String.[] h = refl
all_codes-slash (String.◌∷◌ c s) h =
    rw (cons-append c s "/") (ground (arith, all_codes-slash s (ground arith)))

-- Where the resource's own key holds no `*`, a statement key "./*" covers the keys that go on
-- from it with a `/`, without a line feed behind that.
pub scope-children :
    (source key : String)
    → all_codes is_plain source ≡ true
    → (key_matches (rewrite_key source "./*") key ≡ true)
      ↔ ((t : String) × (key ≡ concat (concat source "/") t) × (all_codes is_dot_code t ≡ true))
unfolding rewrite_key
scope-children source key h =
    rw (key_matches-matches (rewrite_key source "./*") key, ← append_assoc source "/" "*")
      (matches-prefix_star (concat source "/") key (all_codes-slash source h))
