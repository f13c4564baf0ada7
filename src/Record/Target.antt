-- ===== src/Record/Target.antt =====
-- internal/usecase/record/delete.go: parseRangeDeleteTarget.
use concrnt.Prelude.{String, Bool, true, false, not, Option, none, some, str_eq, if◌then◌else◌}
use concrnt.Prelude.Outcome.{ok, err, panic, ◌>>=◌}
use concrnt.Prelude.Text.{trim_suffix}
use concrnt.Uri.{parse_cc_uri, has_char}
use concrnt.Commit.{Result, validation, check}
use concrnt.Record.{Env, parse_uri}

-- the text before a `*` at the end, if there is one
unfoldable pub before_star : String → Option String
before_star s = let base = trim_suffix b'*' s in if str_eq s base then none else some base

-- and before a `/` at the end of that
unfoldable pub before_slash : String → Option String
before_slash s = let base = trim_suffix b'/' s in if str_eq s base then none else some base

pub record RangeTarget : Type 0 where
  pub base : String
  pub include_self : Bool
  pub is_range : Bool

-- the checks of a range's base
unfoldable pub check_base : Env → String → Bool → Result RangeTarget
unfolding parse_uri
check_base env base include_self = check (not (has_char base b'*')) (validation "value") >>= λ _.
    (elim (parse_cc_uri env.kit.url base) [
      | err e ↦ err (validation "value")
      | panic ↦ panic
      | ok parsed ↦
          (check (str_eq parsed.scheme "cckv") (validation "value") >>= λ _.
          check (not (str_eq parsed.key "")) (validation "value") >>= λ _.
          ok (record { base = base; include_self = include_self; is_range = true }))
    ])

-- parseRangeDeleteTarget
unfoldable pub parse_range_delete_target : Env → String → Result RangeTarget
unfolding check_base before_star before_slash trim_suffix
parse_range_delete_target env target = elim (before_star target) [
  | none ↦ ok (record { base = target; include_self = false; is_range = false })
  | some rest ↦ elim (before_slash rest) [
    | some base ↦ check_base env base false
    | none ↦ check_base env rest true
  ]
]
