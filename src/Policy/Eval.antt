-- ===== src/Policy/Eval.antt =====
-- policy/types.go and policy/functions.go: expressions and `Eval`.
pub mod Sugar
use concrnt.Prelude.{String, List, [], ◌∷◌, none, some, str_eq, if◌then◌else◌}
use concrnt.Prelude.Outcome.{ok, err, ◌>>=◌}
use concrnt.Uri.{UrlPackage}
use concrnt.Policy.Value.{Value, nil}
use concrnt.Policy.Operators.{Eval, RequestContext, unknown_operator, operators}

-- `Expr`: operator, arguments, and `Const`, which is `nil` where it is not given.
mutual
  pub data Expr : Type 0 where
    expr : String → Exprs → Value → Expr

  pub data Exprs : Type 0 where
    no_expr : Exprs
    arg : Expr → Exprs → Exprs

-- `EvalResult` of a successful evaluation: operator, arguments' results, result.
mutual
  pub data EvalResult : Type 0 where
    result : String → EvalResults → Value → EvalResult

  pub data EvalResults : Type 0 where
    no_result : EvalResults
    arg_result : EvalResult → EvalResults → EvalResults

abbrev pub value_of : EvalResult → Value
value_of (result op args v) = v

-- the slice `args` that the loop of `Eval` builds beside `evalResults`
abbrev pub values_of : EvalResults → List Value
values_of no_result = []
values_of (arg_result r rs) = value_of r ∷ values_of rs

-- the sugar: `Const`, if set, is a first argument
abbrev pub with_const : Value → EvalResults → EvalResults
with_const nil rs = rs
with_const c rs = arg_result (result "Const" no_result c) rs

-- the call of the operator, once the arguments are evaluated
unfoldable pub apply_operator : UrlPackage → RequestContext → String → EvalResults → Eval EvalResult
unfolding operators
apply_operator url rctx op rs = elim (operators op) [
  | none ↦ err unknown_operator
  | some f ↦ (f url rctx (values_of rs) >>= λ v. ok (result op rs v))
]

unfoldable mutual
  unfolding apply_operator

  pub eval : UrlPackage → RequestContext → Expr → Eval EvalResult
  eval url rctx (expr op args c) =
      let rest = (eval_args url rctx args >>= λ rs. apply_operator url rctx op (with_const c rs)) in
      if str_eq op "Const" then ok (result "Const" no_result c) else rest

  pub eval_args : UrlPackage → RequestContext → Exprs → Eval EvalResults
  eval_args url rctx no_expr = ok no_result
  eval_args url rctx (arg e es) =
      eval url rctx e >>= λ r. eval_args url rctx es >>= λ rs. ok (arg_result r rs)
