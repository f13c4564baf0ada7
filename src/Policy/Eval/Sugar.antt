-- ===== src/Policy/Eval/Sugar.antt =====
-- policy/functions.go: the sugar of `Const`, and which evaluations can panic.
use concrnt.Prelude.{String, ◌≡◌, ◌≢◌, refl, false, str_eq}
use concrnt.Prelude.Outcome.{ok, err, panic, ◌>>=◌}
use concrnt.Uri.{UrlPackage}
use concrnt.Policy.Value.{Value, nil}
use concrnt.Policy.Operators.{Eval, RequestContext}
use concrnt.Policy.Eval.{
  expr, Exprs, no_expr, arg, EvalResult, result, EvalResults, no_result, arg_result, with_const,
  eval, eval_args, apply_operator,
}

with_const-ne_nil :
    (c : Value) (rs : EvalResults)
    → c ≢ nil
    → with_const c rs ≡ arg_result (result "Const" no_result c) rs
with_const-ne_nil nil rs n = absurd (n refl)
with_const-ne_nil _ rs n = refl

bind_const :
    (m : Eval EvalResults) (f : EvalResults → Eval EvalResult) (c : Value)
    → c ≢ nil
    → (m >>= λ rs. f (with_const c rs))
      ≡ ((m >>= λ rs. ok (arg_result (result "Const" no_result c) rs)) >>= λ rs. f rs)
bind_const (ok rs) f c n = rw (with_const-ne_nil c rs n)
bind_const (err e) f c n = refl
bind_const panic f c n = refl

-- A constant given beside the arguments means the same as a `Const` expression before them.
pub eval-const_sugar :
    (url : UrlPackage) (rctx : RequestContext) (op : String) (args : Exprs) (c : Value)
    → str_eq op "Const" ≡ false
    → c ≢ nil
    → eval url rctx (expr op args c)
      ≡ eval url rctx (expr op (arg (expr "Const" no_expr c) args) nil)
unfolding eval
eval-const_sugar url rctx op args c h n =
    rw h (bind_const (eval_args url rctx args) (apply_operator url rctx op) c n)
