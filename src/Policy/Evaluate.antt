-- ===== src/Policy/Evaluate.antt =====
-- policy/functions.go: `EvaluatePolicy` and `EvaluateStack`, with the types of policy/types.go.
pub mod Emits
pub mod Stack
use concrnt.Prelude.{
  String, Bool, true, false, ◌&&◌, List, [], ◌∷◌, Option, none, some, str_eq, if◌then◌else◌,
}
use concrnt.Prelude.Dict.{Dict, get}
use concrnt.Prelude.Text.{concat}
use concrnt.Prelude.Outcome.{ok, err, panic, ◌>>=◌}
use concrnt.Uri.{UrlPackage}
use concrnt.Policy.Conclusion
use concrnt.Policy.Conclusion.{Conclusion, unset, allow, deny, or, is_unset}
use concrnt.Policy.Value.{Value, bool}
use concrnt.Policy.Reflect.{Entries}
use concrnt.Policy.Operators.{Eval, RequestContext}
use concrnt.Policy.Eval.{Expr, EvalResult, value_of, eval}
use concrnt.Policy.Pattern.{key_matches}

pub record Statement : Type 0 where
  pub action : String
  pub key : String
  pub emit : Conclusion
  pub condition : Expr
  pub reason : Option String

pub record Policy : Type 0 where
  pub statements : List Statement
  pub defaults : Dict Conclusion

pub record EvaluationSet : Type 0 where
  pub policy : Policy
  pub params : Option Entries
  pub errored : Bool

abbrev pub PolicyStack : Type 0
PolicyStack = List (List EvaluationSet)

-- the first loop of EvaluatePolicy
unfoldable pub select : List Statement → String → String → List Statement
select [] action key = []
select (s ∷ ss) action key =
    if str_eq s.action action && key_matches s.key key
    then s ∷ select ss action key
    else select ss action key

-- `evalResult.Result == true`
abbrev pub holds : Value → Bool
holds (bool b) = b
holds _ = false

abbrev pub with_reason : String → Option String → String
with_reason reason none = reason
with_reason reason (some r) = concat reason (concat r "; ")

-- the body of the second loop, for the outcome of the condition
unfoldable pub count_statement : Conclusion → String → Statement → EvalResult → Conclusion × String
unfolding or
count_statement conclusion reason s r =
    if holds (value_of r)
    then (or conclusion s.emit, with_reason reason s.reason)
    else (conclusion, reason)

-- the second loop of EvaluatePolicy
unfoldable pub run_statements :
    UrlPackage → RequestContext → List Statement → Conclusion → String → Eval (Conclusion × String)
unfolding count_statement
run_statements url req [] conclusion reason = ok (conclusion, reason)
run_statements url req (s ∷ ss) conclusion reason = elim (eval url req s.condition) [
  | ok r ↦
      (let next = count_statement conclusion reason s r in run_statements url req ss next.0 next.1)
  | err e ↦ run_statements url req ss conclusion reason
  | panic ↦ panic
]

-- `policy.Defaults[action]`, unless it is empty
unfoldable pub apply_default : Dict Conclusion → String → Conclusion → Conclusion
apply_default defaults action conclusion =
    if is_unset conclusion
    then elim (get defaults action) [
      | none ↦ conclusion
      | some d ↦ (if str_eq (Conclusion.to_string d) "" then conclusion else d)
    ]
    else conclusion

-- EvaluatePolicy
unfoldable pub evaluate_policy :
    UrlPackage → Policy → RequestContext → String → String → Eval (Conclusion × String)
unfolding run_statements select apply_default
evaluate_policy url policy req action key =
    run_statements url req (select policy.statements action key) unset "" >>= λ (c, reason).
    ok (apply_default policy.defaults action c, reason)

-- `dflt`
abbrev pub default_of : Policy → String → Conclusion
default_of policy action = elim (get policy.defaults action) [ none ↦ unset | some d ↦ d ]

-- `reqCtx`
abbrev pub with_params : RequestContext → Option Entries → RequestContext
with_params req none = req
with_params req (some p) = record req { params = p }

-- the inner loop of EvaluateStack
unfoldable pub run_layer :
    UrlPackage
    → RequestContext
    → String
    → String
    → List EvaluationSet
    → Conclusion
    → String
    → Eval (Conclusion × String)
unfolding evaluate_policy or
run_layer url req action key [] conclusion reason = ok (conclusion, reason)
run_layer url req action key (e ∷ es) conclusion reason = elim e.errored [
  | true ↦ run_layer url req action key es (or conclusion (default_of e.policy action)) reason
  | false ↦
      (evaluate_policy url e.policy (with_params req e.params) action key >>= λ (c, why).
      run_layer url req action key es (or conclusion c) (concat reason why))
]

-- `reason += "[" + layerReason + "] "`
abbrev pub close_layer : String → String → String
close_layer reason why = concat reason (concat "[" (concat why "] "))

-- the `switch layerConclusion`; `next` goes on with the next layer
unfoldable pub after_layer :
    (Conclusion → String → Eval (Conclusion × String))
    → Conclusion
    → String
    → Conclusion × String
    → Eval (Conclusion × String)
after_layer next conclusion reason (deny, why) = ok (deny, close_layer reason why)
after_layer next conclusion reason (allow, why) = ok (allow, close_layer reason why)
after_layer next conclusion reason (unset, why) = next conclusion (close_layer reason why)
after_layer next conclusion reason (c, why) = next c (close_layer reason why)

-- the outer loop of EvaluateStack
unfoldable pub run_stack :
    UrlPackage
    → RequestContext
    → String
    → String
    → PolicyStack
    → Conclusion
    → String
    → Eval (Conclusion × String)
unfolding run_layer after_layer
run_stack url req action key [] conclusion reason = ok (conclusion, reason)
run_stack url req action key (layer ∷ layers) conclusion reason =
    run_layer url req action key layer unset ""
    >>= after_layer (run_stack url req action key layers) conclusion reason

-- EvaluateStack
unfoldable pub evaluate_stack :
    UrlPackage → RequestContext → PolicyStack → String → String → Eval (Conclusion × String)
unfolding run_stack
evaluate_stack url req stack action key = run_stack url req action key stack unset ""
