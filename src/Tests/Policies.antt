-- ===== src/Tests/Policies.antt =====
-- policy/ and internal/service/policy.go: the theorems on concrete policies.
use concrnt.Prelude.{
  String, ◌≡◌, ◌≢◌, ◌↔◌, refl, true, false, List, [], ◌∷◌, ◌++◌, Option, none, some, map, inr,
}
use concrnt.Prelude.Outcome.{ok, err, ◌>>=◌}
use concrnt.Prelude.Text.{concat, all_codes}
use concrnt.Policy.Conclusion.{Conclusion, unset}
use concrnt.Policy.Conclusion.Merge.{merge, strongest}
use concrnt.Policy.Value.{bool, nil}
use concrnt.Policy.Operators.{bad_length}
use concrnt.Policy.Eval.{expr, Exprs, no_expr, arg, eval}
use concrnt.Policy.Eval.Sugar.{eval-const_sugar}
use concrnt.Policy.Pattern.{key_matches, Matches}
use concrnt.Policy.Pattern.Language.{is_dot_code}
use concrnt.Policy.Pattern.Quoting.{key_matches_iff}
use concrnt.Policy.Reflect.{null}
use concrnt.Policy.Evaluate.{
  Policy, apply_default, EvaluationSet, PolicyStack, evaluate_policy, evaluate_stack, run_layer,
  select,
}
use concrnt.Policy.Evaluate.Emits.{emits, NoPanic, evaluate_policy-strongest}
use concrnt.Policy.Evaluate.Stack.{continue_stack, evaluate_stack-append, evaluate_stack-ne-err}
use concrnt.PolicyService.{
  rewrite_key, PolicyService, PolicyEntry, DocumentPolicy, denied, resolve_layer, service_eval,
}
use concrnt.PolicyService.Scope.{scope-children}
use concrnt.PolicyService.Fallback.{fallback, layer_fallback}
use concrnt.PolicyService.Decision.{service_eval-global_deny}
use concrnt.Tests.{toy_url, toy_request, mixed_policy}

abbrev negation : Exprs
negation = arg (expr "Not" no_expr (bool true)) no_expr

eval-const_sugar_example :
    eval toy_url toy_request (expr "Or" negation (bool false))
    ≡ eval toy_url toy_request (expr "Or" (arg (expr "Const" no_expr (bool false)) negation) nil)
eval-const_sugar_example =
    eval-const_sugar toy_url toy_request "Or" negation (bool false) refl (λ h. cc)

key_matches_iff_example : (key_matches "x/a.*" "x/a.b" ≡ true) ↔ Matches "x/a.*" "x/a.b"
key_matches_iff_example = key_matches_iff "x/a.*" "x/a.b"

abbrev item : String
item = "cckv://x/a"

abbrev below : String
below = "cckv://x/a/b"

evaluate_policy-strongest_example :
    (r : String) × (evaluate_policy toy_url mixed_policy toy_request "read" item
      ≡ ok (Conclusion.deny, r))
unfolding emits NoPanic select key_matches eval strongest apply_default
evaluate_policy-strongest_example =
    evaluate_policy-strongest toy_url toy_request mixed_policy "read" item
      ((λ h. cc), ((λ h. cc), tt)) (refl, (refl, tt)) (record { deciding = refl; leaning = refl })

abbrev unresolved : PolicyEntry
unresolved = record {
  url = some "https://example.com/policy";
  params = none;
  defaults = some (("read", "allow") ∷ []);
  errored = false;
}

abbrev toy_set : EvaluationSet
toy_set = record { policy = mixed_policy; params = none; errored = false }

abbrev toy_stack : PolicyStack
toy_stack = (toy_set ∷ []) ∷ []

evaluate_stack-ne-err_example :
    evaluate_stack toy_url toy_request toy_stack "read" item ≢ err bad_length
evaluate_stack-ne-err_example =
    evaluate_stack-ne-err toy_url toy_request "read" item toy_stack bad_length

evaluate_stack-append_example :
    evaluate_stack toy_url toy_request (toy_stack ++ toy_stack) "read" item ≡ (
      evaluate_stack toy_url toy_request toy_stack "read" item
      >>= continue_stack toy_url toy_request "read" item toy_stack)
evaluate_stack-append_example =
    evaluate_stack-append toy_url toy_request "read" item toy_stack toy_stack

abbrev toy_resolve : String → Option Policy
toy_resolve url = none

layer_fallback_example :
    run_layer toy_url toy_request "read" item
      (resolve_layer toy_resolve item (unresolved ∷ []))
      unset
      ""
    ≡ ok (merge unset (map (fallback "read") (unresolved ∷ [])), "")
layer_fallback_example =
    layer_fallback toy_url toy_request "read" item toy_resolve item (unresolved ∷ [])
      (inr ("https://example.com/policy", refl, refl), tt)

abbrev service_with : Policy → PolicyService
service_with policy = record {
  global_policy = policy;
  global_parameters = null;
  get_record = λ uri. none;
  resolve = toy_resolve;
  call = λ resolver api params. ok nil;
}

abbrev declared : List DocumentPolicy
declared = record { entries = unresolved ∷ []; virtual_parents = none; source = item } ∷ []

service_eval-global_deny_example :
    (reason : String) × (service_eval toy_url
        (service_with mixed_policy)
        toy_request
        declared
        "read"
        item
      ≡ ok (denied reason))
unfolding evaluate_policy key_matches eval
service_eval-global_deny_example =
    service_eval-global_deny toy_url (service_with mixed_policy) toy_request "read" item declared
      "rule; rule; " refl

scope-children_example :
    (key_matches (rewrite_key item "./*") below ≡ true)
    ↔ ((t : String) × (below ≡ concat (concat item "/") t) × (all_codes is_dot_code t ≡ true))
scope-children_example = scope-children item below refl
