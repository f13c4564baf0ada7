-- ===== src/PolicyService/Decision.antt =====
-- internal/service/policy.go: what decides `Eval`.
use concrnt.Prelude.{String, ◌≡◌, ◌≢◌, false, List, [], ◌∷◌}
use concrnt.Prelude.Dict.{Dict}
use concrnt.Prelude.Outcome.{ok, err, >>=-ne-err}
use concrnt.Prelude.Text.{concat, contains}
use concrnt.Uri.{UrlPackage}
use concrnt.Policy.Conclusion.{allow, deny}
use concrnt.Policy.Operators.{EvalError, Caller, RequestContext}
use concrnt.Policy.Evaluate.{evaluate_policy, run_layer, run_stack, close_layer}
use concrnt.Policy.Evaluate.Stack.{evaluate_stack-ne-err}
use concrnt.PolicyService.{
  PolicyService, DocumentPolicy, permitted, denied, concrnt_call, service_context, service_eval,
  policy_allowed_apis, global_set, resolve_policy_stack, verdict_of,
}

module _ (url : UrlPackage) (s : PolicyService) (req : RequestContext) (action key : String) where
  -- A denial by the global policy denies the action, whatever the documents declare.
  pub service_eval-global_deny :
      (stack : List DocumentPolicy) (why : String)
      → evaluate_policy url s.global_policy (service_context s req) action key ≡ ok (deny, why)
      → (reason : String) × (service_eval url s req stack action key ≡ ok (denied reason))
  unfolding service_eval run_stack run_layer
  service_eval-global_deny stack why h = (close_layer "" (concat "" why), rw h)

  -- An allowance by the global policy permits the action, whatever the documents declare.
  pub service_eval-global_allow :
      (stack : List DocumentPolicy) (why : String)
      → evaluate_policy url s.global_policy (service_context s req) action key ≡ ok (allow, why)
      → service_eval url s req stack action key ≡ ok permitted
  unfolding service_eval run_stack run_layer
  service_eval-global_allow stack why h = rw h

  -- The policy service reports no error but a denial: it permits, denies with a reason, or
  -- panics.
  pub service_eval-ne-err :
      (stack : List DocumentPolicy) (x : EvalError)
      → service_eval url s req stack action key ≢ err x
  unfolding service_eval
  service_eval-ne-err stack x =
      >>=-ne-err _ (λ r. ok (verdict_of r)) x
        (evaluate_stack-ne-err url (service_context s req) action key
          ((global_set s ∷ []) ∷ resolve_policy_stack s.get_record s.resolve stack) x)
        (λ a h. cc)

-- An API that is not on the list is refused before the client is asked: two clients that answer
-- differently make no difference.
pub concrnt_call-not_allowed :
    (call call' : Caller) (resolver api : String) (params : Dict String)
    → contains policy_allowed_apis api ≡ false
    → concrnt_call call resolver api params ≡ concrnt_call call' resolver api params
unfolding concrnt_call
concrnt_call-not_allowed call call' resolver api params h = rw h
