-- ===== src/Policy/Evaluate/Stack.antt =====
-- policy/functions.go: the order of the layers in EvaluateStack, and its errors.
use concrnt.Prelude.{String, ◌≡◌, ◌≢◌, refl, List, [], ◌∷◌, ◌++◌, Bool-cases, inl, inr}
use concrnt.Prelude.Outcome.{
  ok, err, ◌>>=◌, Outcome-cases, returns, fails, panics, >>=-ne-err, bind_regroup,
}
use concrnt.Uri.{UrlPackage}
use concrnt.Policy.Conclusion.{Conclusion, unset, allow, deny}
use concrnt.Policy.Operators.{Eval, EvalError, RequestContext}
use concrnt.Policy.Eval.{eval}
use concrnt.Policy.Evaluate.{
  Statement, Policy, select, with_params, EvaluationSet, PolicyStack, after_layer, run_statements,
  evaluate_policy, run_layer, run_stack, evaluate_stack,
}

module _ (url : UrlPackage) (req : RequestContext) (action key : String) where
  run_statements-ne-err :
      (ss : List Statement) (c : Conclusion) (why : String) (req' : RequestContext) (x : EvalError)
      → run_statements url req' ss c why ≢ err x
  unfolding run_statements
  run_statements-ne-err [] c why req' x = λ h. cc
  run_statements-ne-err (s ∷ ss) c why req' x = elim (Outcome-cases (eval url req' s.condition)) [
    | returns r e ↦ rw (e, run_statements) (run_statements-ne-err ss _ _ req' x)
    | fails y e ↦ rw (e, run_statements) (run_statements-ne-err ss c why req' x)
    | panics e ↦ rw (e, run_statements) (λ h. cc)
  ]

  evaluate_policy-ne-err :
      (p : Policy) (req' : RequestContext) (x : EvalError)
      → evaluate_policy url p req' action key ≢ err x
  unfolding evaluate_policy
  evaluate_policy-ne-err p req' x =
      >>=-ne-err _ _ x (run_statements-ne-err (select p.statements action key) unset "" req' x)
        (λ a h. cc)

  run_layer-ne-err :
      (es : List EvaluationSet) (c : Conclusion) (why : String) (x : EvalError)
      → run_layer url req action key es c why ≢ err x
  unfolding run_layer
  run_layer-ne-err [] c why x = λ h. cc
  run_layer-ne-err (e ∷ es) c why x = elim (Bool-cases e.errored) [
    | inl bad ↦ rw (bad, run_layer) (run_layer-ne-err es _ why x)
    | inr good ↦
        rw (good, run_layer)
          (>>=-ne-err _ _ x (evaluate_policy-ne-err e.policy (with_params req e.params) x)
            (λ a. run_layer-ne-err es _ _ x))
  ]

  after_layer-ne-err :
      (next : Conclusion → String → Eval (Conclusion × String)) (c : Conclusion) (why : String)
      (r : Conclusion × String) (x : EvalError)
      → ((c' : Conclusion) (why' : String) → next c' why' ≢ err x)
      → after_layer next c why r ≢ err x
  unfolding after_layer
  after_layer-ne-err next c why (deny, w) x h = λ e. cc
  after_layer-ne-err next c why (allow, w) x h = λ e. cc
  after_layer-ne-err next c why (_, w) x h = h _ _

  run_stack-ne-err :
      (stack : PolicyStack) (c : Conclusion) (why : String) (x : EvalError)
      → run_stack url req action key stack c why ≢ err x
  unfolding run_stack
  run_stack-ne-err [] c why x = λ h. cc
  run_stack-ne-err (l ∷ ls) c why x =
      >>=-ne-err _ _ x (run_layer-ne-err l unset "" x)
        (λ r. after_layer-ne-err _ c why r x (λ c' why'. run_stack-ne-err ls c' why' x))

  -- EvaluateStack never returns an error, whatever conditions fail to evaluate and whatever
  -- entries could not be resolved.
  pub evaluate_stack-ne-err :
      (stack : PolicyStack) (x : EvalError) → evaluate_stack url req stack action key ≢ err x
  unfolding evaluate_stack
  evaluate_stack-ne-err stack x = run_stack-ne-err stack unset "" x

  -- What the layers behind do, given what the layers in front concluded: nothing, once an allowance
  -- or a denial is reached.
  unfoldable pub continue_stack : PolicyStack → Conclusion × String → Eval (Conclusion × String)
  continue_stack back (deny, why) = ok (deny, why)
  continue_stack back (allow, why) = ok (allow, why)
  continue_stack back (c, why) = run_stack url req action key back c why

  abbrev IsOpen : Conclusion → Type 0
  IsOpen deny = ⊥
  IsOpen allow = ⊥
  IsOpen _ = Unit

  continue_stack-IsOpen :
      (back : PolicyStack) (c : Conclusion) (why : String)
      → IsOpen c
      → run_stack url req action key back c why ≡ continue_stack back (c, why)
  unfolding continue_stack
  continue_stack-IsOpen back deny why h = absurd h
  continue_stack-IsOpen back allow why h = absurd h
  continue_stack-IsOpen back _ why h = refl

  after_layer-append :
      (front back : PolicyStack) (c : Conclusion) (why : String) (r : Conclusion × String)
      → IsOpen c
      → ((c' : Conclusion) (why' : String)
          → IsOpen c'
          → run_stack url req action key (front ++ back) c' why'
            ≡ (run_stack url req action key front c' why' >>= continue_stack back))
      → after_layer (run_stack url req action key (front ++ back)) c why r
        ≡ (after_layer (run_stack url req action key front) c why r >>= continue_stack back)
  unfolding after_layer continue_stack
  after_layer-append front back c why (deny, w) h ih = refl
  after_layer-append front back c why (allow, w) h ih = refl
  after_layer-append front back c why (unset, w) h ih = ih c _ h
  after_layer-append front back c why (_, w) h ih = ih _ _ tt

  run_stack-append :
      (front back : PolicyStack) (c : Conclusion) (why : String)
      → IsOpen c
      → run_stack url req action key (front ++ back) c why
        ≡ (run_stack url req action key front c why >>= continue_stack back)
  unfolding run_stack
  run_stack-append [] back c why h = continue_stack-IsOpen back c why h
  run_stack-append (l ∷ front) back c why h =
      bind_regroup (run_layer url req action key l unset "") _ _ _
        (λ r. after_layer-append front back c why r h (run_stack-append front back))

  -- The layers are evaluated in order, and the layers behind one that denies or allows are not
  -- evaluated: the stack `front ++ back` is `front` followed, if it is still open, by `back`.
  pub evaluate_stack-append :
      (front back : PolicyStack)
      → evaluate_stack url req (front ++ back) action key
        ≡ (evaluate_stack url req front action key >>= continue_stack back)
  unfolding evaluate_stack
  evaluate_stack-append front back = run_stack-append front back unset "" tt
