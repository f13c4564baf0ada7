-- ===== src/Policy/Evaluate/Emits.antt =====
-- policy/functions.go: what a policy concludes, from the statements that apply and hold.
use concrnt.Prelude.{String, ◌≡◌, ◌≢◌, refl, List, [], ◌∷◌, arith, All, if◌then◌else◌}
use concrnt.Prelude.Outcome.{ok, err, panic, Outcome-cases, returns, fails, panics}
use concrnt.Uri.{UrlPackage}
use concrnt.Policy.Conclusion.{Conclusion, unset}
use concrnt.Policy.Conclusion.Merge.{merge, strongest, IsKnown, IsConsistent, merge_unset-strongest}
use concrnt.Policy.Operators.{RequestContext}
use concrnt.Policy.Eval.{value_of, eval}
use concrnt.Policy.Evaluate.{
  Statement, Policy, select, holds, count_statement, run_statements, apply_default, evaluate_policy,
}

module _ (url : UrlPackage) (req : RequestContext) where
  -- The emitted conclusions of the statements whose condition evaluates to true; a condition that
  -- fails to evaluate does not count.
  unfoldable pub emits : List Statement → List Conclusion
  emits [] = []
  emits (s ∷ ss) = elim (eval url req s.condition) [
    | ok r ↦ (if holds (value_of r) then s.emit ∷ emits ss else emits ss)
    | err e ↦ emits ss
    | panic ↦ emits ss
  ]

  unfoldable pub NoPanic : List Statement → Type 0
  NoPanic ss = All (λ s. eval url req s.condition ≢ panic) ss

  run_statements-merge :
      (ss : List Statement) (c : Conclusion) (reason : String)
      → NoPanic ss
      → (r : String) × (run_statements url req ss c reason ≡ ok (merge c (emits ss), r))
  unfolding run_statements emits NoPanic merge count_statement
  run_statements-merge [] c reason h = (reason, refl)
  run_statements-merge (s ∷ ss) c reason h = elim (Outcome-cases (eval url req s.condition)) [
    | returns r e ↦
        (let n = count_statement c reason s r in
          let (why, step) = run_statements-merge ss n.0 n.1 h.1 in (why, ground (arith, step)))
    | fails x e ↦ rw (e, run_statements, emits) (run_statements-merge ss c reason h.1)
    | panics e ↦ absurd (h.0 e)
  ]

  -- The conclusion of a policy whose conditions do not panic: the conclusions emitted by the
  -- matching statements that hold, merged from UNSET, or the policy's default if that is UNSET.
  pub evaluate_policy-merge :
      (policy : Policy) (action key : String)
      → NoPanic (select policy.statements action key)
      → (r : String) × (evaluate_policy url policy req action key
          ≡ ok (
            apply_default policy.defaults action
                (merge unset (emits (select policy.statements action key))),
            r,
          ))
  unfolding evaluate_policy
  evaluate_policy-merge policy action key h =
      let (r, e) = run_statements-merge (select policy.statements action key) unset "" h in
      (r, rw e)

  -- Where no condition panics and the emitted conclusions are known and do not contradict one
  -- another, the order of the statements does not matter: the policy concludes the strongest of
  -- what is emitted, or its default if nothing is.
  pub evaluate_policy-strongest :
      (policy : Policy) (action key : String)
      → NoPanic (select policy.statements action key)
      → All IsKnown (emits (select policy.statements action key))
      → IsConsistent (emits (select policy.statements action key))
      → (r : String) × (evaluate_policy url policy req action key
          ≡ ok (
            apply_default policy.defaults action
                (strongest (emits (select policy.statements action key))),
            r,
          ))
  evaluate_policy-strongest policy action key h k c =
      rw (← merge_unset-strongest (emits (select policy.statements action key)) k c)
        (evaluate_policy-merge policy action key h)
