-- ===== src/PolicyService.antt =====
-- internal/service/policy.go: the policy service, which turns the policies that documents declare
-- into a stack and evaluates it behind the global policy. What it fetches is a parameter: the
-- policy document at a URL (`resolve`, as ResolvePolicyURL returns it), the entries of a parent
-- record's policy (`get_record`, from client.GetRecord) and the named API call of the client.
pub mod Scope
pub mod Fallback
pub mod Decision
use concrnt.Prelude.{
  String, Bool, true, false, ◌||◌, List, [], ◌∷◌, ◌++◌, Option, none, some, map, str_eq,
  if◌then◌else◌,
}
use concrnt.Prelude.Dict.{Dict, put}
use concrnt.Prelude.Outcome.{Outcome, ok, err, panic, ◌>>=◌}
use concrnt.Prelude.Text.{concat, split, contains}
use concrnt.Uri.{UrlPackage}
use concrnt.Policy.Conclusion
use concrnt.Policy.Conclusion.{Conclusion}
use concrnt.Policy.Value.{Value, obj, get_field}
use concrnt.Policy.Reflect.{GoValue, Entries}
use concrnt.Policy.Operators.{Eval, Caller, RequestContext, call_failed}
use concrnt.Policy.Evaluate.{Statement, Policy, EvaluationSet, PolicyStack, evaluate_stack}

-- types.go: `PolicyEntry`
pub record PolicyEntry : Type 0 where
  pub url : Option String
  pub params : Option Entries
  pub defaults : Option (Dict String)
  pub errored : Bool

-- types.go: `Policy`, the policy of a document
pub record DocumentPolicy : Type 0 where
  pub entries : List PolicyEntry
  pub virtual_parents : Option (List String)
  pub source : String

-- policyAllowedAPIs
abbrev pub policy_allowed_apis : List String
policy_allowed_apis = "net.concrnt.core.acknowledges" ∷ []

-- the items of a paged envelope, any other result as it is
abbrev pub unwrap_envelope : Value → Value
unwrap_envelope (obj m) = elim (get_field m "items") [ none ↦ obj m | some items ↦ items ]
unwrap_envelope v = v

-- ConcrntCall, over the call of the client
unfoldable pub concrnt_call : Caller → Caller
unfolding contains
concrnt_call call resolver api params =
    if contains policy_allowed_apis api
    then (call resolver api params >>= λ v. ok (unwrap_envelope v))
    else err (call_failed api)

-- `strings.Join(split[:len(split)-1], "/")`
unfoldable pub join_but_last : List String → String
join_but_last [] = ""
join_but_last (x ∷ []) = ""
join_but_last (x ∷ y ∷ []) = x
join_but_last (x ∷ y ∷ z ∷ xs) = concat x (concat "/" (join_but_last (y ∷ z ∷ xs)))

abbrev pub parent_path : String → String
parent_path source = join_but_last (split b'/' source)

abbrev pub errored_entry : PolicyEntry
errored_entry = record { url = none; params = none; defaults = none; errored = true }

-- what one virtual parent adds: `none` is a failed fetch, `some none` a record without a policy
abbrev pub entries_of : Option (Option (List PolicyEntry)) → List PolicyEntry
entries_of none = errored_entry ∷ []
entries_of (some none) = []
entries_of (some (some es)) = es

unfoldable pub gather :
    (String → Option (Option (List PolicyEntry))) → List String → List PolicyEntry
gather get_record [] = []
gather get_record (p ∷ ps) = entries_of (get_record p) ++ gather get_record ps

-- `virtual`, in front of the layer that declares it, if it has an entry
abbrev pub put_virtual :
    DocumentPolicy → List PolicyEntry → List DocumentPolicy → List DocumentPolicy
put_virtual layer [] rest = layer ∷ rest
put_virtual layer (e ∷ es) rest =
    record { entries = e ∷ es; virtual_parents = none; source = parent_path layer.source }
    ∷ layer
    ∷ rest

-- the first loop of resolvePolicyStack
unfoldable pub insert_virtual :
    (String → Option (Option (List PolicyEntry))) → List DocumentPolicy → List DocumentPolicy
unfolding gather split join_but_last
insert_virtual get_record [] = []
insert_virtual get_record (layer ∷ layers) =
    let rest = insert_virtual get_record layers in
    elim layer.virtual_parents [
      | none ↦ layer ∷ rest
      | some ps ↦ put_virtual layer (gather get_record ps) rest
    ]

-- the `switch` on a statement's key
unfoldable pub rewrite_key : String → String → String
rewrite_key source key =
    if str_eq key "."
    then source
    else if str_eq key "" || str_eq key "*"
    then concat source "*"
    else if str_eq key "./*"
    then concat source "/*"
    else key

abbrev pub rewrite_statement : String → Statement → Statement
rewrite_statement source s = record s { key = rewrite_key source s.key }

-- `policy.Conclusion(conclusion)`
unfoldable pub to_conclusion : String → Conclusion
to_conclusion s =
    if str_eq s "unset"
    then Conclusion.unset
    else if str_eq s "ok"
    then Conclusion.ok
    else if str_eq s "ng"
    then Conclusion.ng
    else if str_eq s "allow"
    then Conclusion.allow
    else if str_eq s "deny"
    then Conclusion.deny
    else Conclusion.other s

abbrev pub convert_defaults : Dict String → Dict Conclusion
convert_defaults [] = []
convert_defaults ((k, v) ∷ m) = (k, to_conclusion v) ∷ convert_defaults m

-- entryDefaults; a nil map is an empty one, which reads the same
abbrev pub entry_defaults : PolicyEntry → Dict Conclusion
entry_defaults p = elim p.defaults [ none ↦ [] | some m ↦ convert_defaults m ]

-- `for action, conclusion := range defaults { pol.Defaults[action] = conclusion }`
unfoldable pub override : Dict Conclusion → Dict Conclusion → Dict Conclusion
unfolding put
override base [] = base
override base ((k, v) ∷ m) = override (put base k v) m

-- erroredEvaluationSet
unfoldable pub errored_evaluation_set : PolicyEntry → EvaluationSet
unfolding to_conclusion
errored_evaluation_set p = record {
  policy = record { statements = []; defaults = entry_defaults p };
  params = none;
  errored = true;
}

-- the evaluation set of an entry whose policy was fetched
unfoldable pub resolved_evaluation_set : String → PolicyEntry → Policy → EvaluationSet
unfolding rewrite_key to_conclusion override
resolved_evaluation_set source p pol = record {
  policy = record {
    statements = map (rewrite_statement source) pol.statements;
    defaults = override pol.defaults (entry_defaults p);
  };
  params = p.params;
  errored = false;
}

-- the inner part of the second loop: an entry with no URL adds nothing
unfoldable pub resolve_entry : (String → Option Policy) → String → PolicyEntry → List EvaluationSet
unfolding errored_evaluation_set resolved_evaluation_set
resolve_entry resolve source p = if p.errored then errored_evaluation_set p ∷ [] else elim p.url [
  | none ↦ []
  | some url ↦ elim (resolve url) [
    | none ↦ errored_evaluation_set p ∷ []
    | some pol ↦ resolved_evaluation_set source p pol ∷ []
  ]
]

unfoldable pub resolve_layer :
    (String → Option Policy) → String → List PolicyEntry → List EvaluationSet
unfolding resolve_entry
resolve_layer resolve source [] = []
resolve_layer resolve source (p ∷ ps) =
    resolve_entry resolve source p ++ resolve_layer resolve source ps

-- resolvePolicyStack
unfoldable pub resolve_policy_stack :
    (String → Option (Option (List PolicyEntry)))
    → (String → Option Policy)
    → List DocumentPolicy
    → PolicyStack
unfolding resolve_layer insert_virtual
resolve_policy_stack get_record resolve stack =
    map (λ layer. resolve_layer resolve layer.source layer.entries)
      (insert_virtual get_record stack)

pub record PolicyService : Type 0 where
  pub global_policy : Policy
  pub global_parameters : GoValue
  pub get_record : String → Option (Option (List PolicyEntry))
  pub resolve : String → Option Policy
  pub call : Caller

abbrev pub global_set : PolicyService → EvaluationSet
global_set s = record { policy = s.global_policy; params = none; errored = false }

-- `requestContext`
unfoldable pub service_context : PolicyService → RequestContext → RequestContext
unfolding concrnt_call
service_context s req = record req {
  globals = s.global_parameters;
  caller = some (concrnt_call s.call);
}

pub data Verdict : Type 0 where
  permitted : Verdict
  denied : String → Verdict

-- `switch conclusion`
abbrev pub verdict_of : Conclusion × String → Verdict
verdict_of (Conclusion.allow, why) = permitted
verdict_of (Conclusion.ok, why) = permitted
verdict_of (_, why) = denied why

-- Eval
unfoldable pub service_eval :
    UrlPackage
    → PolicyService
    → RequestContext
    → List DocumentPolicy
    → String
    → String
    → Eval Verdict
unfolding service_context resolve_policy_stack evaluate_stack
service_eval url s req stack action key =
    evaluate_stack url (service_context s req)
      ((global_set s ∷ []) ∷ resolve_policy_stack s.get_record s.resolve stack) action key
    >>= λ r. ok (verdict_of r)
