-- ===== src/PolicyService/Fallback.antt =====
-- internal/service/policy.go and policy/functions.go: policies that cannot be resolved.
use concrnt.Prelude.{
  String, ◌≡◌, refl, true, List, [], ◌∷◌, Option, none, some, map, All, ◌⊎◌, inl, inr, arith,
}
use concrnt.Prelude.Outcome.{ok}
use concrnt.Uri.{UrlPackage}
use concrnt.Policy.Conclusion.{Conclusion, unset, or}
use concrnt.Policy.Conclusion.Merge.{merge}
use concrnt.Policy.Operators.{RequestContext}
use concrnt.Policy.Evaluate.{Policy, default_of, run_layer}
use concrnt.PolicyService.{
  PolicyEntry, errored_evaluation_set, resolve_entry, resolve_layer, entry_defaults,
}

-- The entry is marked as errored, or its URL cannot be resolved.
abbrev pub IsUnresolved : (String → Option Policy) → PolicyEntry → Type 0
IsUnresolved resolve p = (p.errored ≡ true) ⊎ ((u : String) × (p.url ≡ some u) × (resolve u ≡ none))

abbrev pub fallback : String → PolicyEntry → Conclusion
fallback action p = default_of (record { statements = []; defaults = entry_defaults p }) action

resolve_entry-IsUnresolved :
    (resolve : String → Option Policy) (source : String) (p : PolicyEntry)
    → IsUnresolved resolve p
    → resolve_entry resolve source p ≡ errored_evaluation_set p ∷ []
unfolding resolve_entry
resolve_entry-IsUnresolved resolve source p (inl h) = rw h
resolve_entry-IsUnresolved resolve source p (inr (u, hu, hr)) = ground (arith, hu, hr)

module _ (url : UrlPackage) (req : RequestContext) (action key : String) where
  run_layer-unresolved :
      (resolve : String → Option Policy) (source : String) (es : List PolicyEntry) (c : Conclusion)
      (why : String)
      → All (IsUnresolved resolve) es
      → run_layer url req action key (resolve_layer resolve source es) c why
        ≡ ok (merge c (map (fallback action) es), why)
  unfolding run_layer resolve_layer merge errored_evaluation_set
  run_layer-unresolved resolve source [] c why h = refl
  run_layer-unresolved resolve source (e ∷ es) c why h =
      rw (resolve_entry-IsUnresolved resolve source e h.0)
        (run_layer-unresolved resolve source es (or c (fallback action e)) why h.1)

  -- A layer none of whose entries can be resolved concludes what the entries declare as their
  -- defaults for the action, merged from UNSET; no statement of any policy counts.
  pub layer_fallback :
      (resolve : String → Option Policy) (source : String) (es : List PolicyEntry)
      → All (IsUnresolved resolve) es
      → run_layer url req action key (resolve_layer resolve source es) unset ""
        ≡ ok (merge unset (map (fallback action) es), "")
  layer_fallback resolve source es h = run_layer-unresolved resolve source es unset "" h
