-- ===== src/Record/Remove/Permission/Targets.antt =====
-- internal/usecase/record/delete.go: the targets that the server holds, and the permission to
-- delete each of them.
use concrnt.Prelude.{
  ◌≡◌, refl, String, Bool, true, List, [], ◌∷◌, none, some, inl, inr, All, if-cases,
}
use mathlib.Core.Path.{subst}
use concrnt.Prelude.Outcome.{ok, err, >>=-eq-ok}
use concrnt.Document.{SignedDocument, signed}
use concrnt.Commit.{Entity, Result}
use concrnt.Commit.Guards.{ok-injective}
use concrnt.Record.{Env, parse_document}
use concrnt.Record.Target.{RangeTarget}
use concrnt.Record.Read.{policy_root}
use concrnt.Record.Remove.Choose.{
  Target, with_cckvs, stored_targets, parse_targets, targets_of, permit_target, permit_targets,
}
use concrnt.Record.Query.{cckv_of}
use concrnt.Record.Remove.Permission.{Among, IsHeld, IsPermitted}

-- what each document of a subtree is found under
abbrev Kept : List SignedDocument → String × SignedDocument → Type 0
Kept all x = Among x.1 all × (cckv_of x.1 ≡ some x.0)

with_cckvs-All :
    (all sds : List SignedDocument) {found : List (String × SignedDocument)}
    → ((sd : SignedDocument) → Among sd sds → Among sd all)
    → with_cckvs sds ≡ ok found
    → All (Kept all) found
unfolding with_cckvs
with_cckvs-All all [] inside h = subst (All (Kept all)) (ok-injective h) tt
with_cckvs-All all (signed none ccfs text p refs public ∷ sds) inside h = cc
with_cckvs-All all (signed (some uri) ccfs text p refs public ∷ sds) inside h =
    let (rest, later, done) = >>=-eq-ok (with_cckvs sds) _ h in
    subst (All (Kept all)) (ok-injective done) (
      (inside (signed (some uri) ccfs text p refs public) (inl refl), refl),
      with_cckvs-All all sds (λ sd m. inside sd (inr m)) later,
    )

Kept-IsHeld :
    (env : Env) (base : String) (include_self : Bool) (sds : List SignedDocument)
    → env.record_subtree base include_self ≡ ok sds
    → (found : List (String × SignedDocument)) → All (Kept sds) found
    → All (λ x. IsHeld env x.0 x.1) found
Kept-IsHeld env base include_self sds queried [] kept = tt
Kept-IsHeld env base include_self sds queried (x ∷ xs) kept = (
  inr (base, include_self, sds, queried, kept.0.0, kept.0.1),
  Kept-IsHeld env base include_self sds queried xs kept.1,
)

found-IsHeld :
    (env : Env) (base : String) (include_self : Bool) (found : List SignedDocument)
    {targets : List (String × SignedDocument)}
    → env.record_subtree base include_self ≡ ok found
    → Path
        (Result (List (String × SignedDocument)))
        (elim found [ [] ↦ err concrnt.Commit.not_found | sd ∷ sds ↦ with_cckvs (sd ∷ sds) ])
        (ok targets)
    → All (λ x. IsHeld env x.0 x.1) targets
found-IsHeld env base include_self [] queried h = cc
found-IsHeld env base include_self (sd ∷ sds) {targets} queried h =
    Kept-IsHeld env base include_self (sd ∷ sds) queried targets
      (with_cckvs-All (sd ∷ sds) (sd ∷ sds) (λ x m. m) h)

stored_targets-All :
    (env : Env) (raw : String) (range : RangeTarget) {found : List (String × SignedDocument)}
    → stored_targets env raw range ≡ ok found
    → All (λ x. IsHeld env x.0 x.1) found
unfolding stored_targets
stored_targets-All env raw range h = elim (if-cases range.is_range h) [
  | inl (_, taken) ↦
      let (sds, queried, h1) =
        >>=-eq-ok (env.record_subtree range.base range.include_self) _ taken in
      found-IsHeld env range.base range.include_self sds queried h1
  | inr (_, taken) ↦
      let (sd, stored, done) = >>=-eq-ok (env.get_signed_document raw) _ taken in
      subst (All (λ x. IsHeld env x.0 x.1)) (ok-injective done) (inl stored, tt)
]

-- A target that the server holds, with what encoding/json reads in it.
abbrev pub IsHeldTarget : Env → Target → Type 0
IsHeldTarget env t = IsHeld env t.uri t.sd × (parse_document env t.sd ≡ ok t.doc)

parse_targets-All :
    (env : Env) (found : List (String × SignedDocument)) {targets : List Target}
    → parse_targets env found ≡ ok targets
    → All (λ x. IsHeld env x.0 x.1) found
    → All (IsHeldTarget env) targets
unfolding parse_targets
parse_targets-All env [] h held = subst (All (IsHeldTarget env)) (ok-injective h) tt
parse_targets-All env ((uri, sd) ∷ rest) h held =
    let (doc, parsed, h1) = >>=-eq-ok (parse_document env sd) _ h in
    let (ts, later, done) = >>=-eq-ok (parse_targets env rest) _ h1 in
    subst (All (IsHeldTarget env)) (ok-injective done)
      ((held.0, parsed), parse_targets-All env rest later held.1)

-- The targets of the server that they belong to are stored there.
targets_of-All :
    (env : Env) (sd : SignedDocument) (raw : String) (range : RangeTarget) {targets : List Target}
    → targets_of env sd raw range true ≡ ok targets
    → All (IsHeldTarget env) targets
unfolding targets_of
targets_of-All env sd raw range h =
    let (found, stored, parsed) = >>=-eq-ok (stored_targets env raw range) _ h in
    parse_targets-All env found parsed (stored_targets-All env raw range stored)

permit_targets-All :
    (env : Env) (requester : Entity) (targets : List Target) {u : Unit {0}}
    → permit_targets env requester targets ≡ ok u
    → All (IsHeldTarget env) targets
    → All (λ t. IsPermitted env requester t.uri) targets
unfolding permit_targets permit_target
permit_targets-All env requester [] h held = tt
permit_targets-All env requester (t ∷ ts) h held =
    let (_, here, later) = >>=-eq-ok (permit_target env requester t) _ h in
    let (stack, policies, permitted) =
      >>=-eq-ok (env.hierarchical_policies (policy_root t.uri t.doc)) _ here in
    (
      record {
        sd = t.sd;
        doc = t.doc;
        root = policy_root t.uri t.doc;
        rooted = inl refl;
        stack = stack;
        held = held.0.0;
        parsed = held.0.1;
        policies = policies;
        permitted = permitted;
      },
      permit_targets-All env requester ts later held.1,
    )

-- Once the policies have been asked, every target of its server may be deleted.
pub permit_targets-targets_of :
    (env : Env) (requester : Entity) (sd : SignedDocument) (raw : String) (range : RangeTarget)
    {targets : List Target} {u : Unit {0}}
    → targets_of env sd raw range true ≡ ok targets
    → permit_targets env requester targets ≡ ok u
    → All (λ t. IsPermitted env requester t.uri) targets
permit_targets-targets_of env requester sd raw range {targets} h permitted =
    permit_targets-All env requester targets permitted (targets_of-All env sd raw range h)
