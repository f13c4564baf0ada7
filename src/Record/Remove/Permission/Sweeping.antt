-- ===== src/Record/Remove/Permission/Sweeping.antt =====
-- internal/usecase/record/delete.go: the removal of a target and of the references to it.
use concrnt.Prelude.{
  ◌≡◌, refl, sym, ◌∙◌, String, true, List, [], ◌∷◌, Option, some, inl, inr, ◌⊎◌, All, if-cases,
  Option-cases,
}
use concrnt.Prelude.Outcome.{ok, err, panic, >>=-eq-ok}
use mathlib.Core.Path.{subst}
use concrnt.Document.{Document, SignedDocument}
use concrnt.Commit.{Entity, Result, CommitMode, not_found, permission_denied, distributions}
use concrnt.Commit.Guards.{ok-injective}
use concrnt.Record.{
  Env, PostProcess, delete_record_by_key, mark_gc_candidate, write, parse_document, document_id,
}
use concrnt.Record.Read.{policy_delete_action}
use concrnt.Record.Deliver.{reference_segment}
use concrnt.Record.Remove.Choose.{Target}
use concrnt.Record.Remove.Sweep.{
  Progress, is_retained, flag_deleted, removal_at, href_of, remove_reference, if_permitted,
  sweep_reference, sweep_destination, sweep_destinations, sweep_distributions,
}
use concrnt.Record.Remove.Permission.{
  IsReferenceKey, IsPermitted, IsAllowed, has_removal, IsLawful, write-All, write-removed,
  write-kept,
}

-- a lawful progress
abbrev pub Lawful : Env → Entity → Progress → Type 0
Lawful env requester p = IsLawful env requester p.log p.deleted_any

-- Flagging what was removed makes the progress lawful.
pub flag_deleted-Lawful :
    (env : Env) (requester : Entity) (sd : SignedDocument) (on_update : Option String)
    (p : Progress) {p' : Progress}
    → flag_deleted env sd on_update p ≡ ok p'
    → All (IsAllowed env requester) p.log
    → has_removal p.log ≡ true
    → Lawful env requester p'
unfolding flag_deleted
flag_deleted-Lawful env requester sd on_update p h before removed =
    elim (if-cases (is_retained on_update) h) [
      | inl (_, done) ↦
          let same = ok-injective done in
          subst (Lawful env requester) same (record { allowed = before; flagged = sym removed })
      | inr (_, marks) ↦
          let (id, _, h1) = >>=-eq-ok (document_id env sd) _ marks in
          let ((log, b), written, done) = >>=-eq-ok (write env p.log (mark_gc_candidate id)) _ h1 in
          subst (Lawful env requester) (ok-injective done) (record {
            allowed = write-All env requester p.log (mark_gc_candidate id) written before tt;
            flagged = sym (write-kept env p.log (mark_gc_candidate id) written refl ∙ removed);
          })
    ]

-- The removal of the reference at one destination.
remove_reference-Lawful :
    (env : Env) (requester : Entity) (mode : CommitMode) (key : String) (ref : SignedDocument)
    (doc : Document) (p : Progress) {x : Progress × List PostProcess}
    → remove_reference env mode key ref doc p ≡ ok x
    → IsPermitted env requester key
    → Lawful env requester p
    → Lawful env requester x.0
unfolding remove_reference
remove_reference-Lawful env requester mode key ref doc p h permission lawful =
    let (removed, _, h1) = >>=-eq-ok (removal_at env mode key) _ h in
    let ((log, b), written, h2) = >>=-eq-ok (write env p.log (delete_record_by_key key)) _ h1 in
    let (p', flagged, done) =
      >>=-eq-ok (flag_deleted env ref doc.on_update (record p { log = log })) _ h2 in
    subst (λ (y : Progress × List PostProcess). Lawful env requester y.0) (ok-injective done)
      (flag_deleted-Lawful env requester ref doc.on_update (record p { log = log }) flagged
        (write-All env requester p.log (delete_record_by_key key) written lawful.allowed permission)
        (write-removed env p.log (delete_record_by_key key) written refl))

-- A reference whose policies deny the deletion is kept.
if_permitted-eq-ok :
    {A : Type 0} (r : Result (Unit {0})) (kept : A) (removed : Result A) {x : A}
    → if_permitted r kept removed ≡ ok x
    → ((r ≡ ok tt) × (removed ≡ ok x)) ⊎ (kept ≡ x)
if_permitted-eq-ok (ok u) kept removed h = inl (refl, h)
if_permitted-eq-ok (err permission_denied) kept removed h = inr (ok-injective h)
if_permitted-eq-ok (err e) kept removed h = cc
if_permitted-eq-ok panic kept removed h = cc

sweep_reference-Lawful :
    (env : Env) (requester : Entity) (mode : CommitMode) (key : String) (ref : SignedDocument)
    (p : Progress) {x : Progress × List PostProcess}
    → sweep_reference env requester mode key ref p ≡ ok x
    → env.get_signed_document key ≡ ok ref
    → IsReferenceKey env key
    → Lawful env requester p
    → Lawful env requester x.0
unfolding sweep_reference
sweep_reference-Lawful env requester mode key ref p h stored keyed lawful =
    let (doc, parsed, h1) = >>=-eq-ok (parse_document env ref) _ h in
    let (stack, policies, h2) = >>=-eq-ok (env.hierarchical_policies key) _ h1 in
    elim (if_permitted-eq-ok (env.permits (some requester) doc stack (policy_delete_action doc) key)
      (p, []) (remove_reference env mode key ref doc p) h2) [
        | inl (permitted, removed) ↦
            remove_reference-Lawful env requester mode key ref doc p removed
              (record {
                sd = ref;
                doc = doc;
                root = key;
                rooted = inr (refl, keyed);
                stack = stack;
                held = inl stored;
                parsed = parsed;
                policies = policies;
                permitted = permitted;
              })
              lawful
        | inr kept ↦
            subst (λ (y : Progress × List PostProcess). Lawful env requester y.0) kept lawful
      ]

-- The lookup of a reference decides whether there is one to sweep.
sweep_found :
    {A : Type 0} (r : Result SignedDocument) (skip : A) (sweep : SignedDocument → Result A) {x : A}
    → Path
        (Result A)
        (elim r [ err not_found ↦ ok skip | err e ↦ err e | panic ↦ panic | ok ref ↦ sweep ref ])
        (ok x)
    → ((ref : SignedDocument) × (r ≡ ok ref) × (sweep ref ≡ ok x)) ⊎ (skip ≡ x)
sweep_found (ok ref) skip sweep h = inl (ref, refl, h)
sweep_found (err not_found) skip sweep h = inr (ok-injective h)
sweep_found (err e) skip sweep h = cc
sweep_found panic skip sweep h = cc

sweep_destination-Lawful :
    (env : Env) (requester : Entity) (mode : CommitMode) (href dest : String) (p : Progress)
    {x : Progress × List PostProcess}
    → sweep_destination env requester mode (reference_segment env href) dest p ≡ ok x
    → Lawful env requester p
    → Lawful env requester x.0
unfolding sweep_destination
sweep_destination-Lawful env requester mode href dest p h lawful =
    elim (Option-cases (env.join_path dest (reference_segment env href))) [
      | inl e ↦
          let h1 = rw (sweep_destination, e) at h in
          subst (λ (y : Progress × List PostProcess). Lawful env requester y.0) (ok-injective h1)
            lawful
      | inr (key, e) ↦
          let h1 = rw (sweep_destination, e) at h in
          (elim (sweep_found (env.get_signed_document key) (p, [])
            (λ ref. sweep_reference env requester mode key ref p) h1) [
              | inl (ref, stored, swept) ↦
                  sweep_reference-Lawful env requester mode key ref p swept stored (dest, href, e)
                    lawful
              | inr kept ↦
                  subst (λ (y : Progress × List PostProcess). Lawful env requester y.0) kept lawful
            ])
    ]

sweep_destinations-Lawful :
    (env : Env) (requester : Entity) (mode : CommitMode) (href : String) (dests : List String)
    (p : Progress) {x : Progress × List PostProcess}
    → sweep_destinations env requester mode (reference_segment env href) dests p ≡ ok x
    → Lawful env requester p
    → Lawful env requester x.0
unfolding sweep_destinations
sweep_destinations-Lawful env requester mode href [] p h lawful =
    subst (λ (y : Progress × List PostProcess). Lawful env requester y.0) (ok-injective h) lawful
sweep_destinations-Lawful env requester mode href (dest ∷ dests) p h lawful =
    let ((p1, removed), first, h1) =
      >>=-eq-ok (sweep_destination env requester mode (reference_segment env href) dest p) _ h in
    let ((p2, rest), later, done) =
      >>=-eq-ok (sweep_destinations env requester mode (reference_segment env href) dests p1) _
        h1 in
    subst (λ (y : Progress × List PostProcess). Lawful env requester y.0) (ok-injective done)
      (sweep_destinations-Lawful env requester mode href dests p1 later
        (sweep_destination-Lawful env requester mode href dest p first lawful))

-- The sweep of the references to one target.
pub sweep_distributions-Lawful :
    (env : Env) (requester : Entity) (mode : CommitMode) (t : Target) (p : Progress)
    {x : Progress × List PostProcess}
    → sweep_distributions env requester mode t p ≡ ok x
    → Lawful env requester p
    → Lawful env requester x.0
unfolding sweep_distributions
sweep_distributions-Lawful env requester mode t p h lawful =
    let (href, _, swept) = >>=-eq-ok (href_of env t) _ h in
    sweep_destinations-Lawful env requester mode href (distributions t.doc.distributes) p swept
      lawful
