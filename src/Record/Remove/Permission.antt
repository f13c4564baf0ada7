-- ===== src/Record/Remove/Permission.antt =====
-- internal/usecase/record/delete.go: what a deletion may write.
pub mod Sweeping
pub mod Targets
pub mod Removal
pub mod Deletion
use concrnt.Prelude.{
  ◌≡◌, refl, sym, ◌∙◌, ap, String, Bool, true, false, ◌||◌, List, [], ◌∷◌, ◌++◌, Option, none, some,
  ◌⊎◌, inl, inr, All, All-append, Bool-cases, str_eq, if◌then◌else◌,
}
use concrnt.Prelude.Outcome.{Outcome, ok, err, panic, ◌>>=◌, >>=-eq-ok}
use mathlib.Core.Path.{subst}
use concrnt.Uri.{CcUri}
use concrnt.Document.{Document, SignedDocument, signed}
use concrnt.PolicyService.{DocumentPolicy}
use concrnt.Commit.{Entity, Result}
use concrnt.Commit.Guards.{ok-injective}
use concrnt.Record.{
  Env, Write, create_commit_log, create_entity, create_record, create_association, acknowledge,
  unacknowledge, acknowledged, unacknowledged, delete_record_by_key, delete_record_by_id,
  delete_association, mark_gc_candidate, write, parse_uri, parse_document,
}
use concrnt.Record.Deliver.{reference_segment}
use concrnt.Record.Query.{cckv_of}
use concrnt.Record.Remove.Sweep.{Progress}

-- a document is one of a list
abbrev pub Among : SignedDocument → List SignedDocument → Type 0
Among sd [] = ⊥
Among sd (sd' ∷ sds) = (sd ≡ sd') ⊎ Among sd sds

-- The server holds a document at an address: it is stored there, or it is in a subtree of what is
-- stored, under that key.
abbrev pub IsHeld : Env → String → SignedDocument → Type 0
IsHeld env uri sd =
    (env.get_signed_document uri ≡ ok sd)
    ⊎ ((base : String) × (include_self : Bool) × (sds : List SignedDocument) × (env.record_subtree
            base include_self
          ≡ ok sds)
        × Among sd sds
        × (cckv_of sd ≡ some uri))

-- The address is that of a reference to a document, at some destination.
abbrev pub IsReferenceKey : Env → String → Type 0
IsReferenceKey env uri =
    (dest : String) × (href : String) × (env.join_path dest (reference_segment env href) ≡ some uri)

-- Where the policies on a document come from: from what it is associated with, if it names that,
-- else from its own address; those on a swept reference from its own address.
abbrev pub IsRoot : Env → String → Document → String → Type 0
IsRoot env uri doc root =
    (root ≡ (elim doc.associate [ none ↦ uri | some associate ↦ associate ]))
    ⊎ ((root ≡ uri) × IsReferenceKey env uri)

-- the action that is judged
abbrev pub deletion_of : Document → String
deletion_of doc = if str_eq doc.kind "association" then "association:delete" else "record:delete"

-- The requester may delete what the server holds at an address.
pub record IsPermitted (env : Env) (requester : Entity) (uri : String) : Type 0 where
  pub sd : SignedDocument
  pub doc : Document
  pub root : String
  pub rooted : IsRoot env uri doc root
  pub stack : List DocumentPolicy
  pub held : IsHeld env uri sd
  pub parsed : parse_document env sd ≡ ok doc
  pub policies : env.hierarchical_policies root ≡ ok stack
  pub permitted : env.permits (some requester) doc stack (deletion_of doc) uri ≡ ok tt

-- A removal by id is of what is addressed by a URI with that id.
pub record IsAddressed (env : Env) (requester : Entity) (id : String) : Type 0 where
  pub uri : String
  pub parts : CcUri
  pub parsed : parse_uri env uri ≡ ok parts
  pub names : parts.cdid ≡ id
  pub permission : IsPermitted env requester uri

-- What a deletion may write: its own commit log, marks for the garbage collection, and removals
-- that are permitted.
abbrev pub IsAllowed : Env → Entity → Write → Type 0
IsAllowed env requester (delete_record_by_key key) = IsPermitted env requester key
IsAllowed env requester (delete_record_by_id id) = IsAddressed env requester id
IsAllowed env requester (delete_association id) = IsAddressed env requester id
IsAllowed env requester (create_commit_log id owner) = Unit
IsAllowed env requester (mark_gc_candidate id) = Unit
IsAllowed env requester _ = ⊥

-- the writes that remove something
abbrev pub is_removal : Write → Bool
is_removal (delete_record_by_key key) = true
is_removal (delete_record_by_id id) = true
is_removal (delete_association id) = true
is_removal _ = false

abbrev pub has_removal : List Write → Bool
has_removal [] = false
has_removal (w ∷ ws) = is_removal w || has_removal ws

-- The writes are allowed, and the flag says whether one of them is a removal.
pub record IsLawful (env : Env) (requester : Entity) (log : List Write) (flag : Bool) : Type 0 where
  pub allowed : All (IsAllowed env requester) log
  pub flagged : flag ≡ has_removal log

pub write-eq-ok :
    (env : Env) (log : List Write) (w : Write) {x : List Write × Bool}
    → write env log w ≡ ok x
    → x.0 ≡ log ++ (w ∷ [])
unfolding write
write-eq-ok env log w h =
    let (applied, _, done) = >>=-eq-ok (env.perform w) _ h in
    ap (λ y. y.0) (sym (ok-injective done))

pub write-All :
    (env : Env) (requester : Entity) (log : List Write) (w : Write) {x : List Write × Bool}
    → write env log w ≡ ok x
    → All (IsAllowed env requester) log
    → IsAllowed env requester w
    → All (IsAllowed env requester) x.0
write-All env requester log w h before new =
    subst (All (IsAllowed env requester)) (sym (write-eq-ok env log w h))
      (All-append _ log (w ∷ []) before (new, tt))

or_regroup : (a b c : Bool) → (a || (b || c)) ≡ ((a || b) || c)
or_regroup true b c = refl
or_regroup false b c = refl

or_false : (a : Bool) → (a || false) ≡ a
or_false true = refl
or_false false = refl

has_removal-append :
    (xs ys : List Write) → has_removal (xs ++ ys) ≡ (has_removal xs || has_removal ys)
has_removal-append [] ys = refl
has_removal-append (x ∷ xs) ys =
    ap (λ b. is_removal x || b) (has_removal-append xs ys)
    ∙ or_regroup (is_removal x) (has_removal xs) (has_removal ys)

pub write-has_removal :
    (env : Env) (log : List Write) (w : Write) {x : List Write × Bool}
    → write env log w ≡ ok x
    → has_removal x.0 ≡ (has_removal log || is_removal w)
write-has_removal env log w h =
    ap has_removal (write-eq-ok env log w h)
    ∙ has_removal-append log (w ∷ [])
    ∙ ap (λ b. has_removal log || b) (or_false (is_removal w))

or_true : (a : Bool) → (a || true) ≡ true
or_true true = refl
or_true false = refl

-- After a removal, the list has one.
pub write-removed :
    (env : Env) (log : List Write) (w : Write) {x : List Write × Bool}
    → write env log w ≡ ok x
    → is_removal w ≡ true
    → has_removal x.0 ≡ true
write-removed env log w h removes =
    write-has_removal env log w h
    ∙ ap (λ b. has_removal log || b) removes
    ∙ or_true (has_removal log)

-- Another write leaves the answer.
pub write-kept :
    (env : Env) (log : List Write) (w : Write) {x : List Write × Bool}
    → write env log w ≡ ok x
    → is_removal w ≡ false
    → has_removal x.0 ≡ has_removal log
write-kept env log w h removes =
    write-has_removal env log w h
    ∙ ap (λ b. has_removal log || b) removes
    ∙ or_false (has_removal log)
