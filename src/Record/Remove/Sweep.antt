-- ===== src/Record/Remove/Sweep.antt =====
-- internal/usecase/record/delete.go: the reference records that a distribution left on this server.
use concrnt.Prelude.{
  String, Bool, true, false, ◌&&◌, List, [], ◌∷◌, ◌++◌, Option, none, some, str_eq, if◌then◌else◌,
}
use concrnt.Prelude.Outcome.{ok, err, panic, ◌>>=◌}
use concrnt.Document.{Document, SignedDocument}
use concrnt.Commit.{
  CommitMode, Entity, Result, not_found, permission_denied, unsupported_target, distributions,
}
use concrnt.Record.{
  Env, Write, delete_record_by_key, mark_gc_candidate, write, PostProcess, note_removed, parse_uri,
  parse_document, document_id, ccfs_uri,
}
use concrnt.Record.Read.{policy_delete_action}
use concrnt.Record.Query.{cckv_of}
use concrnt.Record.Deliver.{is_execute, reference_segment}
use concrnt.Record.Remove.Choose.{Target}

-- the writes so far, `deletedAny` and `deleteRetained`
pub record Progress : Type 0 where
  pub log : List Write
  pub deleted_any : Bool
  pub retained : Bool

abbrev pub is_retained : Option String → Bool
is_retained none = false
is_retained (some s) = str_eq s "retain"

-- flagDeleted
unfoldable pub flag_deleted : Env → SignedDocument → Option String → Progress → Result Progress
unfolding write document_id
flag_deleted env sd on_update p =
    if is_retained on_update
    then ok (record p { deleted_any = true; retained = true })
    else (document_id env sd >>= λ id. write env p.log (mark_gc_candidate id) >>= λ (log, _).
        ok (record p { log = log; deleted_any = true }))

-- the item that leaves a timeline; a failure to find it is not one
unfoldable pub removal_at : Env → CommitMode → String → Result (List PostProcess)
removal_at env mode key =
    if is_execute mode && env.has_kvs
    then elim (env.timeline_removal key) [
      | err e ↦ ok []
      | panic ↦ panic
      | ok (timeline, id) ↦ ok (if str_eq timeline "" then [] else note_removed timeline id ∷ [])
    ]
    else ok []

unfoldable pub timeline_of : Env → CommitMode → Target → Result (List PostProcess)
unfolding removal_at
timeline_of env mode t = elim (cckv_of t.sd) [ none ↦ ok [] | some key ↦ removal_at env mode key ]

-- `href`: what the references of a target refer to
unfoldable pub href_of : Env → Target → Result String
unfolding parse_uri document_id ccfs_uri
href_of env t = if str_eq t.doc.kind "record" then ok t.doc.key else elim t.doc.associate [
  | none ↦ err unsupported_target
  | some target ↦
      (parse_uri env target >>= λ parsed.
      document_id env t.sd >>= λ id. ok (ccfs_uri parsed.owner id))
]

-- the reference at one destination, once it is found and may be deleted
unfoldable pub remove_reference :
    Env
    → CommitMode
    → String
    → SignedDocument
    → Document
    → Progress
    → Result (Progress × List PostProcess)
unfolding write removal_at flag_deleted
remove_reference env mode key ref doc p = removal_at env mode key >>= λ removed.
    write env p.log (delete_record_by_key key) >>= λ (log, _).
    flag_deleted env ref doc.on_update (record p { log = log }) >>= λ p'. ok (p', removed)

-- what the policies of a reference lead to
abbrev pub if_permitted : {A : Type 0} → Result (Unit {0}) → A → Result A → Result A
if_permitted (ok u) kept removed = removed
if_permitted (err permission_denied) kept removed = ok kept
if_permitted (err e) kept removed = err e
if_permitted panic kept removed = panic

unfoldable pub sweep_reference :
    Env
    → Entity
    → CommitMode
    → String
    → SignedDocument
    → Progress
    → Result (Progress × List PostProcess)
unfolding parse_document remove_reference
sweep_reference env requester mode key ref p = parse_document env ref >>= λ doc.
    env.hierarchical_policies key >>= λ stack.
    if_permitted (env.permits (some requester) doc stack (policy_delete_action doc) key) (p, [])
      (remove_reference env mode key ref doc p)

-- one round of the loop over the destinations
unfoldable pub sweep_destination :
    Env → Entity → CommitMode → String → String → Progress → Result (Progress × List PostProcess)
unfolding sweep_reference
sweep_destination env requester mode segment dest p = elim (env.join_path dest segment) [
  | none ↦ ok (p, [])
  | some key ↦ elim (env.get_signed_document key) [
    | err not_found ↦ ok (p, [])
    | err e ↦ err e
    | panic ↦ panic
    | ok ref ↦ sweep_reference env requester mode key ref p
  ]
]

unfoldable pub sweep_destinations :
    Env
    → Entity
    → CommitMode
    → String
    → List String
    → Progress
    → Result (Progress × List PostProcess)
unfolding sweep_destination
sweep_destinations env requester mode segment [] p = ok (p, [])
sweep_destinations env requester mode segment (dest ∷ dests) p =
    sweep_destination env requester mode segment dest p >>= λ (p1, removed).
    sweep_destinations env requester mode segment dests p1 >>= λ (p2, rest).
    ok (p2, removed ++ rest)

unfoldable pub sweep_distributions :
    Env → Entity → CommitMode → Target → Progress → Result (Progress × List PostProcess)
unfolding href_of sweep_destinations reference_segment
sweep_distributions env requester mode t p = href_of env t >>= λ href.
    sweep_destinations env requester mode (reference_segment env href)
      (distributions t.doc.distributes) p
