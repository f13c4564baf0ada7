-- ===== src/Record/Remove.antt =====
-- internal/usecase/record/delete.go: the operation of deletions.
pub mod Choose
pub mod Sweep
pub mod Signal
pub mod Permission
use concrnt.Prelude.{
  ℕ, String, Bool, true, false, not, ◌&&◌, ◌||◌, List, [], ◌∷◌, ◌++◌, Option, none, some, str_eq,
  if◌then◌else◌,
}
use concrnt.Prelude.Outcome.{Outcome, ok, err, panic, ◌>>=◌}
use concrnt.Uri.{CcUri, ccfs_type_concrnt}
use concrnt.Document.{Document, SignedDocument, text_of}
use concrnt.Commit.{
  CommitMode, Entity, CommitError, Result, check, malformed_document, unsupported_target,
}
use concrnt.Record.{
  Env, Write, create_commit_log, delete_record_by_key, delete_record_by_id, delete_association,
  mark_gc_candidate, write, ApplyResult, nothing_applied, PostProcess, note_removed, parse_uri,
  document_id,
}
use concrnt.Record.Target.{RangeTarget, parse_range_delete_target}
use concrnt.Record.Read.{is_association}
use concrnt.Record.Deliver.{is_execute}
use concrnt.Record.Remove.Choose.{Target, targets_of, permit_targets}
use concrnt.Record.Remove.Sweep.{Progress, flag_deleted, sweep_distributions, timeline_of}
use concrnt.Record.Remove.Signal.{delete_signals}

-- the removal of a record, by its key or its id
unfoldable pub remove_record : Env → String → List Write → Result (List Write)
unfolding write parse_uri
remove_record env uri log = parse_uri env uri >>= λ parsed.
    (if str_eq parsed.scheme "cckv"
      then (write env log (delete_record_by_key uri) >>= λ (log', _). ok log')
      else if str_eq parsed.scheme "ccfs" && str_eq parsed.type_name ccfs_type_concrnt
      then (write env log (delete_record_by_id parsed.cdid) >>= λ (log', _). ok log')
      else err unsupported_target)

-- the removal of an association, by its id
unfoldable pub remove_association : Env → String → List Write → Result (List Write)
unfolding write parse_uri
remove_association env uri log = parse_uri env uri >>= λ parsed.
    (if str_eq parsed.scheme "ccfs" && str_eq parsed.type_name ccfs_type_concrnt
      then (write env log (delete_association parsed.cdid) >>= λ (log', _). ok log')
      else err unsupported_target)

-- the `switch targetDoc.Kind`, with the item that leaves a timeline
unfoldable pub remove_target :
    Env → CommitMode → Target → Progress → Result (Progress × List PostProcess)
unfolding remove_record remove_association flag_deleted timeline_of
remove_target env mode t p =
    if str_eq t.doc.kind "record"
    then (timeline_of env mode t >>= λ removed. remove_record env t.uri p.log >>= λ log.
        flag_deleted env t.sd t.doc.on_update (record p { log = log }) >>= λ p'. ok (p', removed))
    else if is_association t.doc
    then (remove_association env t.uri p.log >>= λ log.
        flag_deleted env t.sd none (record p { log = log }) >>= λ p'. ok (p', []))
    else err unsupported_target

-- One round of the loop over the targets: the target itself, its references at its destinations,
-- and the signals of it.
unfoldable pub delete_one :
    Env
    → Entity
    → SignedDocument
    → CommitMode
    → Bool
    → Target
    → Progress
    → Result (Progress × List PostProcess)
unfolding remove_target sweep_distributions delete_signals
delete_one env requester sd mode authoritative t p =
    (if authoritative then remove_target env mode t p else ok (p, [])) >>= λ (p1, removed).
    sweep_distributions env requester mode t p1 >>= λ (p2, swept).
    (if is_execute mode
      then (delete_signals env sd authoritative t >>= λ signals.
          ok (p2, swept ++ (removed ++ signals)))
      else ok (p2, swept))

unfoldable pub delete_all :
    Env
    → Entity
    → SignedDocument
    → CommitMode
    → Bool
    → List Target
    → Progress
    → Result (Progress × List PostProcess)
unfolding delete_one
delete_all env requester sd mode authoritative [] p = ok (p, [])
delete_all env requester sd mode authoritative (t ∷ ts) p =
    delete_one env requester sd mode authoritative t p >>= λ (p1, posts).
    delete_all env requester sd mode authoritative ts p1 >>= λ (p2, rest). ok (p2, posts ++ rest)

-- The end: a deletion that removed nothing changes nothing, and one that nothing asks to retain
-- may be forgotten.
unfoldable pub conclude : Env → String → Progress → List PostProcess → Result ApplyResult
unfolding write
conclude env id p posts =
    if not p.deleted_any
    then ok (nothing_applied p.log)
    else if p.retained
    then ok (record { writes = p.log; noop = false; post_processes = posts })
    else (write env p.log (mark_gc_candidate id) >>= λ (log, _).
        ok (record { writes = log; noop = false; post_processes = posts }))

-- from the commit log on
unfoldable pub delete_targets :
    Env → Entity → SignedDocument → CommitMode → Bool → String → List Target → Result ApplyResult
unfolding write parse_uri document_id delete_all conclude
delete_targets env requester sd mode authoritative base targets = document_id env sd >>= λ id.
    parse_uri env base >>= λ parsed.
    write env [] (create_commit_log id parsed.owner) >>= λ (log, _).
    delete_all env requester sd mode authoritative targets
      (record { log = log; deleted_any = false; retained = false })
    >>= λ (p, posts). conclude env id p posts

abbrev pub no_targets : List Target → Bool
no_targets [] = true
no_targets (t ∷ ts) = false

-- deleteRecord
unfoldable pub delete_record_op : Env → Entity → SignedDocument → CommitMode → Result ApplyResult
unfolding parse_range_delete_target targets_of permit_targets delete_targets
delete_record_op env requester sd mode =
    (elim (env.kit.codec.decode_string (text_of sd)) [
      | none ↦ err malformed_document
      | some v ↦ ok v
    ])
    >>= λ raw. parse_range_delete_target env raw >>= λ range.
        env.resolve_resource_host raw >>= λ host.
        let authoritative = str_eq host env.fqdn in
        targets_of env sd raw range authoritative >>= λ targets.
        (if not authoritative && no_targets targets
          then ok (nothing_applied [])
          else ((if authoritative then permit_targets env requester targets else ok tt) >>= λ _.
              delete_targets env requester sd mode authoritative range.base targets))
