-- ===== src/Record/Acknowledge.antt =====
-- internal/usecase/record/ack.go: the operation of acks, unacks and what is derived from them.
pub mod Sides
use concrnt.Prelude.{
  String, Bool, true, not, ◌&&◌, ◌||◌, List, [], ◌∷◌, ◌++◌, none, some, str_eq, if◌then◌else◌,
}
use concrnt.Prelude.Outcome.{ok, err, ◌>>=◌}
use concrnt.Document.{
  Document, SignedDocument, signed, References, no_reference, reference, derive_acked,
}
use concrnt.Commit.{CommitMode, Entity, Result, malformed_document, distributions, is_acked_kind}
use concrnt.Record.{
  Env, Write, create_commit_log, acknowledge, unacknowledge, acknowledged, unacknowledged, write,
  ApplyResult, PostProcess, enqueue, commit_payload, commit_remotely, document_id, ccfs_uri,
  with_ccfs, entity_cckv, entity_cckv_with_hint,
}
use concrnt.Record.Entities.{is_local_entity}
use concrnt.Record.Read.{get_signed}
use concrnt.Record.Deliver.{is_execute, deref, create_reference_distribution_actions}

abbrev pub is_ack_kind : Document → Bool
is_ack_kind doc = str_eq doc.kind "ack" || str_eq doc.kind "unack"

-- the commit log of the side that holds the document; no other kind is logged
unfoldable pub log_ack : Env → Entity → Entity → Document → String → Result (List Write)
unfolding write
log_ack env from to doc id =
    if is_ack_kind doc
    then (write env [] (create_commit_log id from.id) >>= λ (log, _). ok log)
    else if is_acked_kind doc
    then (write env [] (create_commit_log id to.id) >>= λ (log, _). ok log)
    else ok []

abbrev pub ack_write : Entity → Entity → Document → String → Write
ack_write from to doc id =
    if str_eq doc.kind "ack"
    then acknowledge id from.id to.id doc.schema doc.created_at
    else unacknowledge id from.id to.id doc.schema doc.created_at

abbrev pub acked_write : Entity → Entity → Document → String → Write
acked_write from to doc id =
    if str_eq doc.kind "acked"
    then acknowledged id from.id to.id doc.schema doc.created_at
    else unacknowledged id from.id to.id doc.schema doc.created_at

abbrev pub with_references : References → SignedDocument → SignedDocument
with_references refs (signed cckv ccfs text p old public) = signed cckv ccfs text p refs public

-- the delivery of the derived document to the server of the other side
unfoldable pub acked_delivery :
    Env → String → Entity → Entity → SignedDocument → CommitMode → Result (List PostProcess)
unfolding get_signed
acked_delivery env ip from to acked mode =
    if is_execute mode && env.has_jobs
    then (get_signed env env.reader (entity_cckv_with_hint from) >>= λ from_sd.
        deref from_sd >>= λ inlined. ok (
          enqueue (record {
            resolve_uri = entity_cckv_with_hint to;
            host = "";
            payload = with_references (reference (entity_cckv env from) inlined no_reference) acked;
            local = commit_payload;
            remote = commit_remotely;
            event = none;
            ip = ip;
          })
          ∷ []))
    else ok []

-- what is left to do after an ack or unack
unfoldable pub ack_post_processes :
    Env
    → String
    → Entity
    → Entity
    → Document
    → SignedDocument
    → CommitMode
    → String
    → Result (List PostProcess)
unfolding create_reference_distribution_actions acked_delivery derive_acked ccfs_uri
ack_post_processes env ip from to doc sd mode id =
    let ccfs = ccfs_uri from.id id in
    create_reference_distribution_actions env ip doc.author ccfs from (with_ccfs ccfs sd)
      (distributions doc.distributes) mode
    >>= λ references. (elim (derive_acked env.kit.codec (with_ccfs ccfs sd)) [
      | none ↦ err malformed_document
      | some acked ↦
          (acked_delivery env ip from to acked mode >>= λ deliveries. ok (references ++ deliveries))
    ])

-- the author's side
unfoldable pub apply_ack :
    Env
    → String
    → Entity
    → Entity
    → Document
    → SignedDocument
    → CommitMode
    → String
    → List Write
    → Result ApplyResult
unfolding write ack_post_processes
apply_ack env ip from to doc sd mode id log =
    if is_local_entity env from && is_ack_kind doc
    then (write env log (ack_write from to doc id) >>= λ (log', created).
        ack_post_processes env ip from to doc sd mode id >>= λ posts.
        ok (record { writes = log'; noop = not created; post_processes = posts }))
    else ok (record { writes = log; noop = true; post_processes = [] })

-- the side of the one who is acknowledged
unfoldable pub apply_acked :
    Env → Entity → Entity → Document → String → ApplyResult → Result ApplyResult
unfolding write
apply_acked env from to doc id result =
    if is_local_entity env to && is_acked_kind doc
    then (write env result.writes (acked_write from to doc id) >>= λ (log, created).
        ok (record result { writes = log; noop = not created }))
    else ok result

-- processAck
unfoldable pub process_ack_op :
    Env → String → Entity → Entity → Document → SignedDocument → CommitMode → Result ApplyResult
unfolding document_id log_ack apply_ack apply_acked
process_ack_op env ip from to doc sd mode = document_id env sd >>= λ id.
    log_ack env from to doc id >>= λ log.
    apply_ack env ip from to doc sd mode id log >>= λ result. apply_acked env from to doc id result
