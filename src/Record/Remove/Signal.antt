-- ===== src/Record/Remove/Signal.antt =====
-- internal/usecase/record/delete.go: the deliveries that tell of a deletion.
use concrnt.Prelude.{String, Bool, List, [], ◌∷◌, ◌++◌, none, some, if◌then◌else◌, map}
use concrnt.Prelude.Outcome.{ok, err, ◌>>=◌}
use concrnt.Document.{
  SignedDocument, signed, References, references_of, find_reference, text_of, proof_of,
  no_reference, reference,
}
use concrnt.Commit.{Result, missing_target, distributions}
use concrnt.Record.{
  Env, Event, PostProcess, enqueue, publish_event, commit_remotely, remote_none, parse_document,
  two_references,
}
use concrnt.Record.Remove.Choose.{Target}

abbrev pub delete_event : String → String → Event
delete_event event_type uri = record {
  event_type = event_type;
  uri = uri;
  association = none;
  references = no_reference;
}

-- Only the server of the targets sends the deletion on.
abbrev pub delete_job : Bool → SignedDocument → References → Event → String → PostProcess
delete_job authoritative sd inlined event dest = enqueue (record {
  resolve_uri = dest;
  host = "";
  payload = signed none none (text_of sd) (proof_of sd) inlined none;
  local = publish_event;
  remote = if authoritative then commit_remotely else remote_none;
  event = some event;
  ip = "";
})

-- the document that a deleted association was for
unfoldable pub associated_document : Env → SignedDocument → Bool → String → Result SignedDocument
unfolding find_reference
associated_document env sd authoritative uri =
    if authoritative
    then env.get_signed_document uri
    else elim (find_reference (references_of sd) uri) [
      | none ↦ err missing_target
      | some ref ↦ ok ref
    ]

-- the deliveries to what a deleted document was associated with
unfoldable pub unassociated_signals :
    Env → SignedDocument → Bool → Target → String → Result (List PostProcess)
unfolding associated_document parse_document
unassociated_signals env sd authoritative t uri =
    associated_document env sd authoritative uri >>= λ associated.
    parse_document env associated >>= λ doc. ok (
      map
        (delete_job authoritative sd (two_references t.uri t.sd uri associated)
          (delete_event "unassociated" uri))
        (uri ∷ distributions doc.distributes))

unfoldable pub delete_signals : Env → SignedDocument → Bool → Target → Result (List PostProcess)
unfolding unassociated_signals
delete_signals env sd authoritative t =
    (elim t.doc.associate [
      | none ↦ ok []
      | some uri ↦ unassociated_signals env sd authoritative t uri
    ])
    >>= λ unassociated. ok (
        map
          (delete_job authoritative sd (reference t.uri t.sd no_reference)
            (delete_event "deleted" t.uri))
          (t.uri ∷ distributions t.doc.distributes)
        ++ unassociated)
