-- ===== src/Record/Create.antt =====
-- internal/usecase/record/record.go: the operation of record documents.
pub mod Admitted
pub mod Listed
use concrnt.Prelude.{
  ℕ, String, Bool, true, false, not, ◌&&◌, List, [], ◌∷◌, ◌++◌, Option, none, some, ltb, str_eq,
  if◌then◌else◌,
}
use concrnt.Prelude.Int.{ℤ}
use concrnt.Prelude.Outcome.{Outcome, ok, err, panic, ◌>>=◌}
use Prim.Native.String
use concrnt.Uri.{CcUri, has_char}
use concrnt.Document.{
  Document, SignedDocument, references_of, find_reference, text_of, no_reference, reference,
}
use concrnt.Verify.{reference_url}
use concrnt.Commit.{
  CommitMode, Entity, CommitError, Result, check, validation, not_found, malformed_document,
  malformed_uri, distributions,
}
use concrnt.Record.{
  Env, RecordRow, Write, create_commit_log, create_record, write, ApplyResult, nothing_applied,
  Event, PostProcess, publish, parse_uri, parse_document, document_id, ccfs_uri, with_cckv,
  with_ccfs,
}
use concrnt.Record.Deliver.{is_execute, create_reference_distribution_actions}

-- internal/domain/commit.go: MaxRecordKeySize
abbrev pub max_record_key_size : ℕ
max_record_key_size = 1024

-- the action and the document that the policies judge: those of an update, if there is a record
unfoldable pub policy_subject : Env → Document → Result (String × Document)
unfolding parse_document
policy_subject env doc = elim (env.get_signed_document doc.key) [
  | ok existing ↦ (parse_document env existing >>= λ d. ok ("record:update", d))
  | err not_found ↦ ok ("record:create", doc)
  | err e ↦ err e
  | panic ↦ panic
]

-- the checks of a record's key
unfoldable pub check_key : CcUri → Result (Unit {0})
check_key key = check (str_eq key.scheme "cckv") malformed_uri >>= λ _.
    check (not (has_char key.key b'*')) (validation "key") >>= λ _.
    check (not (str_eq key.key "")) (validation "key") >>= λ _.
    check (not (ltb max_record_key_size (String.len key.key))) (validation "key")

-- what a row is listed under: its schema, its instant and where it redirects to
pub record Listing : Type 0 where
  pub schema : String
  pub created_at : ℤ
  pub redirect : Option String

abbrev pub or_default : {A : Type 0} → A → Option A → A
or_default a none = a
or_default a (some b) = b

-- those of the document that a reference refers to, where it is known
unfoldable pub listing_of : Env → SignedDocument → Document → Result Listing
unfolding parse_document
listing_of env sd doc =
    if str_eq doc.schema reference_url
    then elim (env.reference_value (text_of sd)) [
      | none ↦ err malformed_document
      | some v ↦ elim (find_reference (references_of sd) v.href) [
        | none ↦ ok (record {
          schema = or_default doc.schema v.schema;
          created_at = or_default doc.created_at v.created_at;
          redirect = some v.href;
        })
        | some target ↦
            (parse_document env target >>= λ d.
            ok (record { schema = d.schema; created_at = d.created_at; redirect = some v.href }))
      ]
    ]
    else ok (record { schema = doc.schema; created_at = doc.created_at; redirect = none })

abbrev pub created_event : String → SignedDocument → Event
created_event uri sd = record {
  event_type = "created";
  uri = uri;
  association = none;
  references = reference uri sd no_reference;
}

-- What is left to do after an applied record; the event has the addresses that the document gets.
unfoldable pub record_post_processes :
    Env
    → String
    → Entity
    → Document
    → SignedDocument
    → CommitMode
    → String
    → Result (List PostProcess)
unfolding create_reference_distribution_actions
record_post_processes env ip requester doc sd mode ccfs =
    if is_execute mode
    then (create_reference_distribution_actions env ip doc.author doc.key requester sd
          (distributions doc.distributes) mode
        >>= λ actions. ok (
            publish doc.key (created_event doc.key (with_ccfs ccfs (with_cckv doc.key sd)))
            ∷ actions))
    else ok []

abbrev pub record_row : String → Document → CcUri → Listing → RecordRow
record_row id doc key listing = record {
  id = id;
  key = doc.key;
  owner = key.owner;
  author = doc.author;
  schema = listing.schema;
  on_update = doc.on_update;
  policies = doc.policy;
  distributions = distributions doc.distributes;
  redirect = listing.redirect;
  created_at = listing.created_at;
}

-- the writes of createRecord
unfoldable pub store_record :
    Env
    → String
    → Entity
    → Document
    → SignedDocument
    → CommitMode
    → CcUri
    → Listing
    → Result ApplyResult
unfolding write document_id record_post_processes ccfs_uri
store_record env ip requester doc sd mode key listing = document_id env sd >>= λ id.
    write env [] (create_commit_log id key.owner) >>= λ (log, _).
    write env log (create_record (record_row id doc key listing)) >>= λ (log', applied).
    (if applied
      then (record_post_processes env ip requester doc sd mode (ccfs_uri key.owner id) >>= λ posts.
          ok (record { writes = log'; noop = false; post_processes = posts }))
      else ok (nothing_applied log'))

-- createRecord
unfoldable pub create_record_op :
    Env → String → Entity → Document → SignedDocument → CommitMode → Result ApplyResult
unfolding policy_subject parse_uri check_key listing_of store_record
create_record_op env ip requester doc sd mode = env.hierarchical_policies doc.key >>= λ stack.
    policy_subject env doc >>= λ (action, self).
    env.permits (some requester) self stack action doc.key >>= λ _. parse_uri env doc.key >>= λ key.
    check_key key >>= λ _.
    listing_of env sd doc >>= λ listing. store_record env ip requester doc sd mode key listing
