-- ===== src/Record/Associate.antt =====
-- internal/usecase/record/association.go: the operation of association documents.
pub mod Stored
use concrnt.Prelude.{
  ℕ, String, Bool, true, false, not, List, [], ◌∷◌, ◌++◌, Option, none, some, ltb, str_eq,
  if◌then◌else◌, map,
}
use concrnt.Prelude.Outcome.{ok, err, panic, ◌>>=◌}
use concrnt.Prelude.Text.{concat}
use Prim.Native.String
use concrnt.Document.{
  Document, SignedDocument, signed, References, references_of, find_reference, text_of, proof_of,
  no_reference, reference,
}
use concrnt.Verify.{verify}
use concrnt.Commit.{
  CommitMode, Entity, Result, check, validation, malformed_document, malformed_uri, missing_target,
  unverified_target, distributions,
}
use concrnt.Record.{
  Env, Write, create_commit_log, create_association, write, ApplyResult, nothing_applied, Event,
  PostProcess, enqueue_marked, DeliveryJob, publish_event, commit_remotely, remote_none, parse_uri,
  parse_document, document_id, ccfs_uri, with_ccfs, entity_cckv, entity_cckv_with_hint,
  two_references,
}
use concrnt.Record.Entities.{is_local_entity_by_ccid}
use concrnt.Record.Read.{get_signed, policy_create_action}
use concrnt.Record.Deliver.{is_execute, deref, create_reference_distribution_actions}

-- internal/domain/commit.go: MaxAssociationVariantSize
abbrev pub max_association_variant_size : ℕ
max_association_variant_size = 512

abbrev pub check_variant : Option String → Result (Unit {0})
check_variant none = ok tt
check_variant (some v) =
    check (not (ltb max_association_variant_size (String.len v))) (validation "associationVariant")

-- `*p` of a pointer to a text
abbrev pub deref_text : Option String → Result String
deref_text none = panic
deref_text (some s) = ok s

abbrev pub or_empty : Option String → String
or_empty none = ""
or_empty (some s) = s

-- `uniqueKey`, whose hash keeps an association from being stored twice
abbrev pub unique_key : Document → String → String → String
unique_key doc target body =
    concat target
      (concat doc.author (concat doc.schema (concat (or_empty doc.association_variant) body)))

-- The document that an association is for and the channels to tell of it: the stored document, or
-- else the inlined one, if its signature holds.
unfoldable pub signal_target : Env → String → SignedDocument → Result (SignedDocument × List String)
unfolding parse_document verify
signal_target env target sd = elim (env.get_signed_document target) [
  | ok stored ↦ (env.distributions_of target >>= λ ds. ok (stored, target ∷ ds))
  | panic ↦ panic
  | err e ↦ elim (find_reference (references_of sd) target) [
    | none ↦ err missing_target
    | some ref ↦ elim (verify env.kit ref) [
      | err e' ↦ err unverified_target
      | panic ↦ panic
      | ok u ↦ (parse_document env ref >>= λ d. ok (ref, target ∷ distributions d.distributes))
    ]
  ]
]

abbrev pub associated_event : String → String → SignedDocument → Event
associated_event target ccfs sd = record {
  event_type = "associated";
  uri = target;
  association = some ccfs;
  references = reference ccfs sd no_reference;
}

-- the delivery for one channel; the payload inlines the requester and the target
abbrev pub association_job : Bool → References → SignedDocument → Event → String → DeliveryJob
association_job is_local inlined sd event channel = record {
  resolve_uri = channel;
  host = "";
  payload = signed none none (text_of sd) (proof_of sd) inlined none;
  local = publish_event;
  remote = if is_local then commit_remotely else remote_none;
  event = some event;
  ip = "";
}

-- the `signal` part
unfoldable pub association_signals :
    Env
    → Entity
    → Option SignedDocument
    → String
    → String
    → SignedDocument
    → CommitMode
    → Bool
    → Result (List PostProcess)
unfolding signal_target
association_signals env requester requester_sd target ccfs sd mode is_local =
    if is_execute mode
    then (signal_target env target sd >>= λ (target_sd, channels). deref requester_sd >>= λ inlined.
        ok (
          map
            (λ channel. enqueue_marked (
              association_job is_local
                (two_references (entity_cckv env requester) inlined target target_sd) sd
                (associated_event target ccfs (with_ccfs ccfs sd)) channel))
            channels))
    else ok []

-- the part that the owner's server does: the writes, and whether the association is new
unfoldable pub store_association :
    Env → Document → SignedDocument → String → String → String → Result (List Write × Bool)
unfolding write
store_association env doc sd id owner target =
    (elim (env.value_bytes (text_of sd)) [ none ↦ err malformed_document | some b ↦ ok b ])
    >>= λ body. write env [] (create_commit_log id owner) >>= λ (log, _). write env log (
        create_association (record {
          id = id;
          target = target;
          owner = owner;
          author = doc.author;
          schema = doc.schema;
          variant = doc.association_variant;
          unique = env.hash_text (unique_key doc target body);
          created_at = doc.created_at;
        }))

-- from the choice of the server on
unfoldable pub apply_association :
    Env
    → String
    → Entity
    → Document
    → SignedDocument
    → CommitMode
    → String
    → String
    → String
    → Bool
    → Result ApplyResult
unfolding association_signals store_association get_signed create_reference_distribution_actions
    ccfs_uri
apply_association env ip requester doc sd mode target owner id is_local =
    let ccfs = ccfs_uri owner id in
    get_signed env env.reader (entity_cckv_with_hint requester) >>= λ requester_sd.
    (if is_local then store_association env doc sd id owner target else ok ([], true))
    >>= λ (log, applied).
        (if applied
          then ((if is_local
                then create_reference_distribution_actions env ip doc.author ccfs requester sd
                    (distributions doc.distributes) mode
                else ok [])
              >>= λ references.
                  association_signals env requester requester_sd target ccfs sd mode is_local
                  >>= λ signals. ok (record {
                    writes = log;
                    noop = false;
                    post_processes = references ++ signals;
                  }))
          else ok (nothing_applied log))

-- createAssociation
unfoldable pub create_association_op :
    Env → String → Entity → Document → SignedDocument → CommitMode → Result ApplyResult
unfolding parse_uri document_id is_local_entity_by_ccid apply_association
create_association_op env ip requester doc sd mode =
    check (str_eq doc.key "") (validation "key") >>= λ _.
    check_variant doc.association_variant >>= λ _. deref_text doc.associate >>= λ target.
    env.hierarchical_policies target >>= λ stack.
    env.permits (some requester) doc stack (policy_create_action doc) target >>= λ _.
    parse_uri env target >>= λ parsed. check (str_eq parsed.scheme "cckv") malformed_uri >>= λ _.
    document_id env sd >>= λ id. is_local_entity_by_ccid env parsed.owner >>= λ is_local.
    apply_association env ip requester doc sd mode target parsed.owner id is_local
