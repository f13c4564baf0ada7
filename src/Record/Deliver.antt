-- ===== src/Record/Deliver.antt =====
-- internal/usecase/record/deliver.go: references for the destinations of a document, and deliveries.
use concrnt.Prelude.{
  String, Bool, true, false, not, ◌||◌, List, [], ◌∷◌, Option, none, some, str_eq, if◌then◌else◌,
}
use concrnt.Prelude.Chars.{text_of_codes}
use concrnt.Prelude.Outcome.{ok, err, panic, ◌>>=◌}
use concrnt.Prelude.Text.{codes}
use concrnt.Cdid
use concrnt.Document.{proof, no_proof, SignedDocument, signed, proof_type_document_reference}
use concrnt.Commit.{CommitMode, Entity, Result, malformed_document, validation}
use concrnt.Record.{
  Env, Event, DeliveryJob, local_none, publish_event, commit_payload, remote_none, commit_remotely,
  PostProcess, enqueue, entity_cckv, entity_cckv_with_hint, two_references,
}
use concrnt.Record.Read.{get_signed}

-- `mode == domain.CommitModeExecute`
abbrev pub is_execute : CommitMode → Bool
is_execute CommitMode.execute = true
is_execute _ = false

-- `cdid.MakeHash([]byte(href)).String()`
unfoldable pub reference_segment : Env → String → String
unfolding text_of_codes
reference_segment env href =
    text_of_codes (Cdid.to_string (Cdid.make_hash env.kit.crypto.keccak (codes href)))

-- `*p` of a pointer to a document
abbrev pub deref : Option SignedDocument → Result SignedDocument
deref none = panic
deref (some sd) = ok sd

-- the job for one destination: its reference document, with what it refers to inlined
unfoldable pub distribution_job :
    Env → String → String → SignedDocument → Entity → SignedDocument → String → String → DeliveryJob
distribution_job env ip href sd requester requester_sd dest text = record {
  resolve_uri = dest;
  host = "";
  payload =
      signed none none text
        (proof proof_type_document_reference none (some href) none none no_proof)
        (two_references (entity_cckv env requester) requester_sd href sd) none;
  local = commit_payload;
  remote = commit_remotely;
  event = none;
  ip = ip;
}

-- the loop of createReferenceDistributionActions: a destination that cannot be joined is left out
unfoldable pub distribution_actions :
    Env
    → String
    → String
    → String
    → SignedDocument
    → Entity
    → Option SignedDocument
    → List String
    → Result (List PostProcess)
unfolding distribution_job reference_segment
distribution_actions env ip author href sd requester requester_sd [] = ok []
distribution_actions env ip author href sd requester requester_sd (dest ∷ dests) =
    let rest = distribution_actions env ip author href sd requester requester_sd dests in
    elim (env.join_path dest (reference_segment env href)) [
      | none ↦ rest
      | some key ↦ elim (env.reference_text key href author env.now) [
        | none ↦ err malformed_document
        | some text ↦
            (deref requester_sd >>= λ inlined. rest >>= λ actions.
            ok (enqueue (distribution_job env ip href sd requester inlined dest text) ∷ actions))
      ]
    ]

abbrev pub is_empty : {A : Type 0} → List A → Bool
is_empty [] = true
is_empty (x ∷ xs) = false

-- createReferenceDistributionActions
unfoldable pub create_reference_distribution_actions :
    Env
    → String
    → String
    → String
    → Entity
    → SignedDocument
    → List String
    → CommitMode
    → Result (List PostProcess)
unfolding distribution_actions get_signed
create_reference_distribution_actions env ip author href requester sd dests mode =
    if not (is_execute mode) || is_empty dests
    then ok []
    else (get_signed env env.reader (entity_cckv_with_hint requester) >>= λ requester_sd.
        distribution_actions env ip author href sd requester requester_sd dests)

-- What a delivery does besides resolving its destination: publish an event on a channel, commit
-- the payload here, or send it to a host.
pub data Effect : Type 0 where
  published : String → Event → Effect
  committed : String → SignedDocument → Effect
  sent : String → SignedDocument → Effect

-- the host of a job's destination
unfoldable pub resolve_host : Env → DeliveryJob → Result String
resolve_host env job =
    if str_eq job.resolve_uri "" then ok job.host else env.resolve_resource_host job.resolve_uri

-- the branch of Deliver for this server
unfoldable pub deliver_here : DeliveryJob → Result (List Effect)
deliver_here job = elim job.local [
  | local_none ↦ ok []
  | commit_payload ↦ ok (committed job.ip job.payload ∷ [])
  | publish_event ↦ elim job.event [
    | none ↦ err (validation "event")
    | some event ↦ ok (published job.resolve_uri event ∷ [])
  ]
]

-- Deliver
unfoldable pub deliver : Env → DeliveryJob → Result (List Effect)
unfolding resolve_host deliver_here
deliver env job = resolve_host env job >>= λ host.
    (if str_eq host env.fqdn then deliver_here job else elim job.remote [
      | remote_none ↦ ok []
      | commit_remotely ↦ ok (sent host job.payload ∷ [])
    ])
