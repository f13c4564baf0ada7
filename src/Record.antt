-- ===== src/Record.antt =====
-- internal/usecase/record: what the operations of a commit read, write and leave to be done after
-- it. The repository, the policy service, the client, DNS and encoding/json are parameters (`Env`).
pub mod Target
pub mod Entities
pub mod Read
pub mod Query
pub mod Deliver
pub mod Create
pub mod Associate
pub mod Acknowledge
pub mod Remove
use concrnt.Prelude.{
  ℕ, String, Bool, true, false, not, ◌&&◌, ◌||◌, List, [], ◌∷◌, ◌++◌, Option, none, some, str_eq,
  if◌then◌else◌,
}
use concrnt.Prelude.Int.{ℤ}
use concrnt.Prelude.Chars.{text_of_codes}
use concrnt.Prelude.Outcome.{Outcome, ok, err, panic, ◌>>=◌}
use concrnt.Uri
use concrnt.Uri.{CcUri, ccfs_type_concrnt, parse_cc_uri, compose_cc_uri}
use concrnt.Prelude.Text.{concat}
use concrnt.Document.{
  Document, SignedDocument, signed, References, no_reference, reference, text_of,
}
use concrnt.PolicyService.{DocumentPolicy}
use concrnt.Verify.{Kit, cdid_of}
use concrnt.Commit.{Entity, CommitError, Result, malformed_document, malformed_uri}

-- schemas/entity.go and schemas/Reference.go: the values of documents that the operations read
pub record EntityValue : Type 0 where
  pub domain : String
  pub alias : Option String

pub record ReferenceValue : Type 0 where
  pub href : String
  pub schema : Option String
  pub created_at : Option ℤ

pub record RecordRow : Type 0 where
  pub id : String
  pub key : String
  pub owner : String
  pub author : String
  pub schema : String
  pub on_update : Option String
  pub policies : Option String
  pub distributions : List String
  pub redirect : Option String
  pub created_at : ℤ

pub record AssociationRow : Type 0 where
  pub id : String
  pub target : String
  pub owner : String
  pub author : String
  pub schema : String
  pub variant : Option String
  pub unique : String
  pub created_at : ℤ

-- A call of `Repository` that changes the database, in the transaction of the commit: the document
-- id first, where there is one.
pub data Write : Type 0 where
  create_commit_log : String → String → Write
  create_entity : String → String → Option String → String → ℤ → Write
  create_record : RecordRow → Write
  create_association : AssociationRow → Write
  acknowledge unacknowledge acknowledged unacknowledged :
      String → String → String → String → ℤ → Write
  delete_record_by_key delete_record_by_id delete_association mark_gc_candidate : String → Write

-- types.go: `Event`, without its timestamp
pub record Event : Type 0 where
  pub event_type : String
  pub uri : String
  pub association : Option String
  pub references : References

-- deliver.go: DeliveryLocalKind and DeliveryRemoteKind
pub data LocalKind : Type 0 where
  local_none publish_event commit_payload : LocalKind

pub data RemoteKind : Type 0 where
  remote_none commit_remotely : RemoteKind

pub record DeliveryJob : Type 0 where
  pub resolve_uri : String
  pub host : String
  pub payload : SignedDocument
  pub local : LocalKind
  pub remote : RemoteKind
  pub event : Option Event
  pub ip : String

-- What a `PostProcessAction` does: publish an event, marked then for anonymous readers, enqueue a
-- delivery as it is or with its event marked then, or note an item as removed from a timeline.
pub data PostProcess : Type 0 where
  publish : String → Event → PostProcess
  enqueue enqueue_marked : DeliveryJob → PostProcess
  note_removed : String → String → PostProcess

pub record ServerInfo : Type 0 where
  pub layer : String
  pub is_blocked : Bool

pub record Env : Type 0 where
  pub kit : Kit
  pub fqdn : String
  pub layer : String
  pub has_kvs : Bool
  pub has_jobs : Bool
  pub now : ℤ
  -- the requester of the context, if it is authenticated
  pub reader : Option Entity
  -- encoding/json: the value of a document's text as an entity, a reference or bytes, and the
  -- text of a new reference document by its key, href, author and instant
  pub entity_value : String → Option EntityValue
  pub reference_value : String → Option ReferenceValue
  pub value_bytes : String → Option String
  pub reference_text : String → String → String → ℤ → Option String
  -- the repository, as it stood before the transaction
  pub get_signed_document : String → Result SignedDocument
  pub record_subtree : String → Bool → Result (List SignedDocument)
  pub hierarchical_policies : String → Result (List DocumentPolicy)
  pub distributions_of : String → Result (List String)
  pub timeline_removal : String → Result (String × String)
  -- whether a write applies, or its failure
  pub perform : Write → Result Bool
  -- the policy service's Eval: requester, self, stack, action, key
  pub permits : Option Entity → Document → List DocumentPolicy → String → String → Result (Unit {0})
  -- the entities, before the transaction
  pub entity_by_ccid : String → Result Entity
  pub entity_by_alias : String → Result Entity
  pub get_meta : String → Result (Unit {0})
  -- DNS, the server usecase and the client
  pub lookup_txt : String → Result (List String)
  pub resolve_server : String → Result ServerInfo
  pub fetch_resource : String → String → Result SignedDocument
  pub resolve_resource_host : String → Result String
  pub resolve_resource_uri : String → Result String
  -- Commit, called again for another document; the entities, by ccid, after it
  pub recommit : String → SignedDocument → Result (String → Result Entity)
  -- url.JoinPath and xxh3
  pub join_path : String → String → Option String
  pub hash_text : String → String

-- commitApplyResult without the document that is answered, and the writes that led to it
pub record ApplyResult : Type 0 where
  pub writes : List Write
  pub noop : Bool
  pub post_processes : List PostProcess

abbrev pub nothing_applied : List Write → ApplyResult
nothing_applied log = record { writes = log; noop = true; post_processes = [] }

-- One write after the others, and whether it applied.
unfoldable pub write : Env → List Write → Write → Result (List Write × Bool)
write env log w = env.perform w >>= λ applied. ok (log ++ (w ∷ []), applied)

-- `concrnt.ParseCCURI(uri)`, whose error is returned
unfoldable pub parse_uri : Env → String → Result CcUri
parse_uri env uri = elim (parse_cc_uri env.kit.url uri) [
  | ok parsed ↦ ok parsed
  | err e ↦ err malformed_uri
  | panic ↦ panic
]

-- `json.Unmarshal([]byte(sd.Document), &doc)`
unfoldable pub parse_document : Env → SignedDocument → Result Document
parse_document env sd = elim (env.kit.codec.decode (text_of sd)) [
  | none ↦ err malformed_document
  | some doc ↦ ok doc
]

-- `sd.CDID()`
unfoldable pub document_id : Env → SignedDocument → Result String
unfolding parse_document text_of_codes
document_id env sd = parse_document env sd >>= λ doc.
    ok (text_of_codes (cdid_of env.kit (text_of sd) doc.created_at))

-- `concrnt.CCURI{Scheme: "ccfs", Owner: owner, Type: concrnt.CCFSTypeConcrnt, CDID: id}.String()`
unfoldable pub ccfs_uri : String → String → String
ccfs_uri owner id = Uri.to_string (record {
  scheme = "ccfs";
  owner = owner;
  key = "";
  type_name = ccfs_type_concrnt;
  cdid = id;
  hint = none;
  raw = "";
})

-- `concrnt.CCURI{Scheme: "cckv", Owner: owner, Hint: hint}.String()`
unfoldable pub cckv_uri : String → Option String → String
cckv_uri owner hint = Uri.to_string (record {
  scheme = "cckv";
  owner = owner;
  key = "";
  type_name = "";
  cdid = "";
  hint = hint;
  raw = "";
})

-- `Entity.CCKV` and `Entity.CCKVWithHint`
abbrev pub entity_cckv : Env → Entity → String
entity_cckv env e = compose_cc_uri env.kit.url "cckv" e.id ""

abbrev pub entity_cckv_with_hint : Entity → String
entity_cckv_with_hint e = concat "cckv://" (concat e.id (concat "@" e.domain))

-- a map of references with one more
abbrev pub two_references : String → SignedDocument → String → SignedDocument → References
two_references uri sd uri' sd' = reference uri sd (reference uri' sd' no_reference)

-- the addresses that an applied document gets
abbrev pub with_cckv : String → SignedDocument → SignedDocument
with_cckv uri (signed cckv ccfs text p refs public) = signed (some uri) ccfs text p refs public

abbrev pub with_ccfs : String → SignedDocument → SignedDocument
with_ccfs uri (signed cckv ccfs text p refs public) = signed cckv (some uri) text p refs public
