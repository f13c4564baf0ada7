-- ===== src/Commit.antt =====
-- internal/usecase/record/commit.go: the commit of a signed document, from its checks to the
-- transaction. The lookups of entities and of blocking users, the commit log, the kinds' own
-- operations and the database are parameters.
pub mod Guards
pub mod Transaction
pub mod Phases
use concrnt.Prelude.{
  ℕ, suc, ◌*◌, ◌^◌, String, Bool, true, false, not, ◌&&◌, ◌||◌, List, [], ◌∷◌, Option, none, some,
  ltb, str_eq, if◌then◌else◌, map,
}
use concrnt.Prelude.Int.{ℤ, ltb_ℤ, add_ℕ, sub_ℕ}
use concrnt.Prelude.Outcome.{Outcome, ok, err, panic, ◌>>=◌}
use concrnt.Prelude.Text.{has_prefix, contains, trim_suffix}
use Prim.Native.String
use concrnt.Uri.{UrlPackage, CcUri, UriError, parse_cc_uri}
use concrnt.Document.{
  Document, SignedDocument, text_of, Codec, proof_type_ecrecover, proof_type_document_direct,
}
use concrnt.Verify.{
  VerifyError, Check, Kit, cdid_of, verify_with_proof_types, proof_type_not_allowed,
  none_proof_not_allowed, unsupported_proof_type,
}

-- internal/domain/commit.go
pub data CommitMode : Type 0 where
  unknown execute dry_run local_only_execute : CommitMode

-- 7 * 24 hours and 12 hours, in nanoseconds
abbrev pub max_backdate : ℕ
max_backdate = 7 * 24 * 3600 * 1000000000

abbrev pub max_future_skew : ℕ
max_future_skew = 12 * 3600 * 1000000000

abbrev pub max_document_size : ℕ
max_document_size = 32768

-- internal/domain/entity.go, as far as a commit reads it
pub record Entity : Type 0 where
  pub id : String
  pub domain : String
  pub signed_document : Option SignedDocument

pub data CommitError : Type 0 where
  validation : String → CommitError
  malformed_document malformed_uri blocked unsupported_kind backend : CommitError
  not_found permission_denied not_registered not_verified unsupported_target missing_target
        unverified_target :
      CommitError
  redirected : String → CommitError

abbrev pub Result : Type 0 → Type 0
Result A = Outcome CommitError A

-- What a commit is called with, and what it looks up.
pub record Context : Type 0 where
  pub kit : Kit
  pub now : ℤ
  pub is_service_account : Bool
  pub authenticated : Option String
  pub has_commit_log : List ℕ → Result Bool
  pub get_entity : String → Result Entity
  pub get_entity_with_reference : String → SignedDocument → Result Entity
  pub blocking_users : String → Result (List String)

abbrev pub check : Bool → CommitError → Result (Unit {0})
check true e = ok tt
check false e = err e

-- `alias-form owners are not allowed in commits`: a URI that cannot be parsed passes
unfoldable pub is_alias_form : UrlPackage → String → Bool
is_alias_form url uri = elim (parse_cc_uri url uri) [
  | ok parsed ↦ has_prefix parsed.owner "@"
  | _ ↦ false
]

abbrev pub reject_in : UrlPackage → String → String → Result (Unit {0})
reject_in url field uri = check (not (is_alias_form url uri)) (validation field)

abbrev pub reject_option : UrlPackage → String → Option String → Result (Unit {0})
reject_option url field none = ok tt
reject_option url field (some uri) = reject_in url field uri

unfoldable pub reject_all : UrlPackage → List String → Result (Unit {0})
unfolding is_alias_form
reject_all url [] = ok tt
reject_all url (uri ∷ uris) = reject_in url "distributes" uri >>= λ _. reject_all url uris

-- distributionsFromPtr
abbrev pub distributions : Option (List String) → List String
distributions none = []
distributions (some ds) = ds

-- the target of a deletion, without its wildcard
abbrev pub delete_target : Codec → SignedDocument → Document → Option String
delete_target codec sd doc =
    if str_eq doc.kind "delete"
    then elim (codec.decode_string (text_of sd)) [
      | none ↦ none
      | some target ↦ some (trim_suffix b'/' (trim_suffix b'*' target))
    ]
    else none

abbrev pub non_empty : String → Option String
non_empty s = if str_eq s "" then none else some s

-- rejectAliasOwners
unfoldable pub reject_alias_owners :
    UrlPackage → Codec → SignedDocument → Document → Result (Unit {0})
unfolding reject_all
reject_alias_owners url codec sd doc = reject_option url "key" (non_empty doc.key) >>= λ _.
    reject_option url "associate" doc.associate >>= λ _.
    reject_option url "value" (delete_target codec sd doc) >>= λ _.
    reject_all url (distributions doc.distributes)

abbrev pub is_acked_kind : Document → Bool
is_acked_kind doc = str_eq doc.kind "acked" || str_eq doc.kind "unacked"

-- `allowedProofs`
abbrev pub allowed_proofs : Document → Option (List String)
allowed_proofs doc =
    if is_acked_kind doc
    then some (proof_type_document_direct ∷ [])
    else if str_eq doc.kind "entity"
    then some (proof_type_ecrecover ∷ [])
    else none

-- the field that the returned ValidationError names
abbrev pub verification_error : Document → VerifyError → CommitError
verification_error doc none_proof_not_allowed = validation "proof.type"
verification_error doc proof_type_not_allowed =
    if str_eq doc.kind "entity" || is_acked_kind doc
    then validation "proof.type"
    else validation "proof"
verification_error doc unsupported_proof_type = validation "proof.type"
verification_error doc _ = validation "proof"

from_check : Document → Check → Result (Unit {0})
from_check doc (ok u) = ok tt
from_check doc (err e) = err (verification_error doc e)
from_check doc panic = panic

-- `err == nil && parsed.Owner == id`
abbrev pub is_owned_by : UrlPackage → String → String → Bool
is_owned_by url id uri = elim (parse_cc_uri url uri) [
  | ok parsed ↦ str_eq parsed.owner id
  | _ ↦ false
]

abbrev pub is_local_only : CommitMode → Bool
is_local_only local_only_execute = true
is_local_only _ = false

abbrev owned_option : UrlPackage → String → Option String → Bool
owned_option url id none = false
owned_option url id (some uri) = is_owned_by url id uri

-- `backdateExempt`
unfoldable pub backdate_exempt : Context → CommitMode → Document → Bool
backdate_exempt ctx mode doc =
    str_eq doc.kind "entity"
    || is_acked_kind doc
    || (is_local_only mode && elim ctx.authenticated [
      | none ↦ false
      | some id ↦
          str_eq doc.author id
          || owned_option ctx.kit.url id (non_empty doc.key)
          || owned_option ctx.kit.url id doc.associate
    ])

-- the checks that a system service account skips
unfoldable pub check_submission :
    Context → CommitMode → SignedDocument → Document → Result (Unit {0})
unfolding verify_with_proof_types from_check backdate_exempt
check_submission ctx mode sd doc =
    if ctx.is_service_account
    then ok tt
    else (from_check doc (verify_with_proof_types ctx.kit (allowed_proofs doc) sd) >>= λ _.
        check
          (backdate_exempt ctx mode doc || not (ltb_ℤ doc.created_at (sub_ℕ ctx.now max_backdate)))
          (validation "createdAt"))

-- the requester, or a stand-in where the code goes on without one
unfoldable pub resolve_requester : Context → SignedDocument → Document → Result (Option Entity)
resolve_requester ctx sd doc =
    elim (if str_eq doc.kind "entity"
      then ctx.get_entity doc.author
      else ctx.get_entity_with_reference doc.author sd) [
        | ok e ↦ ok (some e)
        | panic ↦ panic
        | err e ↦
            (if is_acked_kind doc
              then ok (some (record { id = doc.author; domain = ""; signed_document = none }))
              else if str_eq doc.kind "entity"
              then ok none
              else err (validation "document.author"))
      ]

owner_in : UrlPackage → String → Result String
owner_in url uri = elim (parse_cc_uri url uri) [
  | ok parsed ↦ ok parsed.owner
  | err e ↦ err malformed_uri
  | panic ↦ panic
]

abbrev owner_or : UrlPackage → String → Option String → Result String
owner_or url other none = ok other
owner_or url other (some uri) = owner_in url uri

-- `targetUserID`
unfoldable pub target_user : UrlPackage → Document → Result String
unfolding owner_in
target_user url doc =
    owner_or url "" (non_empty doc.key) >>= λ by_key. owner_or url by_key doc.associate

unfoldable pub check_block : Context → Document → String → Result (Unit {0})
unfolding contains
check_block ctx doc target =
    if not (str_eq target "") && not (str_eq target doc.author) && not (is_acked_kind doc)
    then (ctx.blocking_users doc.author >>= λ users. check (not (contains users target)) blocked)
    else ok tt

-- the operation that `applyCommit` calls, with the entities that it is given
pub data Action : Type 0 where
  save_entity : Action
  create_record create_association delete_record : Entity → Action
  process_ack : Entity → Entity → Action

need_entity : Option Entity → Result Entity
need_entity none = panic
need_entity (some e) = ok e

-- the `switch doc.Kind`
unfoldable pub choose_action :
    Context → SignedDocument → Document → Option Entity → String → Result Action
unfolding need_entity
choose_action ctx sd doc requester target =
    if str_eq doc.kind "entity"
    then ok save_entity
    else if str_eq doc.kind "record"
    then (need_entity requester >>= λ e. ok (create_record e))
    else if str_eq doc.kind "association"
    then (need_entity requester >>= λ e. ok (create_association e))
    else if str_eq doc.kind "ack" || str_eq doc.kind "unack" || is_acked_kind doc
    then (ctx.get_entity_with_reference target sd >>= λ to.
        need_entity requester >>= λ from. ok (process_ack from to))
    else if str_eq doc.kind "delete"
    then (need_entity requester >>= λ e. ok (delete_record e))
    else err unsupported_kind

pub data Admission : Type 0 where
  already_committed : Admission
  apply : Document → Action → Admission

-- `sd.ParsedDocument`
abbrev pub parsed : Codec → SignedDocument → Result Document
parsed codec sd = elim (codec.decode (text_of sd)) [ none ↦ err malformed_document | some d ↦ ok d ]

-- Commit, from the size check to the choice of the operation, after the look into the commit log
unfoldable pub admit_new : Context → CommitMode → SignedDocument → Document → Result Admission
unfolding check_submission resolve_requester target_user check_block choose_action
admit_new ctx mode sd doc =
    check (not (ltb_ℤ (add_ℕ ctx.now max_future_skew) doc.created_at)) (validation "createdAt")
    >>= λ _. check_submission ctx mode sd doc >>= λ _. resolve_requester ctx sd doc >>= λ requester.
        target_user ctx.kit.url doc >>= λ target. check_block ctx doc target >>= λ _.
        choose_action ctx sd doc requester target >>= λ action. ok (apply doc action)

unfoldable pub admit : Context → CommitMode → SignedDocument → Result Admission
unfolding admit_new reject_alias_owners
admit ctx mode sd =
    check (not (ltb max_document_size (String.len (text_of sd)))) (validation "document") >>= λ _.
    parsed ctx.kit.codec sd >>= λ doc. reject_alias_owners ctx.kit.url ctx.kit.codec sd doc >>= λ _.
    ctx.has_commit_log (cdid_of ctx.kit (text_of sd) doc.created_at) >>= λ known.
    (if known then ok already_committed else admit_new ctx mode sd doc)
