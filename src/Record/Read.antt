-- ===== src/Record/Read.antt =====
-- internal/usecase/record/read.go and policy.go: who may read a document.
pub mod Anonymous
use concrnt.Prelude.{
  String, Bool, true, false, not, ◌&&◌, List, [], ◌∷◌, Option, none, some, str_eq, if◌then◌else◌,
}
use concrnt.Prelude.Outcome.{Outcome, ok, err, panic, ◌>>=◌}
use concrnt.Prelude.Text.{has_prefix}
use concrnt.Prelude.Int.{pos}
use concrnt.Uri
use concrnt.Uri.{CcUri}
use concrnt.Document.{
  Document, Proof, SignedDocument, signed, References, no_reference, reference, text_of,
}
use concrnt.PolicyService.{DocumentPolicy}
use concrnt.Verify.{reference_url}
use concrnt.Commit.{Entity, CommitError, Result, check, malformed_uri, redirected}
use concrnt.Record.{Env, Event, parse_uri, parse_document, cckv_uri}
use concrnt.Record.Entities.{get_entity}

abbrev pub is_association : Document → Bool
is_association doc = str_eq doc.kind "association"

-- policyCreateAction, policyReadAction, policyDeleteAction
abbrev pub policy_create_action : Document → String
policy_create_action doc = if is_association doc then "association:create" else "record:create"

abbrev pub policy_read_action : Document → String
policy_read_action doc = if is_association doc then "association:read" else "record:read"

abbrev pub policy_delete_action : Document → String
policy_delete_action doc = if is_association doc then "association:delete" else "record:delete"

-- CanonicalizeURI
unfoldable pub canonicalize_uri : Env → String → Result String
unfolding get_entity parse_uri cckv_uri
canonicalize_uri env uri = parse_uri env uri >>= λ parsed.
    (if has_prefix parsed.owner "@"
      then (get_entity env (cckv_uri parsed.owner none) >>= λ e.
          ok (Uri.to_string (record parsed { owner = e.id })))
      else ok uri)

-- the document of a row that has a key only
abbrev pub key_only : String → Document
key_only uri = record {
  kind = "record";
  key = uri;
  author = "";
  schema = "";
  created_at = pos 0;
  associate = none;
  distributes = none;
  association_variant = none;
  on_update = none;
  policy = none;
}

abbrev pub policy_root : String → Document → String
policy_root uri doc = elim doc.associate [ none ↦ uri | some target ↦ target ]

-- policies that cannot be read are left out
abbrev pub policies_or_none : Result (List DocumentPolicy) → Result (List DocumentPolicy)
policies_or_none (ok stack) = ok stack
policies_or_none (err e) = ok []
policies_or_none panic = panic

-- checkReadAccessAs; the requester of an anonymous request is `none`
unfoldable pub check_read_access_as :
    Env → String → SignedDocument → Option Entity → Result (Unit {0})
unfolding parse_document
check_read_access_as env uri sd requester = check (not (str_eq uri "")) malformed_uri >>= λ _.
    (if str_eq (text_of sd) "" then ok (key_only uri) else parse_document env sd) >>= λ doc.
    policies_or_none (env.hierarchical_policies (policy_root uri doc)) >>= λ stack.
    env.permits requester doc stack (policy_read_action doc) uri

-- `parsed.Scheme == "cckv" && parsed.Key == ""`
abbrev pub is_entity_uri : CcUri → Bool
is_entity_uri parsed = str_eq parsed.scheme "cckv" && str_eq parsed.key ""

-- the href of a reference document; the value is read only where the text decodes
unfoldable pub redirect_of : Env → SignedDocument → Option String
redirect_of env sd = elim (env.kit.codec.decode (text_of sd)) [
  | none ↦ none
  | some doc ↦ elim (env.reference_value (text_of sd)) [
    | none ↦ none
    | some v ↦ (if str_eq doc.schema reference_url then some v.href else none)
  ]
]

-- the branch of GetSigned for a stored document
unfoldable pub get_stored : Env → Option Entity → String → Result SignedDocument
unfolding canonicalize_uri redirect_of check_read_access_as
get_stored env requester uri = canonicalize_uri env uri >>= λ uri'.
    env.get_signed_document uri' >>= λ sd. elim (redirect_of env sd) [
      | some href ↦ (env.resolve_resource_uri href >>= λ location. err (redirected location))
      | none ↦ (check_read_access_as env uri' sd requester >>= λ _. ok sd)
    ]

-- GetSigned; an entity may have no document
unfoldable pub get_signed : Env → Option Entity → String → Result (Option SignedDocument)
unfolding get_entity get_stored parse_uri
get_signed env requester uri = parse_uri env uri >>= λ parsed.
    (if is_entity_uri parsed
      then (get_entity env uri >>= λ e. ok e.signed_document)
      else (get_stored env requester uri >>= λ sd. ok (some sd)))

-- `… == nil` of an error; a panic does not return
abbrev pub passes : Result (Unit {0}) → Bool
passes (ok u) = true
passes _ = false

-- whether anyone may read a document of an event
unfoldable pub is_public : Env → String → SignedDocument → Bool
unfolding check_read_access_as
is_public env uri sd = passes (check_read_access_as env uri sd none)

-- the inner loop of markEventForAnonymous
unfoldable pub mark_nested_for_anonymous : Env → References → References
unfolding is_public
mark_nested_for_anonymous env no_reference = no_reference
mark_nested_for_anonymous env (reference uri (signed cckv ccfs text p refs public) rest) =
    reference uri
      (signed cckv ccfs text p no_reference
        (some (is_public env uri (signed cckv ccfs text p refs public))))
      (mark_nested_for_anonymous env rest)

-- markEventForAnonymous, on the references
unfoldable pub mark_for_anonymous : Env → References → References
unfolding is_public mark_nested_for_anonymous
mark_for_anonymous env no_reference = no_reference
mark_for_anonymous env (reference uri (signed cckv ccfs text p refs public) rest) =
    reference uri
      (signed cckv ccfs text p (mark_nested_for_anonymous env refs)
        (some (is_public env uri (signed cckv ccfs text p refs public))))
      (mark_for_anonymous env rest)

abbrev pub mark_event_for_anonymous : Env → Event → Event
mark_event_for_anonymous env event = record event {
  references = mark_for_anonymous env event.references;
}
