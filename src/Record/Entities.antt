-- ===== src/Record/Entities.antt =====
-- internal/usecase/record/entity.go: the lookup of entities and the operation of entity documents.
-- The background re-check that GetEntity may start changes nothing that it returns.
pub mod Lookup
use concrnt.Prelude.{
  ℕ, zero, suc, String, Bool, true, false, not, ◌&&◌, ◌||◌, List, [], ◌∷◌, Option, none, some,
  str_eq, if◌then◌else◌,
}
use concrnt.Prelude.Int.{ℤ, ltb_ℤ}
use concrnt.Prelude.Outcome.{Outcome, ok, err, panic, ◌>>=◌}
use concrnt.Prelude.Text.{concat, has_prefix, trim_prefix}
use concrnt.Uri.{CcUri, parse_cc_uri, is_ccid}
use concrnt.Document.{
  Document, SignedDocument, text_of, type_of, proof_of, references_of, find_reference,
  proof_type_none,
}
use concrnt.Commit.{
  Entity, CommitError, Result, check, validation, malformed_uri, malformed_document, not_found,
  not_registered, not_verified,
}
use concrnt.Record.{
  Env, EntityValue, ServerInfo, Write, create_commit_log, create_entity, write, ApplyResult,
  nothing_applied, parse_uri, parse_document, document_id, cckv_uri,
}

-- `record` with a parsed owner that is a CCID, and a hint
unfoldable pub is_redirect : Env → String → Bool
unfolding is_ccid
is_redirect env text = elim (parse_cc_uri env.kit.url text) [
  | ok parsed ↦ is_ccid parsed.owner && elim parsed.hint [ none ↦ false | some h ↦ true ]
  | _ ↦ false
]

unfoldable pub find_redirect : Env → List String → Option String
unfolding is_redirect
find_redirect env [] = none
find_redirect env (r ∷ rs) = if is_redirect env r then some r else find_redirect env rs

abbrev pub or_else : {A : Type 0} → Result A → (CommitError → Result A) → Result A
or_else (ok a) f = ok a
or_else (err e) f = f e
or_else panic f = panic

-- `errors.Is(err, domain.ErrNotFound)`
abbrev pub if_not_found : {A : Type 0} → Result A → CommitError → Result A
if_not_found r not_found = r
if_not_found r e = err e

-- the resource at the hint, committed, and the entity after that
unfoldable pub fetch_entity : Env → String → String → String → Result Entity
fetch_entity env uri ccid hint =
    env.fetch_resource uri hint >>= λ sd. env.recommit hint sd >>= λ after. after ccid

-- the branch of GetEntity for an owner that is no alias
unfoldable pub get_entity_by_owner : Env → String → CcUri → Result Entity
unfolding fetch_entity
get_entity_by_owner env uri parsed = or_else (env.entity_by_ccid parsed.owner) (
    if_not_found (elim parsed.hint [
      | none ↦ err not_found
      | some hint ↦
          (if str_eq hint env.fqdn then err not_found else fetch_entity env uri parsed.owner hint)
    ]))

-- what the branch for an alias goes on with
unfoldable pub resolve_alias : Env → String → Result String
unfolding find_redirect
resolve_alias env alias = env.lookup_txt (concat "_concrnt." alias) >>= λ records.
    elim (find_redirect env records) [ none ↦ err not_found | some redirect ↦ ok redirect ]

-- GetEntity, by the number of calls in its branch for an alias that are left
unfoldable pub get_entity_at : ℕ → Env → String → Result Entity
unfolding get_entity_by_owner resolve_alias trim_prefix parse_uri
get_entity_at zero env uri = err not_found
get_entity_at (suc n) env uri =
    let again = get_entity_at n env in
    parse_uri env uri >>= λ parsed.
    (if str_eq parsed.owner ""
      then err malformed_uri
      else if has_prefix parsed.owner "@"
      then or_else (env.entity_by_alias (trim_prefix b'@' parsed.owner)) (
          if_not_found
            (resolve_alias env (trim_prefix b'@' parsed.owner) >>= λ redirect. again redirect))
      else get_entity_by_owner env uri parsed)

-- GetEntity
unfoldable pub get_entity : Env → String → Result Entity
unfolding get_entity_at
get_entity env uri = get_entity_at 2 env uri

-- IsLocalEntity
abbrev pub is_local_entity : Env → Entity → Bool
is_local_entity env e = str_eq env.fqdn e.domain

-- IsLocalEntityByCCID
unfoldable pub is_local_entity_by_ccid : Env → String → Result Bool
unfolding get_entity is_ccid cckv_uri
is_local_entity_by_ccid env id =
    get_entity env (if is_ccid id then cckv_uri id none else id) >>= λ e. ok (is_local_entity env e)

-- whether an inlined entity document is newer than the stored one: a stored one that cannot be read
-- counts as older
unfoldable pub is_newer : Env → Document → Result Entity → Result Bool
unfolding parse_document
is_newer env referenced (ok stored) = elim stored.signed_document [
  | none ↦ ok true
  | some sd ↦ elim (parse_document env sd) [
    | ok d ↦ ok (ltb_ℤ d.created_at referenced.created_at)
    | _ ↦ ok true
  ]
]
is_newer env referenced (err not_found) = ok true
is_newer env referenced (err e) = err e
is_newer env referenced panic = panic

-- the entities to look into after the inlined document was tried: a commit that fails leaves them
abbrev pub entities_after : Env → Result (String → Result Entity) → Result Env
entities_after env (ok after) = ok (record env { entity_by_ccid = after })
entities_after env (err e) = ok env
entities_after env panic = panic

-- the document that is inlined for an entity, if it is one of its own
unfoldable pub inlined_entity :
    Env → String → SignedDocument → Option (SignedDocument × Document × EntityValue)
unfolding cckv_uri
inlined_entity env ccid sd = elim (find_reference (references_of sd) (cckv_uri ccid none)) [
  | none ↦ none
  | some ref ↦ elim (env.kit.codec.decode (text_of ref)) [
    | none ↦ none
    | some d ↦ elim (env.entity_value (text_of ref)) [
      | none ↦ none
      | some v ↦ (if str_eq d.kind "entity" && str_eq d.author ccid then some (ref, d, v) else none)
    ]
  ]
]

-- getEntityWithReference
unfoldable pub get_entity_with_reference : Env → String → String → SignedDocument → Result Entity
unfolding get_entity is_newer inlined_entity cckv_uri
get_entity_with_reference env ip ccid sd = elim (inlined_entity env ccid sd) [
  | none ↦ get_entity env (cckv_uri ccid none)
  | some (ref, d, v) ↦
      (is_newer env d (env.entity_by_ccid ccid) >>= λ newer.
      (if newer then entities_after env (env.recommit ip ref) else ok env) >>= λ env'.
      get_entity env' (cckv_uri ccid (some v.domain)))
]

-- the checks on the server of a signed entity document
unfoldable pub check_entity_server : Env → SignedDocument → EntityValue → Result (Unit {0})
check_entity_server env sd v =
    if str_eq (type_of (proof_of sd)) proof_type_none
    then ok tt
    else (or_else (env.resolve_server v.domain) (λ e. err (validation "value.domain")) >>= λ server.
        check (str_eq server.layer env.layer) (validation "value.domain") >>= λ _.
        check (not server.is_blocked) (validation "value.domain"))

-- a resident is registered
unfoldable pub check_residence : Env → Document → EntityValue → Result (Unit {0})
check_residence env doc v =
    if str_eq v.domain env.fqdn
    then or_else (env.get_meta doc.author) (λ e. err not_registered)
    else ok tt

-- `parsed.Owner == entity.Author` for one of the TXT records
unfoldable pub names_author : Env → String → List String → Bool
names_author env author [] = false
names_author env author (r ∷ rs) =
    elim (parse_cc_uri env.kit.url r) [ ok parsed ↦ str_eq parsed.owner author | _ ↦ false ]
    || names_author env author rs

unfoldable pub check_alias : Env → Document → EntityValue → Result (Unit {0})
unfolding names_author
check_alias env doc v = elim v.alias [
  | none ↦ ok tt
  | some alias ↦
      (or_else (env.lookup_txt (concat "_concrnt." alias)) (λ e. err not_verified) >>= λ records.
      check (names_author env doc.author records) not_verified)
]

-- saveEntity
unfoldable pub save_entity : Env → SignedDocument → Result ApplyResult
unfolding check_entity_server check_residence check_alias write document_id parse_document
save_entity env sd = parse_document env sd >>= λ doc.
    (elim (env.entity_value (text_of sd)) [ none ↦ err malformed_document | some v ↦ ok v ])
    >>= λ v. check_entity_server env sd v >>= λ _. check_residence env doc v >>= λ _.
        check_alias env doc v >>= λ _. document_id env sd >>= λ id.
        write env [] (create_commit_log id doc.author) >>= λ (log, _).
        write env log (create_entity id doc.author v.alias v.domain doc.created_at)
        >>= λ (log', applied). ok (
            if applied
            then record { writes = log'; noop = false; post_processes = [] }
            else nothing_applied log')
