-- ===== src/Record/Associate/Stored.antt =====
-- internal/usecase/record/association.go: what an association has passed and where it is stored.
use concrnt.Prelude.{
  ◌≤◌, ◌≡◌, inl, inr, sym, ◌∙◌, ap, String, Bool, true, false, List, [], ◌∷◌, ◌++◌, Option, none,
  some, str_eq, if-cases, not-eq-true, arith, if◌then◌else◌,
}
use mathlib.Core.Path.{subst}
use Prim.Native.String
use concrnt.Prelude.Outcome.{ok, err, >>=-eq-ok}
use concrnt.Uri.{CcUri}
use concrnt.Document.{Document, SignedDocument, text_of}
use concrnt.PolicyService.{DocumentPolicy}
use concrnt.Commit.{
  CommitMode, Entity, Result, check, malformed_uri, malformed_document, validation, distributions,
}
use concrnt.Commit.Guards.{ok-injective, check-eq-ok}
use concrnt.Record.{
  Env, Write, create_commit_log, create_association, AssociationRow, write, ApplyResult, parse_uri,
  document_id, ccfs_uri, entity_cckv_with_hint,
}
use concrnt.Record.Entities.{is_local_entity_by_ccid}
use concrnt.Record.Read.{policy_create_action, get_signed}
use concrnt.Record.Deliver.{create_reference_distribution_actions}
use concrnt.Record.Remove.Permission.{write-eq-ok}
use concrnt.Record.Associate.{
  check_variant, deref_text, unique_key, store_association, association_signals, apply_association,
  create_association_op,
}

-- A variant has at most 512 bytes.
abbrev pub IsShort : Option String → Type 0
IsShort none = Unit
IsShort (some v) = String.len v ≤ 512

-- The row of an association, whose body decides with its target, author, schema and variant whether
-- it is a duplicate.
abbrev pub row_of : Env → Document → String → String → String → String → AssociationRow
row_of env doc target owner id body = record {
  id = id;
  target = target;
  owner = owner;
  author = doc.author;
  schema = doc.schema;
  variant = doc.association_variant;
  unique = env.hash_text (unique_key doc target body);
  created_at = doc.created_at;
}

-- What is written on the server of the target's owner, and nothing elsewhere.
abbrev pub WritesFor :
    Env → Document → SignedDocument → String → String → String → Bool → List Write → Type 0
WritesFor env doc sd target owner id true log =
    (body : String) × (env.value_bytes (text_of sd) ≡ some body)
    × (log
        ≡ create_commit_log id owner
          ∷ create_association (row_of env doc target owner id body)
          ∷ [])
WritesFor env doc sd target owner id false log = log ≡ []

pub record IsAssociated (env : Env) (requester : Entity) (doc : Document) (sd : SignedDocument)
    (r : ApplyResult) : Type 0 where
  pub no_key : str_eq doc.key "" ≡ true
  pub short : IsShort doc.association_variant
  pub target : String
  pub associate : doc.associate ≡ some target
  pub stack : List DocumentPolicy
  pub policies : env.hierarchical_policies target ≡ ok stack
  pub permitted : env.permits (some requester) doc stack (policy_create_action doc) target ≡ ok tt
  pub parts : CcUri
  pub parsed : parse_uri env target ≡ ok parts
  pub scheme : str_eq parts.scheme "cckv" ≡ true
  pub id : String
  pub named : document_id env sd ≡ ok id
  pub is_local : Bool
  pub residence : is_local_entity_by_ccid env parts.owner ≡ ok is_local
  pub wrote : WritesFor env doc sd target parts.owner id is_local r.writes

check_variant-IsShort : (v : Option String) {u : Unit {0}} → check_variant v ≡ ok u → IsShort v
check_variant-IsShort none h = tt
check_variant-IsShort (some v) h = let short = not-eq-true _ (check-eq-ok _ _ h) in ground arith

deref_text-eq-ok : (o : Option String) {s : String} → deref_text o ≡ ok s → o ≡ some s
deref_text-eq-ok none h = cc
deref_text-eq-ok (some t) h = ap some (ok-injective h)

option_body :
    (o : Option String) {s : String}
    → Path (Result String) (elim o [ none ↦ err malformed_document | some b ↦ ok b ]) (ok s)
    → o ≡ some s
option_body none h = cc
option_body (some b) h = ap some (ok-injective h)

store_association-WritesFor :
    (env : Env) (doc : Document) (sd : SignedDocument) (id owner target : String)
    {x : List Write × Bool}
    → store_association env doc sd id owner target ≡ ok x
    → WritesFor env doc sd target owner id true x.0
unfolding store_association
store_association-WritesFor env doc sd id owner target h =
    let (body, read, h1) =
      >>=-eq-ok
        (elim (env.value_bytes (text_of sd)) [ none ↦ err malformed_document | some b ↦ ok b ]) _
        h in
    let ((log, b), first, h2) = >>=-eq-ok (write env [] (create_commit_log id owner)) _ h1 in
    let row = create_association (row_of env doc target owner id body) in
    (
      body,
      option_body _ read,
      write-eq-ok env log row h2
          ∙ ap (λ l. l ++ (row ∷ [])) (write-eq-ok env [] (create_commit_log id owner) first),
    )

-- the choice of the server
stored_where :
    (env : Env) (doc : Document) (sd : SignedDocument) (target owner id : String) (is_local : Bool)
    {x : List Write × Bool}
    → Path
        (Result (List Write × Bool))
        (if is_local then store_association env doc sd id owner target else ok ([], true))
        (ok x)
    → WritesFor env doc sd target owner id is_local x.0
stored_where env doc sd target owner id true h =
    store_association-WritesFor env doc sd id owner target h
stored_where env doc sd target owner id false h = ap (λ y. y.0) (sym (ok-injective h))

apply_association-WritesFor :
    (env : Env) (ip : String) (requester : Entity) (doc : Document) (sd : SignedDocument)
    (mode : CommitMode) (target owner id : String) (is_local : Bool) {r : ApplyResult}
    → apply_association env ip requester doc sd mode target owner id is_local ≡ ok r
    → WritesFor env doc sd target owner id is_local r.writes
unfolding apply_association
apply_association-WritesFor env ip requester doc sd mode target owner id is_local h =
    let (requester_sd, _, h1) =
      >>=-eq-ok (get_signed env env.reader (entity_cckv_with_hint requester)) _ h in
    let ((log, applied), stored, h2) =
      >>=-eq-ok (if is_local then store_association env doc sd id owner target else ok ([], true)) _
        h1 in
    let there = stored_where env doc sd target owner id is_local stored in
    elim (if-cases applied h2) [
      | inr (_, done) ↦
          subst (λ (y : ApplyResult). WritesFor env doc sd target owner id is_local y.writes)
            (ok-injective done) there
      | inl (_, h3) ↦
          let (references, _, h4) =
            >>=-eq-ok
              (if is_local
                then create_reference_distribution_actions env ip doc.author (ccfs_uri owner id)
                    requester sd (distributions doc.distributes) mode
                else ok [])
              _ h3 in
          let (signals, _, done) =
            >>=-eq-ok
              (association_signals env requester requester_sd target (ccfs_uri owner id) sd mode
                is_local)
              _ h4 in
          subst (λ (y : ApplyResult). WritesFor env doc sd target owner id is_local y.writes)
            (ok-injective done) there
    ]

-- When createAssociation returns without an error, then the document has no key, a variant of at
-- most 512 bytes and a cckv target whose policies permitted it, and the server of the target's owner
-- has written its commit log and one row, under that owner; any other server has written nothing.
pub create_association_op-IsAssociated :
    (env : Env) (ip : String) (requester : Entity) (doc : Document) (sd : SignedDocument)
    (mode : CommitMode) (r : ApplyResult)
    → create_association_op env ip requester doc sd mode ≡ ok r
    → IsAssociated env requester doc sd r
unfolding create_association_op
create_association_op-IsAssociated env ip requester doc sd mode r h =
    let (_, no_key, h1) = >>=-eq-ok (check (str_eq doc.key "") (validation "key")) _ h in
    let (_, short, h2) = >>=-eq-ok (check_variant doc.association_variant) _ h1 in
    let (target, associate, h3) = >>=-eq-ok (deref_text doc.associate) _ h2 in
    let (stack, policies, h4) = >>=-eq-ok (env.hierarchical_policies target) _ h3 in
    let (_, permitted, h5) =
      >>=-eq-ok (env.permits (some requester) doc stack (policy_create_action doc) target) _ h4 in
    let (parts, parsed, h6) = >>=-eq-ok (parse_uri env target) _ h5 in
    let (_, scheme, h7) = >>=-eq-ok (check (str_eq parts.scheme "cckv") malformed_uri) _ h6 in
    let (id, named, h8) = >>=-eq-ok (document_id env sd) _ h7 in
    let (is_local, residence, h9) = >>=-eq-ok (is_local_entity_by_ccid env parts.owner) _ h8 in
    record {
      no_key = check-eq-ok _ _ no_key;
      short = check_variant-IsShort doc.association_variant short;
      target = target;
      associate = deref_text-eq-ok doc.associate associate;
      stack = stack;
      policies = policies;
      permitted = permitted;
      parts = parts;
      parsed = parsed;
      scheme = check-eq-ok _ _ scheme;
      id = id;
      named = named;
      is_local = is_local;
      residence = residence;
      wrote =
          apply_association-WritesFor env ip requester doc sd mode target parts.owner id is_local
            h9;
    }
