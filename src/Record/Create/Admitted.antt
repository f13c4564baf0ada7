-- ===== src/Record/Create/Admitted.antt =====
-- internal/usecase/record/record.go: what a record has passed when it is stored.
use concrnt.Prelude.{
  ◌≤◌, ◌≡◌, refl, sym, ◌∙◌, ap, String, true, false, not, List, [], ◌∷◌, ◌++◌, some, inl, inr, ◌⊎◌,
  if-cases, not-eq-true, str_eq, arith, false, none,
}
use Prim.Native.String
use concrnt.Prelude.Outcome.{ok, err, panic, ◌>>=◌, >>=-eq-ok}
use concrnt.Uri.{CcUri, has_char}
use concrnt.Document.{Document, SignedDocument}
use concrnt.PolicyService.{DocumentPolicy}
use concrnt.Commit.{CommitMode, Entity, Result, not_found, check, malformed_uri, validation}
use concrnt.Commit.Guards.{ok-injective, check-eq-ok}
use concrnt.Record.{
  Env, RecordRow, create_commit_log, create_record, write, ApplyResult, parse_uri, parse_document,
  document_id, ccfs_uri,
}
use concrnt.Record.Create.Listed.{IsListing, listing_of-IsListing}
use concrnt.Record.Remove.Permission.{write-eq-ok}
use concrnt.Record.Create.{
  policy_subject, check_key, Listing, listing_of, record_row, store_record, record_post_processes,
  create_record_op,
}

-- A key that records are stored under: a cckv URI whose key has 1 to 1024 bytes and no `*`.
pub record IsRecordKey (key : CcUri) : Type 0 where
  pub scheme : str_eq key.scheme "cckv" ≡ true
  pub no_star : has_char key.key b'*' ≡ false
  pub not_empty : str_eq key.key "" ≡ false
  pub short : String.len key.key ≤ 1024

check_key-IsRecordKey : (key : CcUri) {u : Unit {0}} → check_key key ≡ ok u → IsRecordKey key
unfolding check_key
check_key-IsRecordKey key h =
    let (_, scheme, h1) = >>=-eq-ok (check (str_eq key.scheme "cckv") malformed_uri) _ h in
    let (_, no_star, h2) =
      >>=-eq-ok (check (not (has_char key.key b'*')) (validation "key")) _ h1 in
    let (_, not_empty, h3) = >>=-eq-ok (check (not (str_eq key.key "")) (validation "key")) _ h2 in
    let short = not-eq-true _ (check-eq-ok _ _ h3) in
    record {
      scheme = check-eq-ok _ _ scheme;
      no_star = not-eq-true _ (check-eq-ok _ _ no_star);
      not_empty = not-eq-true _ (check-eq-ok _ _ not_empty);
      short = ground arith;
    }

-- What the policies were asked about: an update of the stored document, or, where there is none,
-- the creation of the new one.
abbrev pub IsSubject : Env → Document → String × Document → Type 0
IsSubject env doc subject =
    ((stored : SignedDocument) × (env.get_signed_document doc.key ≡ ok stored)
      × (parse_document env stored ≡ ok subject.1)
      × (subject.0 ≡ "record:update"))
    ⊎ ((env.get_signed_document doc.key ≡ err not_found) × (subject ≡ ("record:create", doc)))

-- the branches of `policy_subject` by what is found
subject_found :
    (env : Env) (doc : Document) (found : Result SignedDocument) {subject : String × Document}
    → Path
        (Result (String × Document))
        (elim found [
          | ok existing ↦ (parse_document env existing >>= λ d. ok ("record:update", d))
          | err not_found ↦ ok ("record:create", doc)
          | err e ↦ err e
          | panic ↦ panic
        ])
        (ok subject)
    → ((stored : SignedDocument) × (found ≡ ok stored)
        × (parse_document env stored ≡ ok subject.1)
        × (subject.0 ≡ "record:update"))
      ⊎ ((found ≡ err not_found) × (subject ≡ ("record:create", doc)))
subject_found env doc (ok stored) h =
    let (d, parsed, done) = >>=-eq-ok (parse_document env stored) _ h in
    let same = ok-injective done in
    inl (stored, refl, parsed ∙ ap (λ y. ok y.1) same, ap (λ y. y.0) (sym same))
subject_found env doc (err not_found) h = inr (refl, sym (ok-injective h))
subject_found env doc (err e) h = cc
subject_found env doc panic h = cc

policy_subject-IsSubject :
    (env : Env) (doc : Document) {subject : String × Document}
    → policy_subject env doc ≡ ok subject
    → IsSubject env doc subject
unfolding policy_subject
policy_subject-IsSubject env doc h = subject_found env doc (env.get_signed_document doc.key) h

-- The row that a record is stored in: under the owner that the key names, with the author, the
-- policies and the destinations of the document, and what it is listed under.
abbrev pub stored_row : String → Document → CcUri → Listing → RecordRow
stored_row id doc key listing = record {
  id = id;
  key = doc.key;
  owner = key.owner;
  author = doc.author;
  schema = listing.schema;
  on_update = doc.on_update;
  policies = doc.policy;
  distributions = elim doc.distributes [ none ↦ [] | some destinations ↦ destinations ];
  redirect = listing.redirect;
  created_at = listing.created_at;
}

-- A record was stored: it has a key that records may have, the policies permitted it, and what was
-- written is its commit log and one row, under the owner that the key names.
pub record IsAdmitted (env : Env) (requester : Entity) (doc : Document) (sd : SignedDocument)
    (r : ApplyResult) : Type 0 where
  pub key : CcUri
  pub parsed : parse_uri env doc.key ≡ ok key
  pub valid : IsRecordKey key
  pub subject : String × Document
  pub about : IsSubject env doc subject
  pub stack : List DocumentPolicy
  pub policies : env.hierarchical_policies doc.key ≡ ok stack
  pub permitted : env.permits (some requester) subject.1 stack subject.0 doc.key ≡ ok tt
  pub id : String
  pub named : document_id env sd ≡ ok id
  pub listing : Listing
  pub listed : IsListing env sd doc listing
  pub wrote :
      r.writes ≡ create_commit_log id key.owner ∷ create_record (stored_row id doc key listing) ∷ []

-- what storing leads to, whether or not the row applies
store_record-writes :
    (env : Env) (ip : String) (requester : Entity) (doc : Document) (sd : SignedDocument)
    (mode : CommitMode) (key : CcUri) (listing : Listing) {r : ApplyResult}
    → store_record env ip requester doc sd mode key listing ≡ ok r
    → (id : String) × (document_id env sd ≡ ok id)
      × (r.writes
          ≡ create_commit_log id key.owner ∷ create_record (record_row id doc key listing) ∷ [])
unfolding store_record
store_record-writes env ip requester doc sd mode key listing h =
    let (id, named, h1) = >>=-eq-ok (document_id env sd) _ h in
    let ((log, b), first, h2) = >>=-eq-ok (write env [] (create_commit_log id key.owner)) _ h1 in
    let ((log', applied), second, h3) =
      >>=-eq-ok (write env log (create_record (record_row id doc key listing))) _ h2 in
    let before = write-eq-ok env [] (create_commit_log id key.owner) first in
    let after =
      write-eq-ok env log (create_record (record_row id doc key listing)) second
      ∙ ap (λ l. l ++ (create_record (record_row id doc key listing) ∷ [])) before in
    elim (if-cases applied h3) [
      | inl (_, taken) ↦
          let (posts, _, done) =
            >>=-eq-ok (record_post_processes env ip requester doc sd mode (ccfs_uri key.owner id)) _
              taken in
          (id, named, ap (λ (y : ApplyResult). y.writes) (sym (ok-injective done)) ∙ after)
      | inr (_, done) ↦
          (id, named, ap (λ (y : ApplyResult). y.writes) (sym (ok-injective done)) ∙ after)
    ]

-- When createRecord returns without an error, then the record's key is a cckv URI with 1 to 1024
-- bytes and no `*`, the policies on the key permitted the update of the document that is stored
-- there or, if there is none, the creation of the new one, and the writes are the commit log and
-- one row, both under the owner that the key names. The row has the document's key, author, policies
-- and destinations, and is listed as the document is or, for a reference, as what it refers to.
pub create_record_op-IsAdmitted :
    (env : Env) (ip : String) (requester : Entity) (doc : Document) (sd : SignedDocument)
    (mode : CommitMode) (r : ApplyResult)
    → create_record_op env ip requester doc sd mode ≡ ok r
    → IsAdmitted env requester doc sd r
unfolding create_record_op
create_record_op-IsAdmitted env ip requester doc sd mode r h =
    let (stack, policies, h1) = >>=-eq-ok (env.hierarchical_policies doc.key) _ h in
    let (subject, chosen, h2) = >>=-eq-ok (policy_subject env doc) _ h1 in
    let (_, permitted, h3) =
      >>=-eq-ok (env.permits (some requester) subject.1 stack subject.0 doc.key) _ h2 in
    let (key, parsed, h4) = >>=-eq-ok (parse_uri env doc.key) _ h3 in
    let (_, valid, h5) = >>=-eq-ok (check_key key) _ h4 in
    let (listing, listed, h6) = >>=-eq-ok (listing_of env sd doc) _ h5 in
    let (id, named, wrote) = store_record-writes env ip requester doc sd mode key listing h6 in
    record {
      key = key;
      parsed = parsed;
      valid = check_key-IsRecordKey key valid;
      subject = subject;
      about = policy_subject-IsSubject env doc chosen;
      stack = stack;
      policies = policies;
      permitted = permitted;
      id = id;
      named = named;
      listing = listing;
      listed = listing_of-IsListing env sd doc listed;
      wrote = wrote;
    }
