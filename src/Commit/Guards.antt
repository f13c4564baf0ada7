-- ===== src/Commit/Guards.antt =====
-- internal/usecase/record/commit.go: what a document has passed when its operation is chosen.
use concrnt.Prelude.{
  ℕ, ◌≤◌, String, ◌≡◌, refl, Bool, true, false, not, ◌||◌, List, [], ◌∷◌, Option, none, some, All,
  arith, Bool-cases, not-eq-true, Option-cases, inl, inr, ◌∙◌, ap, ltb,
}
use concrnt.Prelude.Int.{ltb_ℤ, add_ℕ, sub_ℕ}
use concrnt.Prelude.Outcome.{ok, err, panic, >>=-eq-ok}
use Prim.Native.String
use concrnt.Uri.{UrlPackage}
use mathlib.Core.Path.{subst}
use concrnt.Document.{Document, SignedDocument, text_of, type_of, proof_of, Codec}
use concrnt.Verify.{Check, cdid_of, is_allowed, verify_with_proof_types}
use concrnt.Verify.Basics.{verify-type}
use concrnt.Verify.Author.{IsBacked, KeepsAuthor, verify_with_proof_types-IsBacked}
use concrnt.Commit.{
  CommitMode, CommitError, Context, Result, check, is_alias_form, reject_in, reject_option,
  reject_all, distributions, non_empty, reject_alias_owners, delete_target, allowed_proofs,
  backdate_exempt, from_check, check_submission, resolve_requester, target_user, check_block,
  Action, choose_action, Admission, apply, admit, admit_new, parsed, max_document_size,
  max_future_skew, max_backdate,
}

pub check-eq-ok : (b : Bool) (e : CommitError) {u : Unit {0}} → check b e ≡ ok u → b ≡ true
check-eq-ok true e h = refl
check-eq-ok false e h = cc

pub ok-injective : {A : Type 0} {a b : A} → Path (Result A) (ok a) (ok b) → a ≡ b
ok-injective h = cc

parsed-eq-ok :
    (codec : Codec) (sd : SignedDocument) {d : Document}
    → parsed codec sd ≡ ok d
    → codec.decode (text_of sd) ≡ some d
parsed-eq-ok codec sd {d} h = elim (Option-cases (codec.decode (text_of sd))) [
  | inl e ↦ absurd (let h' = rw (parsed, e) at h in cc)
  | inr (a, e) ↦ let h' = rw (parsed, e) at h in e ∙ ap some (ok-injective h')
]

from_check-eq-ok : (doc : Document) (c : Check) {u : Unit {0}} → from_check doc c ≡ ok u → c ≡ ok tt
unfolding from_check
from_check-eq-ok doc (ok u) h = refl
from_check-eq-ok doc (err e) h = cc
from_check-eq-ok doc panic h = cc

-- No URI of an option is owned by an alias.
abbrev pub NoAlias : UrlPackage → Option String → Type 0
NoAlias url none = Unit
NoAlias url (some uri) = is_alias_form url uri ≡ false

reject_option-NoAlias :
    (url : UrlPackage) (field : String) (o : Option String) {u : Unit {0}}
    → reject_option url field o ≡ ok u
    → NoAlias url o
reject_option-NoAlias url field none h = tt
reject_option-NoAlias url field (some uri) h = not-eq-true _ (check-eq-ok _ _ h)

reject_all-All :
    (url : UrlPackage) (uris : List String) {u : Unit {0}}
    → reject_all url uris ≡ ok u
    → All (λ uri. is_alias_form url uri ≡ false) uris
unfolding reject_all
reject_all-All url [] h = tt
reject_all-All url (uri ∷ uris) h =
    let (u, here, rest) = >>=-eq-ok (reject_in url "distributes" uri) _ h in
    (not-eq-true _ (check-eq-ok _ _ here), reject_all-All url uris rest)

-- Every URI of a document that carries authority names its owner by identifier, not by alias.
pub record HasPlainOwners (url : UrlPackage) (codec : Codec) (sd : SignedDocument) (doc : Document)
    : Type 0 where
  pub key : NoAlias url (non_empty doc.key)
  pub associate : NoAlias url doc.associate
  pub target : NoAlias url (delete_target codec sd doc)
  pub distributes : All (λ uri. is_alias_form url uri ≡ false) (distributions doc.distributes)

reject_alias_owners-HasPlainOwners :
    (url : UrlPackage) (codec : Codec) (sd : SignedDocument) (doc : Document) {u : Unit {0}}
    → reject_alias_owners url codec sd doc ≡ ok u
    → HasPlainOwners url codec sd doc
unfolding reject_alias_owners
reject_alias_owners-HasPlainOwners url codec sd doc h =
    let (_, key, h₁) = >>=-eq-ok (reject_option url "key" (non_empty doc.key)) _ h in
    let (_, associate, h₂) = >>=-eq-ok (reject_option url "associate" doc.associate) _ h₁ in
    let (_, target, h₃) = >>=-eq-ok (reject_option url "value" (delete_target codec sd doc)) _ h₂ in
    record {
      key = reject_option-NoAlias url _ _ key;
      associate = reject_option-NoAlias url _ _ associate;
      target = reject_option-NoAlias url _ _ target;
      distributes = reject_all-All url _ h₃;
    }

-- What an admitted document has passed, whoever submits it.
pub record Accepted (ctx : Context) (mode : CommitMode) (sd : SignedDocument) (doc : Document)
    : Type 0 where
  pub sized : String.len (text_of sd) ≤ max_document_size
  pub decoded : ctx.kit.codec.decode (text_of sd) ≡ some doc
  pub plain : HasPlainOwners ctx.kit.url ctx.kit.codec sd doc
  pub uncommitted : ctx.has_commit_log (cdid_of ctx.kit (text_of sd) doc.created_at) ≡ ok false
  pub not_future : ltb_ℤ (add_ℕ ctx.now max_future_skew) doc.created_at ≡ false
  -- unless the submitter is a service account, the proof is one that the kind allows
  pub proved :
      ctx.is_service_account ≡ false
      → is_allowed (allowed_proofs doc) (type_of (proof_of sd)) ≡ true
  -- and the document is not older than the window, if it is not exempt
  pub not_backdated :
      ctx.is_service_account ≡ false
      → backdate_exempt ctx mode doc ≡ false
      → ltb_ℤ doc.created_at (sub_ℕ ctx.now max_backdate) ≡ false
  -- the author does not block the owner of what the document is about
  pub target : String
  pub targeted : target_user ctx.kit.url doc ≡ ok target
  pub unblocked : check_block ctx doc target ≡ ok tt

not_longer : (n m : ℕ) → ltb n m ≡ false → m ≤ n
not_longer n m h = ground arith

or_false : (b c : Bool) → (b || c) ≡ true → b ≡ false → c ≡ true
or_false true c h e = cc
or_false false c h e = h

module _ (ctx : Context) (mode : CommitMode) (sd : SignedDocument) where
  submission_steps :
      (doc : Document) {u : Unit {0}}
      → check_submission ctx mode sd doc ≡ ok u
      → ctx.is_service_account ≡ false
      → (verify_with_proof_types ctx.kit (allowed_proofs doc) sd ≡ ok tt)
        × ((backdate_exempt ctx mode doc || not (ltb_ℤ doc.created_at (sub_ℕ ctx.now max_backdate)))
            ≡ true)
  unfolding check_submission
  submission_steps doc h e =
      let h' = rw e at h in
      let (_, verified, in_time) =
        >>=-eq-ok (from_check doc (verify_with_proof_types ctx.kit (allowed_proofs doc) sd)) _ h' in
      (from_check-eq-ok doc _ verified, check-eq-ok _ _ in_time)

  -- The last steps of an admission.
  record Admitted (doc : Document) : Type 0 where
    not_future : ltb_ℤ (add_ℕ ctx.now max_future_skew) doc.created_at ≡ false
    submitted : check_submission ctx mode sd doc ≡ ok tt
    target : String
    targeted : target_user ctx.kit.url doc ≡ ok target
    unblocked : check_block ctx doc target ≡ ok tt

  admit_new-Admitted :
      (doc : Document) {a : Admission} → admit_new ctx mode sd doc ≡ ok a → Admitted doc
  unfolding admit_new
  admit_new-Admitted doc h =
      let (_, in_time, h₁) =
        >>=-eq-ok (check (not (ltb_ℤ (add_ℕ ctx.now max_future_skew) doc.created_at)) _) _ h in
      let (_, submitted, h₂) = >>=-eq-ok (check_submission ctx mode sd doc) _ h₁ in
      let (_, _, h₃) = >>=-eq-ok (resolve_requester ctx sd doc) _ h₂ in
      let (target, targeted, h₄) = >>=-eq-ok (target_user ctx.kit.url doc) _ h₃ in
      let (_, unblocked, _) = >>=-eq-ok (check_block ctx doc target) _ h₄ in
      record {
        not_future = not-eq-true _ (check-eq-ok _ _ in_time);
        submitted = submitted;
        target = target;
        targeted = targeted;
        unblocked = unblocked;
      }

  admit_new-document :
      (d doc : Document) (action : Action)
      → admit_new ctx mode sd d ≡ ok (apply doc action)
      → d ≡ doc
  unfolding admit_new
  admit_new-document d doc action h =
      let (_, _, h₁) =
        >>=-eq-ok (check (not (ltb_ℤ (add_ℕ ctx.now max_future_skew) d.created_at)) _) _ h in
      let (_, _, h₂) = >>=-eq-ok (check_submission ctx mode sd d) _ h₁ in
      let (requester, _, h₃) = >>=-eq-ok (resolve_requester ctx sd d) _ h₂ in
      let (target, _, h₄) = >>=-eq-ok (target_user ctx.kit.url d) _ h₃ in
      let (_, _, h₅) = >>=-eq-ok (check_block ctx d target) _ h₄ in
      let (_, _, h₆) = >>=-eq-ok (choose_action ctx sd d requester target) _ h₅ in cc

  accept :
      (doc : Document)
      → HasPlainOwners ctx.kit.url ctx.kit.codec sd doc
      → String.len (text_of sd) ≤ max_document_size
      → ctx.kit.codec.decode (text_of sd) ≡ some doc
      → ctx.has_commit_log (cdid_of ctx.kit (text_of sd) doc.created_at) ≡ ok false
      → Admitted doc
      → Accepted ctx mode sd doc
  accept doc plain sized decoded uncommitted a = record {
    sized = sized;
    decoded = decoded;
    plain = plain;
    uncommitted = uncommitted;
    not_future = a.not_future;
    proved = λ e.
        (verify-type ctx.kit (allowed_proofs doc) sd ((submission_steps doc a.submitted e).0)).0;
    not_backdated =
        λ e exempt. not-eq-true _ (or_false _ _ ((submission_steps doc a.submitted e).1) exempt);
    target = a.target;
    targeted = a.targeted;
    unblocked = a.unblocked;
  }

  admit-steps :
      {doc : Document} {action : Action}
      → admit ctx mode sd ≡ ok (apply doc action)
      → Accepted ctx mode sd doc × Admitted doc
  unfolding admit
  admit-steps {doc} {action} h =
      let (_, sized, h₁) =
        >>=-eq-ok (check (not (ltb max_document_size (String.len (text_of sd)))) _) _ h in
      let (d, decoded, h₂) = >>=-eq-ok (parsed ctx.kit.codec sd) _ h₁ in
      let (_, plain, h₃) = >>=-eq-ok (reject_alias_owners ctx.kit.url ctx.kit.codec sd d) _ h₂ in
      let (known, logged, h₄) =
        >>=-eq-ok (ctx.has_commit_log (cdid_of ctx.kit (text_of sd) d.created_at)) _ h₃ in
      elim (Bool-cases known) [
        | inl e ↦ absurd (let h₅ = rw e at h₄ in cc)
        | inr e ↦
            let h₅ = rw e at h₄ in
            let a = admit_new-Admitted d h₅ in
            subst (λ x. Accepted ctx mode sd x × Admitted x) (admit_new-document d doc action h₅)
              (
                accept d (reject_alias_owners-HasPlainOwners ctx.kit.url ctx.kit.codec sd d plain)
                    (not_longer _ _ (not-eq-true _ (check-eq-ok _ _ sized)))
                    (parsed-eq-ok ctx.kit.codec sd decoded) (logged ∙ ap (λ (b : Bool). ok b) e) a,
                a,
              )
      ]

-- A document that is admitted is at most 32768 bytes long, names no owner by alias, is not in
-- the commit log, is at most twelve hours in the future, and passes the check that its author
-- does not block the owner of what it is about; and, unless a service account submits it, its
-- proof is of a type that its kind allows and it is at most seven days old or exempt from that
-- window.
pub admit-Accepted :
    (ctx : Context) (mode : CommitMode) (sd : SignedDocument) (doc : Document) (action : Action)
    → admit ctx mode sd ≡ ok (apply doc action)
    → Accepted ctx mode sd doc
admit-Accepted ctx mode sd doc action h = (admit-steps ctx mode sd h).0

-- If writing a document with another kind keeps its author, a document that is admitted from
-- anyone but a service account has an author who signed some document of that author with the
-- author's own key.
pub admit-IsBacked :
    (ctx : Context) (mode : CommitMode) (sd : SignedDocument) (doc : Document) (action : Action)
    → KeepsAuthor ctx.kit
    → ctx.is_service_account ≡ false
    → admit ctx mode sd ≡ ok (apply doc action)
    → IsBacked ctx.kit doc.author
admit-IsBacked ctx mode sd doc action keeps e h =
    let (accepted, admitted) = admit-steps ctx mode sd h in
    verify_with_proof_types-IsBacked ctx.kit (allowed_proofs doc) sd doc keeps accepted.decoded
      ((submission_steps ctx mode sd doc admitted.submitted e).0)
