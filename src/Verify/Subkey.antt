-- ===== src/Verify/Subkey.antt =====
-- verify.go: the limits of a subkey.
use concrnt.Prelude.{
  String, ◌≡◌, ◌∙◌, ap, if◌then◌else◌, true, false, Option, none, some, Bool-cases, inl, inr,
  str_eq, str_eq→eq,
}
use mathlib.Core.Path.{subst, sym}
use concrnt.Prelude.Int.{ℤ, ltb_ℤ}
use concrnt.Prelude.Outcome.{Outcome, panic, ok, err, >>=-eq-ok}
use concrnt.Prelude.Text.{contains}
use concrnt.Document.{
  Document, Proof, proof, SignedDocument, References, text_of, proof_of, references_of, type_of,
  proof_type_ecrecover, proof_type_subkey,
}
use concrnt.Verify.{
  VerifyError, Kit, Next, require, need, master_only, open_key, open_revoked, is_after, is_allowed,
  subkey_url, revoked_subkey_url, verify_proof, verify_depth, verify, check_signature, malformed,
}
use concrnt.Verify.Basics.{require-eq-ok, need-eq-ok, open_verified}
use concrnt.Verify.Author.{subkey_facts}

open_key-valid_until :
    (kit : Kit) (next : Next) (key_text : String) (key_doc doc : Document) {r : String × Option ℤ}
    → open_key kit next key_text key_doc doc ≡ ok r
    → key_doc.schema ≡ revoked_subkey_url
    → r.1 ≡ some key_doc.created_at
unfolding open_key open_revoked
open_key-valid_until kit next key_text key_doc doc {r} h e =
    let h' =
      subst
        (λ s.
          (if str_eq s subkey_url
            then ok (key_text, none)
            else if str_eq s revoked_subkey_url
            then open_revoked kit next key_text key_doc doc
            else err malformed)
          ≡ ok r)
        e h in
    let (enact_sd, _, h₁) = >>=-eq-ok (need (kit.codec.decode_signed key_text) _) _ h' in
    let (_, _, h₂) = >>=-eq-ok (require (str_eq key_doc.author doc.author) _) _ h₁ in
    let (_, _, h₃) = >>=-eq-ok (next master_only enact_sd) _ h₂ in
    let (enact_doc, _, h₄) = >>=-eq-ok (need (kit.codec.decode (text_of enact_sd)) _) _ h₃ in
    let (_, _, h₅) = >>=-eq-ok (require (str_eq enact_doc.schema subkey_url) _) _ h₄ in cc h₅

-- Where the enactment of a subkey stands: it is the key document itself or, where that document is
-- a revocation by the same author, the document signed with a master key that the revocation holds.
pub data EnactedIn (kit : Kit) (key_text : String) (key_doc doc : Document) (enact_text : String)
    : Type 0 where
  itself :
      key_doc.schema ≡ subkey_url
      → enact_text ≡ key_text
      → EnactedIn kit key_text key_doc doc enact_text
  inside :
      (enact_sd : SignedDocument)
      → key_doc.schema ≡ revoked_subkey_url
      → kit.codec.decode_signed key_text ≡ some enact_sd
      → enact_text ≡ text_of enact_sd
      → type_of (proof_of enact_sd) ≡ proof_type_ecrecover
      → key_doc.author ≡ doc.author
      → EnactedIn kit key_text key_doc doc enact_text

only_one : (t : String) → is_allowed master_only t ≡ true → t ≡ proof_type_ecrecover
unfolding contains
only_one t h = elim (Bool-cases (str_eq proof_type_ecrecover t)) [
  | inl e ↦ sym (str_eq→eq _ _ e)
  | inr n ↦ absurd (let h' = rw n at h in cc)
]

abbrev enact_of : Outcome VerifyError (String × Option ℤ) → String
enact_of (ok r) = r.0
enact_of (err e) = ""
enact_of panic = ""

open_revoked-EnactedIn :
    (kit : Kit) (key_text : String) (key_doc doc : Document) {r : String × Option ℤ}
    → open_revoked kit (verify_depth kit 3) key_text key_doc doc ≡ ok r
    → key_doc.schema ≡ revoked_subkey_url
    → EnactedIn kit key_text key_doc doc r.0
unfolding open_revoked
open_revoked-EnactedIn kit key_text key_doc doc {r} h e =
    let (enact_sd, held, h₁) = >>=-eq-ok (need (kit.codec.decode_signed key_text) _) _ h in
    let (_, author, h₂) = >>=-eq-ok (require (str_eq key_doc.author doc.author) _) _ h₁ in
    let (_, verified, h₃) = >>=-eq-ok (verify_depth kit 3 master_only enact_sd) _ h₂ in
    let (enact_doc, _, h₄) = >>=-eq-ok (need (kit.codec.decode (text_of enact_sd)) _) _ h₃ in
    let (_, _, h₅) = >>=-eq-ok (require (str_eq enact_doc.schema subkey_url) _) _ h₄ in
    inside enact_sd e (need-eq-ok _ _ held) (sym (ap enact_of h₅))
      (only_one _ (open_verified kit 2 master_only enact_sd verified).type_allowed)
      (str_eq→eq _ _ (require-eq-ok _ _ author))

open_key-EnactedIn :
    (kit : Kit) (key_text : String) (key_doc doc : Document) {r : String × Option ℤ}
    → open_key kit (verify_depth kit 3) key_text key_doc doc ≡ ok r
    → EnactedIn kit key_text key_doc doc r.0
unfolding open_key
open_key-EnactedIn kit key_text key_doc doc {r} h =
    elim (Bool-cases (str_eq key_doc.schema subkey_url)) [
      | inl e ↦ let h' = rw (open_key, e) at h in itself (str_eq→eq _ _ e) (sym (ap enact_of h'))
      | inr n ↦ elim (Bool-cases (str_eq key_doc.schema revoked_subkey_url)) [
        | inl e ↦
            let h' = rw (open_key, n, e) at h in
            open_revoked-EnactedIn kit key_text key_doc doc h' (str_eq→eq _ _ e)
        | inr m ↦ absurd (let h' = rw (open_key, n, m) at h in cc)
      ]
    ]

abbrev pub key_of : Proof → Option String
key_of (proof t signature href key document p) = key

abbrev pub signature_of : Proof → Option String
signature_of (proof t signature href key document p) = signature

-- The use of a subkey by a verified document.
pub record KeyUse (kit : Kit) (text : String) (p : Proof) (doc : Document) : Type 0 where
  -- the key document is what the resolver gives now for the URI that the proof names
  pub uri : String
  pub key_named : key_of p ≡ some uri
  pub resolver : String → Option SignedDocument
  pub has_resolver : kit.resolver ≡ some resolver
  pub key_sd : SignedDocument
  pub resolved : resolver uri ≡ some key_sd
  pub key_doc : Document
  pub enact_text : String
  pub enact_doc : Document
  pub ckid : String
  pub hex : String
  -- the document that declares the subkey is signed with a master key
  pub master_signed : type_of (proof_of key_sd) ≡ proof_type_ecrecover
  pub key_decoded : kit.codec.decode (text_of key_sd) ≡ some key_doc
  -- the enactment names the subkey and the document's author
  pub enacted_in : EnactedIn kit (text_of key_sd) key_doc doc enact_text
  pub enact_decoded : kit.codec.decode enact_text ≡ some enact_doc
  pub ckid_decoded : kit.codec.decode_ckid enact_text ≡ some ckid
  pub author : enact_doc.author ≡ doc.author
  -- the document is not older than the enactment, and not newer than a revocation
  pub started : ltb_ℤ doc.created_at enact_doc.created_at ≡ false
  pub not_revoked :
      key_doc.schema ≡ revoked_subkey_url → ltb_ℤ key_doc.created_at doc.created_at ≡ false
  -- the proof's signature of the document's text is by the subkey
  pub signed_with : signature_of p ≡ some hex
  pub signature : check_signature kit text hex ckid ≡ ok tt

key_use :
    (kit : Kit) (text : String) (p : Proof) (refs : References) (doc : Document)
    → type_of p ≡ proof_type_subkey
    → verify_proof kit (verify_depth kit 3) text p refs doc ≡ ok tt
    → KeyUse kit text p doc
unfolding verify_proof
key_use kit text (proof t signature href key document p) refs doc e h =
    let h' =
      subst
        (λ s.
          verify_proof kit (verify_depth kit 3) text (proof s signature href key document p) refs
            doc
          ≡ ok tt)
        e h in
    let f = subkey_facts kit (verify_depth kit 3) text signature key doc h' in
    let o = open_verified kit 2 master_only f.key_sd f.key_verified in
    let (resolver, present, found) = >>=-eq-ok (need kit.resolver _) _ f.resolved in
    record {
      uri = f.uri;
      key_named = f.key_named;
      resolver = resolver;
      has_resolver = need-eq-ok _ _ present;
      key_sd = f.key_sd;
      resolved = need-eq-ok _ _ found;
      key_doc = f.key_doc;
      enact_text = f.enact_text;
      enact_doc = f.enact_doc;
      ckid = f.ckid;
      hex = f.hex;
      master_signed = only_one _ o.type_allowed;
      key_decoded = f.key_decoded;
      enacted_in = open_key-EnactedIn kit (text_of f.key_sd) f.key_doc doc f.opened;
      enact_decoded = f.enact_decoded;
      ckid_decoded = f.ckid_decoded;
      author = f.author;
      started = f.started;
      not_revoked = λ revoked.
          ap (is_after doc.created_at) (
            sym (
              open_key-valid_until kit (verify_depth kit 3) (text_of f.key_sd) f.key_doc doc
                f.opened revoked))
          ∙ f.not_ended;
      signed_with = f.signed_with;
      signature = f.signature;
    }

-- For a verified document with a subkey proof, the resolver gives, at the URI that the proof names
-- as its key, a key document with a master-key proof, and the proof's signature is by the subkey
-- that an enactment names. The enactment is by the document's author, and is the key document itself
-- or, if that is a revocation by the document's author, the one it holds, with a master-key proof
-- too. The document is not older than the enactment and, if the key document is a revocation, not
-- newer than it.
pub verify-KeyUse :
    (kit : Kit) (sd : SignedDocument)
    → type_of (proof_of sd) ≡ proof_type_subkey
    → verify kit sd ≡ ok tt
    → (doc : Document) × (kit.codec.decode (text_of sd) ≡ some doc)
      × KeyUse kit (text_of sd) (proof_of sd) doc
unfolding verify
verify-KeyUse kit sd e h =
    let o = open_verified kit 3 none sd h in
    (o.doc, o.decoded, key_use kit (text_of sd) (proof_of sd) (references_of sd) o.doc e o.proved)
