-- ===== src/Verify/Author.antt =====
-- verify.go: what a verified document's authorship rests on.
use concrnt.Prelude.{
  ℕ, zero, suc, String, ◌≡◌, ◌∙◌, sym, refl, false, ◌||◌, ◌⊎◌, List, Option, none, some, Bool-cases,
  not-eq-true, Option-cases, inl, inr, str_eq, str_eq→eq, ap,
}
use mathlib.Core.Path.{subst}
use concrnt.Prelude.Int.{ℤ, ltb_ℤ}
use concrnt.Prelude.Outcome.{ok, >>=-eq-ok}
use concrnt.Document.{
  Document, Proof, proof, InnerProof, SignedDocument, References, text_of, proof_of, references_of,
  derive_acked, acked_kind,
}
use concrnt.Verify.{
  Kit, require, need, Next, check_signature, verify_ecrecover, verify_subkey, open_key,
  open_revoked, resolve_authoritative, is_after, master_only, embedded_only, subkey_url,
  revoked_subkey_url, reference_url, verify_reference, resolve, verify_direct, verify_proof,
  verify_depth, verify, verify_with_proof_types, embed, inner_proof, max_verify_depth,
}
use concrnt.Verify.Basics.{
  require-eq-ok, need-eq-ok, open_verified, ecrecover, subkey, document_reference, document_direct,
  refused, proof_case,
}

abbrev text_in : Option SignedDocument → Option String
text_in none = none
text_in (some sd) = some (text_of sd)

module _ (kit : Kit) where
  -- Some document by the author was signed with the author's own key.
  pub record IsBacked (author : String) : Type 0 where
    pub text : String
    pub hex : String
    pub doc : Document
    pub decoded : kit.codec.decode text ≡ some doc
    pub same_author : doc.author ≡ author
    pub signature : check_signature kit text hex author ≡ ok tt

  -- Writing a document with another kind keeps its author.
  abbrev pub KeepsAuthor : Type 0
  KeepsAuthor =
      (text kind text' : String) (doc doc' : Document)
      → kit.codec.decode text ≡ some doc
      → kit.codec.encode_kind text kind ≡ some text'
      → kit.codec.decode text' ≡ some doc'
      → doc'.author ≡ doc.author

  -- A recursive call that accepts only documents with backed authors.
  abbrev IsSound : Next → Type 0
  IsSound next =
      (allowed : Option (List String)) (sd : SignedDocument) (doc : Document)
      → next allowed sd ≡ ok tt
      → kit.codec.decode (text_of sd) ≡ some doc
      → IsBacked doc.author

  verify_ecrecover-IsBacked :
      (text : String) (signature : Option String) (doc : Document)
      → kit.codec.decode text ≡ some doc
      → verify_ecrecover kit text signature doc ≡ ok tt
      → IsBacked doc.author
  unfolding verify_ecrecover
  verify_ecrecover-IsBacked text signature doc d h =
      let (hex, _, checked) = >>=-eq-ok (need signature _) _ h in
      record {
        text = text;
        hex = hex;
        doc = doc;
        decoded = d;
        same_author = refl;
        signature = checked;
      }

  move : {a b : String} → a ≡ b → IsBacked a → IsBacked b
  move e = subst IsBacked e

  -- What a successful check of a subkey proof has established.
  pub record SubkeyFacts (next : Next) (text : String) (signed key : Option String) (doc : Document)
      : Type 0 where
    pub uri : String
    pub key_named : key ≡ some uri
    pub key_sd : SignedDocument
    pub resolved : resolve_authoritative kit uri ≡ ok key_sd
    pub key_doc : Document
    pub enact_text : String
    pub enact_doc : Document
    pub valid_until : Option ℤ
    pub ckid : String
    pub hex : String
    pub signed_with : signed ≡ some hex
    pub key_verified : next master_only key_sd ≡ ok tt
    pub key_decoded : kit.codec.decode (text_of key_sd) ≡ some key_doc
    pub opened : open_key kit next (text_of key_sd) key_doc doc ≡ ok (enact_text, valid_until)
    pub enact_decoded : kit.codec.decode enact_text ≡ some enact_doc
    pub ckid_decoded : kit.codec.decode_ckid enact_text ≡ some ckid
    pub author : enact_doc.author ≡ doc.author
    pub started : ltb_ℤ doc.created_at enact_doc.created_at ≡ false
    pub not_ended : is_after doc.created_at valid_until ≡ false
    pub signature : check_signature kit text hex ckid ≡ ok tt

  pub subkey_facts :
      (next : Next) (text : String) (signature key : Option String) (doc : Document)
      → verify_subkey kit next text signature key doc ≡ ok tt
      → SubkeyFacts next text signature key doc
  unfolding verify_subkey
  subkey_facts next text signature key doc h =
      let (hex, given, h₁) = >>=-eq-ok (need signature _) _ h in
      let (uri, named_key, h₂) = >>=-eq-ok (need key _) _ h₁ in
      let (key_sd, resolved, h₃) = >>=-eq-ok (resolve_authoritative kit uri) _ h₂ in
      let (u, verified, h₄) = >>=-eq-ok (next master_only key_sd) _ h₃ in
      let (key_doc, decoded, h₅) = >>=-eq-ok (need _ _) _ h₄ in
      let ((enact_text, valid_until), opened, h₆) =
        >>=-eq-ok (open_key kit next (text_of key_sd) key_doc doc) _ h₅ in
      let (enact_doc, enacted, h₇) = >>=-eq-ok (need _ _) _ h₆ in
      let (ckid, named, h₈) = >>=-eq-ok (need _ _) _ h₇ in
      let (_, author, h₉) = >>=-eq-ok (require _ _) _ h₈ in
      let (_, started, h₁₀) = >>=-eq-ok (require _ _) _ h₉ in
      let (_, not_ended, h₁₁) = >>=-eq-ok (require _ _) _ h₁₀ in
      record {
        uri = uri;
        key_named = need-eq-ok _ _ named_key;
        key_sd = key_sd;
        resolved = resolved;
        key_doc = key_doc;
        enact_text = enact_text;
        enact_doc = enact_doc;
        valid_until = valid_until;
        ckid = ckid;
        hex = hex;
        signed_with = need-eq-ok _ _ given;
        key_verified = verified;
        key_decoded = need-eq-ok _ _ decoded;
        opened = opened;
        enact_decoded = need-eq-ok _ _ enacted;
        ckid_decoded = need-eq-ok _ _ named;
        author = str_eq→eq _ _ (require-eq-ok _ _ author);
        started = not-eq-true _ (require-eq-ok _ _ started);
        not_ended = not-eq-true _ (require-eq-ok _ _ not_ended);
        signature = h₁₁;
      }

  same_doc : {A : Type 0} {o : Option A} {a b : A} → o ≡ some a → o ≡ some b → a ≡ b
  same_doc p q = cc

  -- The text that `open_key` hands on is the key document's own, or the author has been compared.
  open_key-author :
      (next : Next) (key_text : String) (key_doc doc : Document) {r : String × Option ℤ}
      → open_key kit next key_text key_doc doc ≡ ok r
      → (r.0 ≡ key_text) ⊎ (key_doc.author ≡ doc.author)
  unfolding open_key open_revoked
  open_key-author next key_text key_doc doc h =
      elim (Bool-cases (str_eq key_doc.schema subkey_url)) [
        | inl e ↦ let h' = rw e at h in inl (cc)
        | inr n ↦ elim (Bool-cases (str_eq key_doc.schema revoked_subkey_url)) [
          | inl e ↦
              (let h' = rw (n, e) at h in
                let (_, _, h₁) = >>=-eq-ok (need (kit.codec.decode_signed key_text) _) _ h' in
                let (_, author, _) = >>=-eq-ok (require _ _) _ h₁ in
                inr (str_eq→eq _ _ (require-eq-ok _ _ author)))
          | inr m ↦ (let h' = rw (n, m) at h in absurd (cc))
        ]
      ]

  verify_subkey-IsBacked :
      (next : Next) (text : String) (signature key : Option String) (doc : Document)
      → IsSound next
      → verify_subkey kit next text signature key doc ≡ ok tt
      → IsBacked doc.author
  verify_subkey-IsBacked next text signature key doc sound h =
      let f = subkey_facts next text signature key doc h in
      let backed = sound master_only f.key_sd f.key_doc f.key_verified f.key_decoded in
      elim (open_key-author next (text_of f.key_sd) f.key_doc doc f.opened) [
        | inl e ↦
            move
              (ap (λ (d : Document). d.author)
                  (same_doc f.key_decoded (ap kit.codec.decode (sym e) ∙ f.enact_decoded))
                ∙ f.author)
              backed
        | inr e ↦ move e backed
      ]

  verify_reference-IsBacked :
      (next : Next) (text : String) (href : Option String) (refs : References) (doc : Document)
      → IsSound next
      → verify_reference kit next text href refs doc ≡ ok tt
      → IsBacked doc.author
  unfolding verify_reference
  verify_reference-IsBacked next text href refs doc sound h =
      let (uri, _, h₁) = >>=-eq-ok (need href _) _ h in
      let (_, _, h₂) = >>=-eq-ok (require (str_eq doc.schema reference_url) _) _ h₁ in
      let (ref, _, h₃) = >>=-eq-ok (need (kit.codec.decode_href text) _) _ h₂ in
      let (_, _, h₄) = >>=-eq-ok (require (str_eq ref uri) _) _ h₃ in
      let (target_sd, _, h₅) = >>=-eq-ok (resolve kit refs uri) _ h₄ in
      let (_, verified, h₆) = >>=-eq-ok (next none target_sd) _ h₅ in
      let (target, decoded, h₇) = >>=-eq-ok (need _ _) _ h₆ in
      let (_, author, h₈) = >>=-eq-ok (require _ _) _ h₇ in
      move (str_eq→eq _ _ (require-eq-ok _ _ author))
        (sound none target_sd target verified (need-eq-ok _ _ decoded))

  -- The derived text is the embedded one with another kind.
  derive_acked-text :
      (text : String) (p : Proof) {expected : SignedDocument}
      → derive_acked kit.codec (embed text p) ≡ some expected
      → (d : Document) × (kind : String) × (kit.codec.decode text ≡ some d)
        × (kit.codec.encode_kind text kind ≡ some (text_of expected))
  unfolding derive_acked
  derive_acked-text text p h = elim (Option-cases (kit.codec.decode text)) [
    | inl e ↦ (let h' = rw (e, derive_acked) at h in absurd (cc))
    | inr (d, e) ↦ elim (Option-cases (acked_kind d.kind)) [
      | inl f ↦ (let h' = rw (e, derive_acked) at h in let h'' = rw f at h' in absurd (cc))
      | inr (kind, f) ↦ elim (Option-cases (kit.codec.encode_kind text kind)) [
        | inl g ↦
            (let h₁ = rw (e, derive_acked) at h in
              let h₂ = rw f at h₁ in let h₃ = rw g at h₂ in absurd (cc))
        | inr (derived, g) ↦
            (let h₁ = rw (e, derive_acked) at h in
              let h₂ = rw f at h₁ in let h₃ = rw g at h₂ in (d, kind, e, g ∙ ap text_in h₃))
      ]
    ]
  ]

  verify_direct-IsBacked :
      (next : Next) (text : String) (embedded : Option String) (p : InnerProof) (doc : Document)
      → KeepsAuthor
      → IsSound next
      → kit.codec.decode text ≡ some doc
      → verify_direct kit next text embedded p doc ≡ ok tt
      → IsBacked doc.author
  unfolding verify_direct
  verify_direct-IsBacked next text embedded p doc keeps sound d h =
      let (source, _, h₁) = >>=-eq-ok (need embedded _) _ h in
      let (q, _, h₂) = >>=-eq-ok (need (inner_proof p) _) _ h₁ in
      let (_, verified, h₃) = >>=-eq-ok (next embedded_only (embed source q)) _ h₂ in
      let (_, _, h₄) =
        >>=-eq-ok (require (str_eq doc.kind "acked" || str_eq doc.kind "unacked") _) _ h₃ in
      let (expected, derived, h₅) =
        >>=-eq-ok (need (derive_acked kit.codec (embed source q)) _) _ h₄ in
      let (ack, kind, decoded, encoded) = derive_acked-text source q (need-eq-ok _ _ derived) in
      let same = str_eq→eq text (text_of expected) (require-eq-ok _ _ h₅) in
      move (sym (keeps source kind text ack doc decoded (encoded ∙ ap some (sym same)) d))
        (sound embedded_only (embed source q) ack verified decoded)

  verify_proof-IsBacked :
      (next : Next) (text : String) (p : Proof) (refs : References) (doc : Document)
      → KeepsAuthor
      → IsSound next
      → kit.codec.decode text ≡ some doc
      → verify_proof kit next text p refs doc ≡ ok tt
      → IsBacked doc.author
  unfolding verify_proof
  verify_proof-IsBacked next text (proof t signature href key document p) refs doc keeps sound d h =
      elim (proof_case t) [
        | ecrecover e ↦ verify_ecrecover-IsBacked text signature doc d (at_type e)
        | subkey e ↦ verify_subkey-IsBacked next text signature key doc sound (at_type e)
        | document_reference e ↦ verify_reference-IsBacked next text href refs doc sound (at_type e)
        | document_direct e ↦
            verify_direct-IsBacked next text document p doc keeps sound d (at_type e)
        | refused never ↦ absurd (never kit next text signature href key document p refs doc h)
      ]
    where
      at_type :
          {u : String}
          → t ≡ u
          → verify_proof kit next text (proof u signature href key document p) refs doc ≡ ok tt
      at_type e =
          subst
            (λ s.
              verify_proof kit next text (proof s signature href key document p) refs doc ≡ ok tt)
            e h

  verify_depth-IsBacked : (depth : ℕ) → KeepsAuthor → IsSound (verify_depth kit depth)
  unfolding verify_depth
  verify_depth-IsBacked zero keeps allowed sd doc h d = absurd (cc)
  verify_depth-IsBacked (suc depth) keeps allowed sd doc h d =
      let o = open_verified kit depth allowed sd h in
      move (ap (λ (x : Document). x.author) (same_doc o.decoded d)) (
        verify_proof-IsBacked (verify_depth kit depth) (text_of sd) (proof_of sd) (references_of sd)
          o.doc keeps (verify_depth-IsBacked depth keeps) o.decoded o.proved)

  -- If writing a document with another kind keeps its author, and `Verify` accepts a document,
  -- by whichever proof, then the author that the document names has signed some document of that
  -- author with the author's own key.
  pub verify-IsBacked :
      (sd : SignedDocument) (doc : Document)
      → KeepsAuthor
      → kit.codec.decode (text_of sd) ≡ some doc
      → verify kit sd ≡ ok tt
      → IsBacked doc.author
  unfolding verify
  verify-IsBacked sd doc keeps d h = verify_depth-IsBacked max_verify_depth keeps none sd doc h d

  pub verify_with_proof_types-IsBacked :
      (allowed : Option (List String)) (sd : SignedDocument) (doc : Document)
      → KeepsAuthor
      → kit.codec.decode (text_of sd) ≡ some doc
      → verify_with_proof_types kit allowed sd ≡ ok tt
      → IsBacked doc.author
  unfolding verify_with_proof_types
  verify_with_proof_types-IsBacked allowed sd doc keeps d h =
      verify_depth-IsBacked max_verify_depth keeps allowed sd doc h d
