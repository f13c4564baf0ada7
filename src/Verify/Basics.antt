-- ===== src/Verify/Basics.antt =====
-- verify.go: inversion of checks, the allowed types, and the depth.
use concrnt.Prelude.{
  ℕ, suc, String, ◌≡◌, ◌≢◌, refl, Bool, true, false, List, [], ◌∷◌, Option, none, some, Bool-cases,
  inl, inr, str_eq, str_eq→eq,
}
use concrnt.Prelude.Outcome.{ok, >>=-eq-ok}
use concrnt.Prelude.Text.{contains}
use concrnt.Document.{
  Document, Proof, proof, InnerProof, SignedDocument, References, text_of, proof_of, references_of,
  type_of, proof_type_none, proof_type_ecrecover, proof_type_subkey, proof_type_document_reference,
  proof_type_document_direct,
}
use concrnt.Verify.{
  VerifyError, proof_type_not_allowed, Kit, require, need, is_allowed, verify_proof, verify_depth,
  verify_with_proof_types, Next,
}

pub require-eq-ok : (b : Bool) (e : VerifyError) → require b e ≡ ok tt → b ≡ true
require-eq-ok true e h = refl
require-eq-ok false e h = cc

pub need-eq-ok :
    {A : Type 0} (o : Option A) (e : VerifyError) {a : A} → need o e ≡ ok a → o ≡ some a
need-eq-ok (some b) e h = cc
need-eq-ok none e h = cc

-- What a successful verification has checked first.
pub record Opened (kit : Kit) (depth : ℕ) (allowed : Option (List String)) (sd : SignedDocument)
    : Type 0 where
  pub doc : Document
  pub decoded : kit.codec.decode (text_of sd) ≡ some doc
  pub type_allowed : is_allowed allowed (type_of (proof_of sd)) ≡ true
  pub proved :
      verify_proof kit (verify_depth kit depth) (text_of sd) (proof_of sd) (references_of sd) doc
      ≡ ok tt

pub open_verified :
    (kit : Kit) (depth : ℕ) (allowed : Option (List String)) (sd : SignedDocument)
    → verify_depth kit (suc depth) allowed sd ≡ ok tt
    → Opened kit depth allowed sd
unfolding verify_depth
open_verified kit depth allowed sd h =
    let (u, permitted, h₁) = >>=-eq-ok (require _ proof_type_not_allowed) _ h in
    let (doc, decoded, h₂) = >>=-eq-ok (need _ _) _ h₁ in
    record {
      doc = doc;
      decoded = need-eq-ok _ _ decoded;
      type_allowed = require-eq-ok _ _ permitted;
      proved = h₂;
    }

-- The proof types that can verify at all.
abbrev pub supported : List String
supported =
    "concrnt-ecrecover-direct" ∷ "concrnt-ecrecover-subkey" ∷ "document-reference"
    ∷ "document-direct" ∷ []

-- Which case of the `switch` a proof type takes.
pub data ProofCase (t : String) : Type 0 where
  ecrecover : t ≡ proof_type_ecrecover → ProofCase t
  subkey : t ≡ proof_type_subkey → ProofCase t
  document_reference : t ≡ proof_type_document_reference → ProofCase t
  document_direct : t ≡ proof_type_document_direct → ProofCase t
  refused :
      ((kit : Kit) (next : Next) (text : String) (signature href key document : Option String)
          (p : InnerProof) (refs : References) (doc : Document)
        → verify_proof kit next text (proof t signature href key document p) refs doc ≢ ok tt)
      → ProofCase t

pub proof_case : (t : String) → ProofCase t
unfolding verify_proof
proof_case t = elim (Bool-cases (str_eq t proof_type_ecrecover)) [
  | inl e ↦ ecrecover (str_eq→eq _ _ e)
  | inr n₁ ↦ elim (Bool-cases (str_eq t proof_type_subkey)) [
    | inl e ↦ subkey (str_eq→eq _ _ e)
    | inr n₂ ↦ elim (Bool-cases (str_eq t proof_type_document_reference)) [
      | inl e ↦ document_reference (str_eq→eq _ _ e)
      | inr n₃ ↦ elim (Bool-cases (str_eq t proof_type_document_direct)) [
        | inl e ↦ document_direct (str_eq→eq _ _ e)
        | inr n₄ ↦ elim (Bool-cases (str_eq t proof_type_none)) [
          | inl n₅ ↦ refused (λ kit next text signature href key document p refs doc.
              rw (n₁, n₂, n₃, n₄, n₅) (λ h. cc))
          | inr n₅ ↦ refused (λ kit next text signature href key document p refs doc.
              rw (n₁, n₂, n₃, n₄, n₅) (λ h. cc))
        ]
      ]
    ]
  ]
]

verify_proof-supported :
    (kit : Kit) (next : Next) (text : String) (p : Proof) (refs : References) (doc : Document)
    → verify_proof kit next text p refs doc ≡ ok tt
    → contains supported (type_of p) ≡ true
unfolding contains
verify_proof-supported kit next text (proof t signature href key document p) refs doc h =
    elim (proof_case t) [
      | ecrecover e ↦ rw e
      | subkey e ↦ rw e
      | document_reference e ↦ rw e
      | document_direct e ↦ rw e
      | refused never ↦ absurd (never kit next text signature href key document p refs doc h)
    ]

-- A document that verifies carries a proof type of the caller's list, if there is one, and always
-- one of the four that can be checked: an unsigned document never verifies.
pub verify-type :
    (kit : Kit) (allowed : Option (List String)) (sd : SignedDocument)
    → verify_with_proof_types kit allowed sd ≡ ok tt
    → (is_allowed allowed (type_of (proof_of sd)) ≡ true)
      × (contains supported (type_of (proof_of sd)) ≡ true)
unfolding verify_with_proof_types
verify-type kit allowed sd h =
    let o = open_verified kit 3 allowed sd h in
    (
      o.type_allowed,
      verify_proof-supported kit (verify_depth kit 3) (text_of sd) (proof_of sd) (references_of sd)
          o.doc o.proved,
    )
