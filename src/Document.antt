-- ===== src/Document.antt =====
-- types.go: documents, proofs and signed documents. A document is the text that was signed; what
-- `json.Unmarshal` reads from it is a parameter, `Codec`.
pub mod Public
pub mod Flags
use concrnt.Prelude.{
  ℕ, String, Bool, true, false, List, [], ◌∷◌, Option, none, some, str_eq, if◌then◌else◌,
}
use concrnt.Prelude.Int.{ℤ}
use concrnt.Prelude.Outcome.{Outcome, ok, err, panic, ◌>>=◌}

-- `Document`, without its value; an instant is an integer of nanoseconds from the unix epoch
pub record Document : Type 0 where
  pub kind : String
  pub key : String
  pub author : String
  pub schema : String
  pub created_at : ℤ
  pub associate : Option String
  pub distributes : Option (List String)
  pub association_variant : Option String
  pub on_update : Option String
  -- as `json.Marshal` writes it
  pub policy : Option String

mutual
  -- type, signature, href, key, document, proof
  pub data Proof : Type 0 where
    proof :
        String → Option String → Option String → Option String → Option String → InnerProof → Proof

  pub data InnerProof : Type 0 where
    no_proof : InnerProof
    inner : Proof → InnerProof

mutual
  -- cckv, ccfs, document, proof, references, isPublic
  pub data SignedDocument : Type 0 where
    signed :
        Option String → Option String → String → Proof → References → Option Bool → SignedDocument

  -- a map from URIs
  pub data References : Type 0 where
    no_reference : References
    reference : String → SignedDocument → References → References

abbrev pub text_of : SignedDocument → String
text_of (signed cckv ccfs text p refs public) = text

abbrev pub proof_of : SignedDocument → Proof
proof_of (signed cckv ccfs text p refs public) = p

abbrev pub references_of : SignedDocument → References
references_of (signed cckv ccfs text p refs public) = refs

abbrev pub type_of : Proof → String
type_of (proof t signature href key document p) = t

-- `ref, ok := sd.References[uri]`
unfoldable pub find_reference : References → String → Option SignedDocument
find_reference no_reference uri = none
find_reference (reference u sd refs) uri = if str_eq u uri then some sd else find_reference refs uri

abbrev pub proof_type_ecrecover : String
proof_type_ecrecover = "concrnt-ecrecover-direct"

abbrev pub proof_type_document_reference : String
proof_type_document_reference = "document-reference"

abbrev pub proof_type_document_direct : String
proof_type_document_direct = "document-direct"

abbrev pub proof_type_subkey : String
proof_type_subkey = "concrnt-ecrecover-subkey"

abbrev pub proof_type_none : String
proof_type_none = "none"

-- What encoding/json makes of texts: the document, its value read as a subkey, as a reference, as a
-- signed document or as a string, and the text of a document with another kind, with the fields in order.
pub record Codec : Type 0 where
  pub decode : String → Option Document
  pub decode_ckid : String → Option String
  pub decode_href : String → Option String
  pub decode_signed : String → Option SignedDocument
  pub decode_string : String → Option String
  pub encode_kind : String → String → Option String

-- the `switch` on the kind
abbrev pub acked_kind : String → Option String
acked_kind kind =
    if str_eq kind "ack" then some "acked" else if str_eq kind "unack" then some "unacked" else none

-- DeriveAcked: `none` is an error
unfoldable pub derive_acked : Codec → SignedDocument → Option SignedDocument
derive_acked codec (signed cckv ccfs text p refs public) = elim (codec.decode text) [
  | none ↦ none
  | some doc ↦ elim (acked_kind doc.kind) [
    | none ↦ none
    | some kind ↦ elim (codec.encode_kind text kind) [
      | none ↦ none
      | some derived ↦ some (
          signed none none derived
            (proof proof_type_document_direct none none none (some text) (inner p)) no_reference
            none)
    ]
  ]
]
