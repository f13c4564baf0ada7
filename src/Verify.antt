-- ===== src/Verify.antt =====
-- verify.go: the verification of a signed document's proof. The document codec, the url and crypto
-- packages and the resolver are parameters; of an error only what `errors.Is` can tell is kept
-- (`errors.Join` keeps what its parts are), so a wrapped error is the error inside.
pub mod Basics
pub mod Author
pub mod Subkey
use concrnt.Prelude.{
  ℕ, zero, suc, String, Bool, true, false, not, ◌&&◌, ◌||◌, List, [], ◌∷◌, Option, none, some, ltb,
  ◌==◌, str_eq, if◌then◌else◌, take,
}
use concrnt.Prelude.Int.{ℤ, ltb_ℤ}
use concrnt.Prelude.Outcome.{Outcome, ok, err, panic, ◌>>=◌}
use concrnt.Prelude.Text.{codes, contains}
use concrnt.Uri.{UrlPackage, CcUri, UriError, parse_cc_uri, ccfs_type_concrnt}
use concrnt.Cdid
use concrnt.Crypto.{CryptoPackage, SignatureError, verify_signature, hex_decode}
use concrnt.Document.{
  Document, Proof, proof, InnerProof, no_proof, inner, SignedDocument, signed, References,
  no_reference, text_of, proof_of, references_of, type_of, find_reference, Codec, derive_acked,
  proof_type_ecrecover, proof_type_document_reference, proof_type_document_direct,
  proof_type_subkey, proof_type_none,
}

pub data VerifyError : Type 0 where
  too_deep proof_type_not_allowed none_proof_not_allowed unsupported_proof_type : VerifyError
  signature_failed no_resolver malformed mismatch : VerifyError

abbrev pub Check : Type 0
Check = Outcome VerifyError (Unit {0})

-- what `verify` works with
pub record Kit : Type 0 where
  pub codec : Codec
  pub url : UrlPackage
  pub crypto : CryptoPackage
  pub resolver : Option (String → Option SignedDocument)

-- maxVerifyDepth
abbrev pub max_verify_depth : ℕ
max_verify_depth = 4

abbrev pub subkey_url : String
subkey_url = "https://schema.concrnt.net/subkey.json"

abbrev pub revoked_subkey_url : String
revoked_subkey_url = "https://schema.concrnt.net/revoked-subkey.json"

abbrev pub reference_url : String
reference_url = "https://schema.concrnt.net/reference.json"

-- `if !c { return e }`
abbrev pub require : Bool → VerifyError → Check
require true e = ok tt
require false e = err e

-- `v, err := …; if err != nil { return e }`
abbrev pub need : {A : Type 0} → Option A → VerifyError → Outcome VerifyError A
need (some a) e = ok a
need none e = err e

from_signature : Outcome SignatureError (Unit {0}) → Check
from_signature (ok u) = ok tt
from_signature (err e) = err signature_failed
from_signature panic = panic

-- the signature of a text, in hexadecimal, by an address
unfoldable pub check_signature : Kit → String → String → String → Check
unfolding verify_signature hex_decode from_signature
check_signature kit text signature address =
    need (hex_decode (codes signature)) malformed >>= λ bytes.
    from_signature (verify_signature kit.crypto (codes text) bytes address)

-- the recursive call, with its allowed list
abbrev pub Next : Type 0
Next = Option (List String) → SignedDocument → Check

unfoldable pub verify_ecrecover : Kit → String → Option String → Document → Check
unfolding check_signature
verify_ecrecover kit text signature doc =
    need signature malformed >>= λ hex. check_signature kit text hex doc.author

-- `resolver.ResolveSignedDocument`; a nil resolver fails
abbrev pub resolve_authoritative : Kit → String → Outcome VerifyError SignedDocument
resolve_authoritative kit uri =
    need kit.resolver no_resolver >>= λ resolver. need (resolver uri) malformed

abbrev pub master_only : Option (List String)
master_only = some (proof_type_ecrecover ∷ [])

-- the enact document's text and the end of the validity, for a document with the schema of a revoked
-- subkey
unfoldable pub open_revoked :
    Kit → Next → String → Document → Document → Outcome VerifyError (String × Option ℤ)
open_revoked kit next key_text key_doc doc =
    need (kit.codec.decode_signed key_text) malformed >>= λ enact_sd.
    require (str_eq key_doc.author doc.author) mismatch >>= λ _. next master_only enact_sd >>= λ _.
    need (kit.codec.decode (text_of enact_sd)) malformed >>= λ enact_doc.
    require (str_eq enact_doc.schema subkey_url) malformed >>= λ _.
    ok (text_of enact_sd, some key_doc.created_at)

-- the `switch keyDoc.Schema`
unfoldable pub open_key :
    Kit → Next → String → Document → Document → Outcome VerifyError (String × Option ℤ)
unfolding open_revoked
open_key kit next key_text key_doc doc =
    if str_eq key_doc.schema subkey_url
    then ok (key_text, none)
    else if str_eq key_doc.schema revoked_subkey_url
    then open_revoked kit next key_text key_doc doc
    else err malformed

-- `validUntil != nil && doc.CreatedAt.After(*validUntil)`
abbrev pub is_after : ℤ → Option ℤ → Bool
is_after t none = false
is_after t (some u) = ltb_ℤ u t

unfoldable pub verify_subkey :
    Kit → Next → String → Option String → Option String → Document → Check
unfolding open_key check_signature
verify_subkey kit next text signature key doc = need signature malformed >>= λ hex.
    need key malformed >>= λ key_uri. resolve_authoritative kit key_uri >>= λ key_sd.
    next master_only key_sd >>= λ _.
    need (kit.codec.decode (text_of key_sd)) malformed >>= λ key_doc.
    open_key kit next (text_of key_sd) key_doc doc >>= λ (enact_text, valid_until).
    need (kit.codec.decode enact_text) malformed >>= λ enact_doc.
    need (kit.codec.decode_ckid enact_text) malformed >>= λ ckid.
    require (str_eq enact_doc.author doc.author) mismatch >>= λ _.
    require (not (ltb_ℤ doc.created_at enact_doc.created_at)) mismatch >>= λ _.
    require (not (is_after doc.created_at valid_until)) mismatch >>= λ _.
    check_signature kit text hex ckid

from_uri : Outcome UriError CcUri → Outcome VerifyError CcUri
from_uri (ok uri) = ok uri
from_uri (err e) = err malformed
from_uri panic = panic

-- `sd.resolve`
unfoldable pub resolve : Kit → References → String → Outcome VerifyError SignedDocument
resolve kit refs uri = elim (find_reference refs uri) [
  | some sd ↦ ok sd
  | none ↦ resolve_authoritative kit uri
]

abbrev pub same_codes : List ℕ → List ℕ → Bool
same_codes [] [] = true
same_codes [] (y ∷ ys) = false
same_codes (x ∷ xs) [] = false
same_codes (x ∷ xs) (y ∷ ys) = x == y && same_codes xs ys

-- the text of the content id of a document's text
unfoldable pub cdid_of : Kit → String → ℤ → List ℕ
cdid_of kit text t = Cdid.to_string (Cdid.new (take 10 (kit.crypto.keccak (codes text))) t)

-- `expectedOwner`
unfoldable pub expected_owner : Kit → Document → Outcome VerifyError String
unfolding from_uri
expected_owner kit target =
    if not (str_eq target.key "")
    then (from_uri (parse_cc_uri kit.url target.key) >>= λ uri. ok uri.owner)
    else elim target.associate [
      | none ↦ ok target.author
      | some associate ↦
          (if str_eq target.kind "association"
            then (from_uri (parse_cc_uri kit.url associate) >>= λ uri. ok uri.owner)
            else ok target.author)
    ]

check_keyed : Kit → CcUri → Document → Check
check_keyed kit href target = from_uri (parse_cc_uri kit.url target.key) >>= λ uri.
    require (str_eq uri.scheme "cckv" && not (str_eq uri.key "")) malformed >>= λ _.
    require (str_eq uri.owner href.owner && str_eq uri.key href.key) mismatch

check_entity : CcUri → Document → Check
check_entity href target = require (str_eq target.kind "entity") mismatch >>= λ _.
    require (str_eq target.author href.owner) mismatch

check_content : Kit → CcUri → String → Document → Check
unfolding cdid_of expected_owner
check_content kit href text target =
    require (same_codes (cdid_of kit text target.created_at) (codes href.cdid)) mismatch >>= λ _.
    expected_owner kit target >>= λ owner. require (str_eq owner href.owner) mismatch

-- the `switch` on the href: the target's text and document
unfoldable pub check_href : Kit → CcUri → String → Document → Check
unfolding check_keyed check_entity check_content
check_href kit href text target =
    if str_eq href.scheme "cckv" && not (str_eq href.key "")
    then check_keyed kit href target
    else if str_eq href.scheme "cckv"
    then check_entity href target
    else if str_eq href.scheme "ccfs" && str_eq href.type_name ccfs_type_concrnt
    then check_content kit href text target
    else err malformed

unfoldable pub verify_reference :
    Kit → Next → String → Option String → References → Document → Check
unfolding resolve check_href from_uri
verify_reference kit next text href refs doc = need href malformed >>= λ uri.
    require (str_eq doc.schema reference_url) malformed >>= λ _.
    need (kit.codec.decode_href text) malformed >>= λ ref_href.
    require (str_eq ref_href uri) mismatch >>= λ _. resolve kit refs uri >>= λ target_sd.
    next none target_sd >>= λ _. need (kit.codec.decode (text_of target_sd)) malformed >>= λ target.
    require (str_eq target.author doc.author) mismatch >>= λ _.
    from_uri (parse_cc_uri kit.url uri) >>= λ href_uri.
    check_href kit href_uri (text_of target_sd) target

abbrev pub embedded_only : Option (List String)
embedded_only = some (proof_type_ecrecover ∷ proof_type_subkey ∷ [])

abbrev inner_proof : InnerProof → Option Proof
inner_proof no_proof = none
inner_proof (inner p) = some p

-- `embedded`
abbrev pub embed : String → Proof → SignedDocument
embed text p = signed none none text p no_reference none

unfoldable pub verify_direct : Kit → Next → String → Option String → InnerProof → Document → Check
unfolding derive_acked
verify_direct kit next text embedded_text p doc = need embedded_text malformed >>= λ embedded.
    need (inner_proof p) malformed >>= λ embedded_proof.
    next embedded_only (embed embedded embedded_proof) >>= λ _.
    require (str_eq doc.kind "acked" || str_eq doc.kind "unacked") proof_type_not_allowed >>= λ _.
    need (derive_acked kit.codec (embed embedded embedded_proof)) malformed >>= λ expected.
    require (str_eq text (text_of expected)) mismatch

-- `allowed != nil && !slices.Contains(allowed, sd.Proof.Type)`
abbrev pub is_allowed : Option (List String) → String → Bool
is_allowed none t = true
is_allowed (some ts) t = contains ts t

-- the `switch sd.Proof.Type`
unfoldable pub verify_proof : Kit → Next → String → Proof → References → Document → Check
unfolding verify_ecrecover verify_subkey verify_reference verify_direct
verify_proof kit next text (proof t signature href key document p) refs doc =
    if str_eq t proof_type_ecrecover
    then verify_ecrecover kit text signature doc
    else if str_eq t proof_type_subkey
    then verify_subkey kit next text signature key doc
    else if str_eq t proof_type_document_reference
    then verify_reference kit next text href refs doc
    else if str_eq t proof_type_document_direct
    then verify_direct kit next text document p doc
    else if str_eq t proof_type_none
    then err none_proof_not_allowed
    else err unsupported_proof_type

-- `verify`, by recursion on the depth that is left
unfoldable pub verify_depth : Kit → ℕ → Option (List String) → SignedDocument → Check
unfolding verify_proof contains
verify_depth kit zero allowed sd = err too_deep
verify_depth kit (suc depth) allowed sd =
    require (is_allowed allowed (type_of (proof_of sd))) proof_type_not_allowed >>= λ _.
    need (kit.codec.decode (text_of sd)) malformed >>= λ doc.
    verify_proof kit (verify_depth kit depth) (text_of sd) (proof_of sd) (references_of sd) doc

-- Verify, VerifyWithProofTypes
unfoldable pub verify : Kit → SignedDocument → Check
unfolding verify_depth
verify kit sd = verify_depth kit max_verify_depth none sd

unfoldable pub verify_with_proof_types : Kit → Option (List String) → SignedDocument → Check
unfolding verify_depth
verify_with_proof_types kit allowed sd = verify_depth kit max_verify_depth allowed sd
