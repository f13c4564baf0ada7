-- ===== src/Jwt/Valid.antt =====
-- jwt/functions.go: what a token that Validate accepts has.
use concrnt.Prelude.{
  ℕ, ◌≡◌, refl, String, Bool, true, false, ◌&&◌, ◌⊎◌, inl, inr, List, Option, none, some, str_eq,
  if-cases, not-eq-true,
}
use concrnt.Prelude.Int.{ℤ, ltb_ℤ}
use concrnt.Prelude.Outcome.{Outcome, ok, err, panic, >>=-eq-ok}
use concrnt.Prelude.Text.{concat, codes}
use concrnt.Crypto.{SignatureError, verify_signature}
use concrnt.Jwt.{
  Header, Claims, Library, JwtError, need, require, Parts, parts_of, parse, check_expiration,
  from_signature, validate, unsupported_type, bad_format, bad_encoding, bad_expiration,
}

-- A token has a supported type, is not expired, and its header and payload are signed by the signer.
pub record IsValid (lib : Library) (now : ℤ) (jwt signer : String) : Type 0 where
  pub header : Header
  pub claims : Claims
  pub parsed : parse lib jwt ≡ ok (header, claims)
  pub supported : (str_eq header.type_name "JWT" && str_eq header.algorithm "CONCRNT") ≡ true
  pub fresh :
      (str_eq claims.expiration_time "" ≡ true)
      ⊎ ((exp : ℤ) × (lib.parse_int claims.expiration_time ≡ some exp) × (ltb_ℤ exp now ≡ false))
  pub parts : Parts
  pub split : parts_of jwt ≡ some parts
  pub signature : List ℕ
  pub decoded : lib.decode_base64 parts.signature ≡ some signature
  pub signed :
      verify_signature lib.crypto
        (codes (concat parts.header (concat "." parts.payload)))
        signature
        signer
      ≡ ok tt

need-eq-ok : {A : Type 0} (o : Option A) (e : JwtError) {a : A} → need o e ≡ ok a → o ≡ some a
need-eq-ok none e h = cc
need-eq-ok (some b) e h = cc

require-eq-ok : (b : Bool) (e : JwtError) {u : Unit {0}} → require b e ≡ ok u → b ≡ true
require-eq-ok true e h = refl
require-eq-ok false e h = cc

from_signature-eq-ok :
    (o : Outcome SignatureError (Unit {0})) {u : Unit {0}} → from_signature o ≡ ok u → o ≡ ok tt
unfolding from_signature
from_signature-eq-ok (ok u) h = refl
from_signature-eq-ok (err e) h = cc
from_signature-eq-ok panic h = cc

check_expiration-eq-ok :
    (lib : Library) (now : ℤ) (text : String) {u : Unit {0}}
    → check_expiration lib now text ≡ ok u
    → (str_eq text "" ≡ true)
      ⊎ ((exp : ℤ) × (lib.parse_int text ≡ some exp) × (ltb_ℤ exp now ≡ false))
unfolding check_expiration
check_expiration-eq-ok lib now text h = elim (if-cases (str_eq text "") h) [
  | inl (never, _) ↦ inl never
  | inr (_, h1) ↦
      let (exp, read, later) = >>=-eq-ok (need (lib.parse_int text) bad_expiration) _ h1 in
      inr (exp, need-eq-ok _ _ read, not-eq-true _ (require-eq-ok _ _ later))
]

-- A token that Validate accepts for a signer has the type JWT and the algorithm CONCRNT, its
-- expiration, if it has one, is not over, and its third part is a signature of the signer on the
-- other two.
pub validate-IsValid :
    (lib : Library) (now : ℤ) (jwt signer : String)
    → validate lib now jwt signer ≡ ok tt
    → IsValid lib now jwt signer
unfolding validate
validate-IsValid lib now jwt signer h =
    let ((header, claims), parsed, h1) = >>=-eq-ok (parse lib jwt) _ h in
    let (_, supported, h2) =
      >>=-eq-ok
        (require (str_eq header.type_name "JWT" && str_eq header.algorithm "CONCRNT")
          unsupported_type)
        _ h1 in
    let (_, fresh, h3) = >>=-eq-ok (check_expiration lib now claims.expiration_time) _ h2 in
    let (parts, split, h4) = >>=-eq-ok (need (parts_of jwt) bad_format) _ h3 in
    let (signature, decoded, done) =
      >>=-eq-ok (need (lib.decode_base64 parts.signature) bad_encoding) _ h4 in
    record {
      header = header;
      claims = claims;
      parsed = parsed;
      supported = require-eq-ok _ _ supported;
      fresh = check_expiration-eq-ok lib now claims.expiration_time fresh;
      parts = parts;
      split = need-eq-ok _ _ split;
      signature = signature;
      decoded = need-eq-ok _ _ decoded;
      signed = from_signature-eq-ok _ done;
    }
