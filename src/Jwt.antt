-- ===== src/Jwt.antt =====
-- jwt/functions.go: tokens. encoding/base64, encoding/json and strconv are parameters.
pub mod Valid
use concrnt.Prelude.{
  ℕ, String, Bool, true, false, not, ◌&&◌, ◌||◌, List, [], ◌∷◌, Option, none, some, str_eq,
  if◌then◌else◌,
}
use concrnt.Prelude.Int.{ℤ, ltb_ℤ}
use concrnt.Prelude.Outcome.{Outcome, ok, err, panic, ◌>>=◌}
use concrnt.Prelude.Text.{concat, split, codes}
use concrnt.Crypto.{CryptoPackage, SignatureError, verify_signature}

-- jwt/types.go
pub record Header : Type 0 where
  pub algorithm : String
  pub type_name : String

pub record Claims : Type 0 where
  pub issuer : String
  pub subject : String
  pub expiration_time : String

-- `RawURLEncoding.DecodeString`, into bytes; `json.Unmarshal` of bytes; `strconv.ParseInt`
pub record Library : Type 0 where
  pub crypto : CryptoPackage
  pub decode_base64 : String → Option (List ℕ)
  pub header_of : List ℕ → Option Header
  pub claims_of : List ℕ → Option Claims
  pub parse_int : String → Option ℤ

pub data JwtError : Type 0 where
  bad_format bad_encoding bad_json unsupported_type bad_expiration expired bad_signature : JwtError

abbrev pub need : {A : Type 0} → Option A → JwtError → Outcome JwtError A
need none e = err e
need (some a) e = ok a

abbrev pub require : Bool → JwtError → Outcome JwtError (Unit {0})
require true e = ok tt
require false e = err e

-- the three parts of a token
pub record Parts : Type 0 where
  pub header : String
  pub payload : String
  pub signature : String

unfoldable pub parts_of : String → Option Parts
unfolding split
parts_of jwt = elim (split b'.' jwt) [
  | h ∷ p ∷ s ∷ [] ↦ some (record { header = h; payload = p; signature = s })
  | _ ↦ none
]

-- Parse
unfoldable pub parse : Library → String → Outcome JwtError (Header × Claims)
unfolding parts_of
parse lib jwt = need (parts_of jwt) bad_format >>= λ parts.
    need (lib.decode_base64 parts.header) bad_encoding >>= λ header_bytes.
    need (lib.header_of header_bytes) bad_json >>= λ header.
    need (lib.decode_base64 parts.payload) bad_encoding >>= λ payload_bytes.
    need (lib.claims_of payload_bytes) bad_json >>= λ claims. ok (header, claims)

-- the check of `exp`, at an instant in seconds
unfoldable pub check_expiration : Library → ℤ → String → Outcome JwtError (Unit {0})
check_expiration lib now text =
    if str_eq text ""
    then ok tt
    else (need (lib.parse_int text) bad_expiration >>= λ exp. require (not (ltb_ℤ exp now)) expired)

from_signature : Outcome SignatureError (Unit {0}) → Outcome JwtError (Unit {0})
from_signature (ok u) = ok tt
from_signature (err e) = err bad_signature
from_signature panic = panic

-- Validate
unfoldable pub validate : Library → ℤ → String → String → Outcome JwtError (Unit {0})
unfolding parse check_expiration parts_of from_signature verify_signature
validate lib now jwt signer = parse lib jwt >>= λ (header, claims).
    require (str_eq header.type_name "JWT" && str_eq header.algorithm "CONCRNT") unsupported_type
    >>= λ _. check_expiration lib now claims.expiration_time >>= λ _.
        need (parts_of jwt) bad_format >>= λ parts.
        need (lib.decode_base64 parts.signature) bad_encoding >>= λ signature. from_signature (
          verify_signature lib.crypto (codes (concat parts.header (concat "." parts.payload)))
            signature signer)
