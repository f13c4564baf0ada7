-- ===== src/Crypto.antt =====
-- crypto.go: the check of a signature. Keccak, secp256k1 and bech32 are third-party packages, so
-- they are a parameter.
use concrnt.Prelude.{
  ℕ, ◌+◌, ◌*◌, String, not, ◌&&◌, List, [], ◌∷◌, Option, none, some, leb, ◌==◌, str_eq,
  if◌then◌else◌, ◌-◌,
}
use concrnt.Prelude.Outcome.{Outcome, ok, err, panic}
use Prim.Native.String

-- `keccak` is sha3.NewLegacyKeccak256; `recover` is crypto.Ecrecover on a digest and a signature;
-- `compress` reads a recovered key and compresses it; `bech32` is the address of a compressed key
-- under a prefix. `none` is an error.
pub record CryptoPackage : Type 0 where
  pub keccak : List ℕ → List ℕ
  pub recover : List ℕ → List ℕ → Option (List ℕ)
  pub compress : List ℕ → Option (List ℕ)
  pub bech32 : List ℕ → String → Option String

pub data SignatureError : Type 0 where
  bad_length bad_recovery bad_address mismatch : SignatureError

-- VerifySignature; a recovered key that secec does not read is a panic
unfoldable pub verify_signature :
    CryptoPackage → List ℕ → List ℕ → String → Outcome SignatureError (Unit {0})
verify_signature crypto message signature address =
    if not (String.len address == 42)
    then err bad_length
    else elim (crypto.recover (crypto.keccak message) signature) [
      | none ↦ err bad_recovery
      | some recovered ↦ elim (crypto.compress recovered) [
        | none ↦ panic
        | some compressed ↦ elim (crypto.bech32 compressed (String.slice address 0 3)) [
          | none ↦ err bad_address
          | some found ↦ (if not (str_eq found address) then err mismatch else ok tt)
        ]
      ]
    ]

-- the value of a hexadecimal digit
unfoldable pub hex_digit : ℕ → Option ℕ
hex_digit c =
    if leb b'0' c && leb c b'9'
    then some (c - b'0')
    else if leb b'a' c && leb c b'f'
    then some (c - b'a' + 10)
    else if leb b'A' c && leb c b'F'
    then some (c - b'A' + 10)
    else none

hex_pair : Option ℕ → Option ℕ → Option (List ℕ) → Option (List ℕ)
hex_pair (some h) (some l) (some rest) = some ((h * 16 + l) ∷ rest)
hex_pair _ _ _ = none

-- `hex.DecodeString`
unfoldable pub hex_decode : List ℕ → Option (List ℕ)
unfolding hex_digit hex_pair
hex_decode [] = some []
hex_decode (c ∷ []) = none
hex_decode (c ∷ d ∷ s) = hex_pair (hex_digit c) (hex_digit d) (hex_decode s)
