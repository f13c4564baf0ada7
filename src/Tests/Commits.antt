-- ===== src/Tests/Commits.antt =====
-- verify.go and internal/usecase/record/commit.go: the theorems on a stand-in for the cryptography,
-- a master key, a subkey and two documents.
use concrnt.Prelude.{
  String, ◌≡◌, refl, true, false, [], ◌∷◌, Option, none, some, str_eq, Bool-cases, inl, inr, ap,
  sym, ◌∙◌, if◌then◌else◌,
}
use concrnt.Prelude.Int.{pos}
use concrnt.Prelude.Outcome.{ok, err}
use concrnt.Prelude.Text.{concat, contains}
use concrnt.Document.{
  Document, proof, no_proof, SignedDocument, signed, no_reference, proof_of, type_of, Codec,
  proof_type_ecrecover, proof_type_subkey,
}
use concrnt.Uri.{UrlPackage, parse_cc_uri}
use concrnt.Crypto.{CryptoPackage}
use concrnt.Verify.{Kit, verify, verify_with_proof_types, is_allowed, subkey_url}
use concrnt.Verify.Basics.{supported, verify-type}
use concrnt.Verify.Author.{IsBacked, KeepsAuthor, verify-IsBacked}
use concrnt.Verify.Subkey.{KeyUse, verify-KeyUse}
use concrnt.Commit.{Context, CommitMode, Entity, create_record, admit, backend}
use concrnt.Commit.Guards.{Accepted, admit-Accepted, admit-IsBacked}
use concrnt.Commit.Transaction.{Transaction, execute as run_transaction}
use concrnt.Commit.Phases.{IsEnded, execute-IsEnded}

abbrev pub master : String
master = "con1aaaaaaaaaaaaaaaaaaaaaaaaaaaaaaaaaaaaaa"

abbrev subkey_id : String
subkey_id = "cck1aaaaaaaaaaaaaaaaaaaaaaaaaaaaaaaaaaaaaa"

abbrev pub note : Document
note = record {
  kind = "record";
  key = "";
  author = master;
  schema = "https://example.com/note.json";
  created_at = pos 1700000000000000000;
  associate = some "cckv://bob/x";
  distributes = none;
  association_variant = none;
  on_update = none;
  policy = none;
}

abbrev enactment : Document
enactment = record note { schema = subkey_url; created_at = pos 1600000000000000000 }

-- the document of a text, and the text of a document with another kind
abbrev pub toy_codec : Codec
toy_codec = record {
  decode = λ text. if str_eq text "enact" then some enactment else some note;
  decode_ckid = λ text. some subkey_id;
  decode_href = λ text. none;
  decode_signed = λ text. none;
  decode_string = λ text. none;
  encode_kind = λ text kind. some text;
}

-- one key pair for each prefix
abbrev pub toy_crypto : CryptoPackage
toy_crypto = record {
  keccak = λ bytes. bytes;
  recover = λ digest signature. some [];
  compress = λ key. some key;
  bech32 = λ key prefix. if str_eq prefix "con" then some master else some subkey_id;
}

abbrev pub by_master : String → SignedDocument
by_master text =
    signed none none text (proof proof_type_ecrecover (some "") none none none no_proof)
      no_reference none

abbrev by_subkey : SignedDocument
by_subkey =
    signed none none "note"
      (proof proof_type_subkey (some "") none (some "cckv://keys/1") none no_proof) no_reference
      none

-- every URI is about Bob
abbrev pub about_bob : UrlPackage
about_bob = record {
  query_unescape = λ s. some s;
  parse_url = λ s. some (record { scheme = "cckv"; host = "bob"; path = "/x"; user = none });
  url_text = λ scheme host path. concat scheme (concat "://" (concat host (concat "/" path)));
}

abbrev pub toy_kit : Kit
toy_kit = record {
  codec = toy_codec;
  url = about_bob;
  crypto = toy_crypto;
  resolver = some (λ uri. some (by_master "enact"));
}

abbrev author_of : Option Document → String
author_of none = ""
author_of (some doc) = doc.author

toy_author :
    (text : String) (doc : Document) → toy_codec.decode text ≡ some doc → master ≡ doc.author
toy_author text doc d = elim (Bool-cases (str_eq text "enact")) [
  | inl e ↦ let h = rw e at d in ap author_of h
  | inr e ↦ let h = rw e at d in ap author_of h
]

toy_keeps : KeepsAuthor toy_kit
toy_keeps text kind text' doc doc' d e d' = sym (toy_author text' doc' d') ∙ toy_author text doc d

verify-type_example :
    (is_allowed (some (proof_type_ecrecover ∷ [])) (type_of (proof_of (by_master "note"))) ≡ true)
    × (contains supported (type_of (proof_of (by_master "note"))) ≡ true)
unfolding verify_with_proof_types
verify-type_example = verify-type toy_kit (some (proof_type_ecrecover ∷ [])) (by_master "note") refl

verify-IsBacked_example : IsBacked toy_kit master
unfolding verify
verify-IsBacked_example = verify-IsBacked toy_kit by_subkey note toy_keeps refl refl

verify-KeyUse_example :
    (doc : Document) × (toy_codec.decode "note" ≡ some doc)
    × KeyUse toy_kit "note" (proof_of by_subkey) doc
unfolding verify
verify-KeyUse_example = verify-KeyUse toy_kit by_subkey refl refl

abbrev pub bob_entity : Entity
bob_entity = record { id = "bob"; domain = "example.com"; signed_document = none }

abbrev toy_context : Context
toy_context = record {
  kit = toy_kit;
  now = pos 1700000000500000000;
  is_service_account = false;
  authenticated = none;
  has_commit_log = λ id. ok false;
  get_entity = λ uri. err backend;
  get_entity_with_reference = λ id sd. ok bob_entity;
  blocking_users = λ id. ok ("carol" ∷ []);
}

admit-Accepted_example : Accepted toy_context CommitMode.execute (by_master "note") note
unfolding admit parse_cc_uri
admit-Accepted_example =
    admit-Accepted toy_context CommitMode.execute (by_master "note") note (create_record bob_entity)
      refl

admit-IsBacked_example : IsBacked toy_kit master
unfolding admit parse_cc_uri
admit-IsBacked_example =
    admit-IsBacked toy_context CommitMode.execute by_subkey note (create_record bob_entity)
      toy_keeps refl refl

abbrev toy_transaction : Transaction
toy_transaction = record {
  begins = ok tt;
  applied = ok (record { noop = false; post_processes = true ∷ false ∷ [] });
  commits = ok tt;
  has_client = true;
}

execute-IsEnded_example :
    IsEnded toy_transaction (run_transaction toy_codec by_subkey note toy_transaction).events
execute-IsEnded_example = execute-IsEnded toy_codec by_subkey note toy_transaction
