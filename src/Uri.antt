-- ===== src/Uri.antt =====
-- utils.go: cc URIs, their printed form and `ParseCCURI`. The package net/url is a parameter:
-- `url.QueryUnescape`, and `url.Parse` with the parts of a URL that the code reads.
pub mod RoundTrip
use concrnt.Prelude.{
  ℕ, String, Bool, false, not, ◌&&◌, ◌||◌, List, [], ◌∷◌, Option, none, some, leb, ◌==◌, str_eq,
  if◌then◌else◌,
}
use concrnt.Prelude.Outcome.{Outcome, ok, err}
use concrnt.Prelude.Text.{concat, split, trim_prefix, trim_suffix, all_codes, codes}
use concrnt.Prelude.Text
use Prim.Native.String

-- The parts of a `url.URL` that are read; `user` is the user name of `uri.User`.
pub record Url : Type 0 where
  pub scheme : String
  pub host : String
  pub path : String
  pub user : Option String

-- net/url: `none` is an error.
pub record UrlPackage : Type 0 where
  pub query_unescape : String → Option String
  pub parse_url : String → Option Url
  -- `URL.String`, of a scheme, a host and a path
  pub url_text : String → String → String → String

pub record CcUri : Type 0 where
  pub scheme : String
  pub owner : String
  pub key : String
  pub type_name : String
  pub cdid : String
  pub hint : Option String
  pub raw : String

abbrev pub ccfs_type_concrnt : String
ccfs_type_concrnt = "concrnt"

abbrev pub ccfs_type_blob : String
ccfs_type_blob = "blob"

-- `owner` or `owner@hint`, as both formats of `String` begin
abbrev authority : CcUri → String
authority c = elim c.hint [ none ↦ c.owner | some h ↦ concat c.owner (concat "@" h) ]

-- `CCURI.String`
unfoldable pub to_string : CcUri → String
unfolding trim_suffix
to_string c =
    if str_eq c.scheme "cckv"
    then (let result = concat "cckv://" (concat (authority c) (concat "/" c.key)) in
        if str_eq c.key "" then trim_suffix b'/' result else result)
    else if str_eq c.scheme "ccfs"
    then concat "ccfs://"
        (concat (authority c) (concat "/" (concat c.type_name (concat "/" c.cdid))))
    else c.raw

abbrev is_hex_code : ℕ → Bool
is_hex_code c =
    (leb b'0' c && leb c b'9') || (leb b'a' c && leb c b'f') || (leb b'A' c && leb c b'F')

-- isSha256Hex
unfoldable pub is_sha256_hex : String → Bool
is_sha256_hex s = if not (String.len s == 64) then false else all_codes is_hex_code s

pub data UriError : Type 0 where
  invalid_encoding invalid_uri invalid_owner invalid_type invalid_blob invalid_ccfs : UriError
  unsupported_scheme : UriError

-- the owner and the hint, before the owner is unescaped
abbrev pub raw_owner : Url → String × Option String
raw_owner uri = elim uri.user [
  | none ↦ (uri.host, none)
  | some name ↦
      (if not (str_eq name "") then (name, some uri.host) else (concat "@" uri.host, none))
]

-- the `switch` on the parts of a ccfs path
unfoldable pub parse_ccfs : List String → Outcome UriError (String × String)
unfolding is_sha256_hex
parse_ccfs (hash ∷ []) =
    if not (str_eq hash "")
      && not (str_eq hash ccfs_type_concrnt)
      && not (str_eq hash ccfs_type_blob)
    then ok (ccfs_type_concrnt, hash)
    else err invalid_ccfs
parse_ccfs (type_name ∷ hash ∷ []) =
    if not (str_eq type_name "") && not (str_eq hash "")
    then (if not (str_eq type_name ccfs_type_concrnt) && not (str_eq type_name ccfs_type_blob)
        then err invalid_type
        else if str_eq type_name ccfs_type_blob && not (is_sha256_hex hash)
        then err invalid_blob
        else ok (type_name, hash))
    else err invalid_ccfs
parse_ccfs _ = err invalid_ccfs

abbrev ccfs_uri :
    String → Option String → String → Outcome UriError (String × String) → Outcome UriError CcUri
ccfs_uri owner hint raw (ok (type_name, hash)) = ok (record {
  scheme = "ccfs";
  owner = owner;
  key = "";
  type_name = type_name;
  cdid = hash;
  hint = hint;
  raw = raw;
})
ccfs_uri owner hint raw (err e) = err e
ccfs_uri owner hint raw Outcome.panic = Outcome.panic

-- the `switch uri.Scheme`
unfoldable pub dispatch_scheme : Url → String → Option String → String → Outcome UriError CcUri
unfolding parse_ccfs split trim_prefix
dispatch_scheme uri owner hint raw =
    let key = trim_prefix b'/' uri.path in
    if str_eq uri.scheme "cckv"
    then ok (record {
      scheme = "cckv";
      owner = owner;
      key = key;
      type_name = "";
      cdid = "";
      hint = hint;
      raw = raw;
    })
    else if str_eq uri.scheme "ccfs"
    then ccfs_uri owner hint raw (parse_ccfs (split b'/' key))
    else if str_eq uri.scheme "http" || str_eq uri.scheme "https"
    then ok (record {
      scheme = "http";
      owner = "";
      key = "";
      type_name = "";
      cdid = "";
      hint = none;
      raw = raw;
    })
    else if str_eq uri.scheme ""
    then ok (record {
      scheme = "cckv";
      owner = uri.path;
      key = "";
      type_name = "";
      cdid = "";
      hint = none;
      raw = raw;
    })
    else err unsupported_scheme

-- ParseCCURI
unfoldable pub parse_cc_uri : UrlPackage → String → Outcome UriError CcUri
unfolding dispatch_scheme
parse_cc_uri url escaped = elim (url.query_unescape escaped) [
  | none ↦ err invalid_encoding
  | some text ↦ elim (url.parse_url text) [
    | none ↦ err invalid_uri
    | some uri ↦ elim (url.query_unescape (raw_owner uri).0) [
      | none ↦ err invalid_owner
      | some owner ↦ dispatch_scheme uri owner (raw_owner uri).1 text
    ]
  ]
]

-- ComposeCCURI
abbrev pub compose_cc_uri : UrlPackage → String → String → String → String
compose_cc_uri url scheme owner key = url.url_text scheme owner key

-- ComposeCCFSURI
abbrev pub compose_ccfs_uri : UrlPackage → String → String → String → String
compose_ccfs_uri url owner ccfs_type hash =
    compose_cc_uri url "ccfs" owner (concat ccfs_type (concat "/" hash))

-- hasChar
abbrev pub has_char : String → ℕ → Bool
has_char String.[] c = false
has_char (String.◌∷◌ d s) c = Prim.Native.Char.code d == c || has_char s c

-- IsCCID, IsCSID, IsCKID: 42 bytes, a prefix of three letters, and no dot
unfoldable pub is_id : String → String → Bool
is_id prefix key_id =
    String.len key_id == 42 && Text.has_prefix key_id prefix && not (has_char key_id b'.')

unfoldable pub is_ccid : String → Bool
unfolding is_id
is_ccid key_id = is_id "con" key_id

unfoldable pub is_csid : String → Bool
unfolding is_id
is_csid key_id = is_id "ccs" key_id

unfoldable pub is_ckid : String → Bool
unfolding is_id
is_ckid key_id = is_id "cck" key_id
