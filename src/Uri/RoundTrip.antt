-- ===== src/Uri/RoundTrip.antt =====
-- utils.go: parsing what `CCURI.String` prints.
use concrnt.Prelude.{
  String, ◌≡◌, ◌⊎◌, ◌∙◌, ap, inl, inr, refl, true, false, [], ◌∷◌, Option, none, some, Bool-cases,
  if◌then◌else◌, str_eq, str_eq→eq, ◌==◌,
}
use concrnt.Prelude.Outcome.{ok}
use concrnt.Prelude.Text.{concat, split, trim_prefix}
use Prim.Native.Char.{code}
use mathlib.Core.Path.{subst, sym}
use text.Mathlib.TextLemmas.{nil-append, cons-append}
use concrnt.Uri.{
  Url, UrlPackage, CcUri, raw_owner, parse_ccfs, dispatch_scheme, is_sha256_hex, has_char,
  ccfs_type_concrnt, ccfs_type_blob, to_string, parse_cc_uri,
}

-- An owner before a hint is not empty.
abbrev pub IsOwned : String → Option String → Type 0
IsOwned owner none = Unit
IsOwned owner (some hint) = str_eq owner "" ≡ false

-- The URIs that the parser produces for the schemes cckv and ccfs.
pub data IsCanonical : CcUri → Type 0 where
  keyed :
      {owner key raw : String} {hint : Option String}
      → IsOwned owner hint
      → IsCanonical (record {
        scheme = "cckv";
        owner = owner;
        key = key;
        type_name = "";
        cdid = "";
        hint = hint;
        raw = raw;
      })
  content :
      {owner type_name cdid raw : String} {hint : Option String}
      → IsOwned owner hint
      → (type_name ≡ ccfs_type_concrnt)
        ⊎ ((type_name ≡ ccfs_type_blob) × (is_sha256_hex cdid ≡ true))
      → str_eq cdid "" ≡ false
      → has_char cdid b'/' ≡ false
      → IsCanonical (record {
        scheme = "ccfs";
        owner = owner;
        key = "";
        type_name = type_name;
        cdid = cdid;
        hint = hint;
        raw = raw;
      })

abbrev pub path_of : CcUri → String
path_of c =
    if str_eq c.scheme "cckv"
    then (if str_eq c.key "" then "" else concat "/" c.key)
    else concat "/" (concat c.type_name (concat "/" c.cdid))

-- The parts of the printed URI: the hint stands where a URL has its host.
abbrev pub url_of : CcUri → Url
url_of c = elim c.hint [
  | none ↦ record { scheme = c.scheme; host = c.owner; path = path_of c; user = none }
  | some hint ↦ record { scheme = c.scheme; host = hint; path = path_of c; user = some c.owner }
]

-- What net/url does on a printed URI without escapes: nothing is unescaped, and the parts are found.
pub record IsPlain (url : UrlPackage) (c : CcUri) : Type 0 where
  pub unescaped : url.query_unescape (to_string c) ≡ some (to_string c)
  pub parts : url.parse_url (to_string c) ≡ some (url_of c)
  pub owner_unescaped : url.query_unescape c.owner ≡ some c.owner

slash : (s : String) → concat "/" s ≡ String.◌∷◌ "/" s
slash s = cons-append "/" "" s ∙ ap (λ t. String.◌∷◌ "/" t) (nil-append s)

split_plain : (s : String) → has_char s b'/' ≡ false → split b'/' s ≡ s ∷ []
unfolding split
split_plain String.[] h = refl
split_plain (String.◌∷◌ c s) h = elim (Bool-cases (code c == b'/')) [
  | inl e ↦ absurd (let h' = rw e at h in cc)
  | inr e ↦ let h' = rw e at h in rw (e, split_plain s h') refl
]

trim_prefix-path :
    (key : String) → trim_prefix b'/' (if str_eq key "" then "" else concat "/" key) ≡ key
unfolding trim_prefix
trim_prefix-path key = elim (Bool-cases (str_eq key "")) [
  | inl e ↦ rw e (sym (str_eq→eq key "" e))
  | inr e ↦ rw (e, slash key) refl
]

-- A kind of content and its name.
abbrev IsContent : String → String → Type 0
IsContent type_name cdid =
    (type_name ≡ ccfs_type_concrnt) ⊎ ((type_name ≡ ccfs_type_blob) × (is_sha256_hex cdid ≡ true))

split_word :
    (w s : String)
    → has_char w b'/' ≡ false
    → split b'/' (concat w (concat "/" s)) ≡ w ∷ split b'/' s
unfolding split
split_word String.[] s h = rw (nil-append (concat "/" s), slash s) refl
split_word (String.◌∷◌ c w) s h = elim (Bool-cases (code c == b'/')) [
  | inl e ↦ absurd (let h' = rw e at h in cc)
  | inr e ↦ let h' = rw e at h in rw (cons-append c w (concat "/" s), e, split_word w s h') refl
]

split_path :
    (w s : String)
    → has_char w b'/' ≡ false
    → has_char s b'/' ≡ false
    → split b'/' (concat w (concat "/" s)) ≡ w ∷ s ∷ []
split_path w s h k = split_word w s h ∙ ap (λ l. w ∷ l) (split_plain s k)

parse_ccfs-path :
    (type_name cdid : String)
    → IsContent type_name cdid
    → str_eq cdid "" ≡ false
    → has_char cdid b'/' ≡ false
    → parse_ccfs (split b'/' (concat type_name (concat "/" cdid))) ≡ ok (type_name, cdid)
unfolding parse_ccfs
parse_ccfs-path type_name cdid (inl t) e n =
    subst (λ x. parse_ccfs (split b'/' (concat x (concat "/" cdid))) ≡ ok (x, cdid)) (sym t)
      (ap parse_ccfs (split_path ccfs_type_concrnt cdid refl n) ∙ rw e refl)
parse_ccfs-path type_name cdid (inr (t, b)) e n =
    subst (λ x. parse_ccfs (split b'/' (concat x (concat "/" cdid))) ≡ ok (x, cdid)) (sym t)
      (ap parse_ccfs (split_path ccfs_type_blob cdid refl n) ∙ rw (e, b) refl)

content_key :
    (type_name cdid : String)
    → IsContent type_name cdid
    → str_eq cdid "" ≡ false
    → has_char cdid b'/' ≡ false
    → parse_ccfs (split b'/' (trim_prefix b'/' (concat "/" (concat type_name (concat "/" cdid)))))
      ≡ ok (type_name, cdid)
unfolding trim_prefix
content_key type_name cdid t e n =
    rw (slash (concat type_name (concat "/" cdid))) (parse_ccfs-path type_name cdid t e n)

dispatched :
    (c : CcUri) (raw : String)
    → IsCanonical c
    → dispatch_scheme (url_of c) c.owner c.hint raw ≡ ok (record c { raw = raw })
unfolding dispatch_scheme
dispatched c raw (keyed {owner} {key} {hint = none} o) = rw (trim_prefix-path key) refl
dispatched c raw (keyed {owner} {key} {hint = some hint} o) = rw (trim_prefix-path key) refl
dispatched c raw (content {type_name} {cdid} {hint = none} o t e n) =
    rw (dispatch_scheme, content_key type_name cdid t e n) refl
dispatched c raw (content {type_name} {cdid} {hint = some hint} o t e n) =
    rw (dispatch_scheme, content_key type_name cdid t e n) refl

raw_owner-url_of : (c : CcUri) → IsCanonical c → raw_owner (url_of c) ≡ (c.owner, c.hint)
raw_owner-url_of c (keyed {hint = none} o) = refl
raw_owner-url_of c (keyed {hint = some hint} o) = rw o refl
raw_owner-url_of c (content {hint = none} o t e n) = refl
raw_owner-url_of c (content {hint = some hint} o t e n) = rw o refl

-- If net/url finds the parts of the printed URI as they were printed and nothing in it is escaped,
-- parsing the printed form of a canonical URI gives the URI back, with that form as its raw text.
pub parse_cc_uri-to_string :
    (url : UrlPackage) (c : CcUri)
    → IsCanonical c
    → IsPlain url c
    → parse_cc_uri url (to_string c) ≡ ok (record c { raw = to_string c })
unfolding parse_cc_uri
parse_cc_uri-to_string url c canonical p =
    rw
      (
        parse_cc_uri,
        p.unescaped,
        p.parts,
        raw_owner-url_of c canonical,
        p.owner_unescaped,
        raw_owner-url_of c canonical,
      )
      (dispatched c (to_string c) canonical)
