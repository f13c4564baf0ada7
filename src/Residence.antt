-- ===== src/Residence.antt =====
-- internal/usecase/residence/residence.go and impl/tags/tag.go: who becomes a resident of a server,
-- and how one leaves it. The repository, the commit of the entity document and encoding/json are
-- parameters.
pub mod Admission
use concrnt.Prelude.{
  ℕ, String, Bool, true, false, not, ◌&&◌, ◌||◌, List, [], ◌∷◌, ◌++◌, Option, none, some, str_eq,
  if◌then◌else◌,
}
use concrnt.Prelude.Int.{ℤ, negsuc, ltb_ℤ}
use concrnt.Prelude.Outcome.{Outcome, ok, err, panic, ◌>>=◌}
use concrnt.Prelude.Text.{split}
use concrnt.Prelude.Dict
use concrnt.Prelude.Dict.{Dict}
use concrnt.Document.{SignedDocument, text_of}
use concrnt.Jwt
use concrnt.Jwt.{Library, Claims}

-- one tag of a list: a pair of more than two parts is left out
abbrev pub put_tag : List String → Dict String → Dict String
put_tag (key ∷ []) body = Dict.put body key ""
put_tag (key ∷ value ∷ []) body = Dict.put body key value
put_tag _ body = body

unfoldable pub put_tags : List String → Dict String → Dict String
unfolding split Dict.put
put_tags [] body = body
put_tags (tag ∷ rest) body = put_tags rest (put_tag (split b':' tag) body)

-- `tags.Parse`
unfoldable pub parse_tags : String → Dict String
unfolding put_tags split
parse_tags input = put_tags (split b',' input) []

-- `Tags.Has`
unfoldable pub has_tag : Dict String → String → Bool
unfolding Dict.get
has_tag body key = elim (Dict.get body key) [ none ↦ false | some v ↦ true ]

pub record StoredEntity : Type 0 where
  pub tag_string : String
  pub signed_document : Option SignedDocument

-- schemas/entity.go and `Document`, as far as Register reads them
pub record EntityDocument : Type 0 where
  pub author : String
  pub domain : String
  pub created_at : ℤ

-- A call that changes something.
pub data Effect : Type 0 where
  mark_commit_logs delete_meta : String → Effect
  update_meta_info : String → String → Effect
  save_meta : String → Option String → String → Effect
  commit : SignedDocument → Effect

pub data Failure : Type 0 where
  not_authenticated code_required invalid_code closed captcha malformed wrong_domain older : Failure
  not_registered backend : Failure

-- What was called, and what is returned.
pub record Run : Type 0 where
  pub effects : List Effect
  pub result : Outcome Failure (Unit {0})

pub record Residence : Type 0 where
  pub fqdn : String
  pub csid : String
  pub registration : String
  pub jwt : Library
  pub now : ℤ
  pub get_entity : String → Outcome Failure StoredEntity
  pub read_entity : String → Option EntityDocument
  pub perform : Effect → Outcome Failure (Unit {0})

pub record Request : Type 0 where
  pub invite_token : Option String
  pub signed_document : SignedDocument
  -- as `json.Marshal` writes it
  pub meta : Option String
  -- the captcha of the context: not asked for, or whether it was passed
  pub captcha_verified : Option Bool

abbrev pub refuse : Failure → Run
refuse e = record { effects = []; result = err e }

-- an effect and, if it does not fail, what comes after
abbrev pub after_performed : Effect → Outcome Failure (Unit {0}) → Run → Run
after_performed e (ok u) rest = record { effects = e ∷ rest.effects; result = rest.result }
after_performed e failed rest = record { effects = e ∷ []; result = failed }

abbrev pub finished : Run
finished = record { effects = []; result = ok tt }

-- Unregister
unfoldable pub unregister : Residence → Option String → Run
unregister r none = refuse not_authenticated
unregister r (some id) =
    after_performed (mark_commit_logs id) (r.perform (mark_commit_logs id))
      (after_performed (delete_meta id) (r.perform (delete_meta id)) finished)

-- UpdateRegistration; the failure of the repository is returned as it is
unfoldable pub update_registration : Residence → Option String → Option String → Run
update_registration r none info = refuse not_authenticated
update_registration r (some id) none = refuse malformed
update_registration r (some id) (some info) =
    after_performed (update_meta_info id info) (r.perform (update_meta_info id info)) finished

-- whether the issuer of an invitation may invite
unfoldable pub check_issuer : Residence → String → Outcome Failure (Unit {0})
unfolding has_tag parse_tags
check_issuer r issuer = if str_eq issuer r.csid then ok tt else elim (r.get_entity issuer) [
  | err e ↦ err invalid_code
  | panic ↦ panic
  | ok e ↦ (if has_tag (parse_tags e.tag_string) "_invite" then ok tt else err invalid_code)
]

-- every failure of a token refuses the invitation
abbrev pub as_invalid : {A : Type 0} → Outcome Jwt.JwtError A → Outcome Failure A
as_invalid (ok a) = ok a
as_invalid (err e) = err invalid_code
as_invalid panic = panic

-- the invitation of a token, and who it is by
unfoldable pub check_invitation : Residence → String → Outcome Failure String
unfolding check_issuer Jwt.parse Jwt.validate
check_invitation r token = as_invalid (Jwt.parse r.jwt token) >>= λ (header, claims).
    as_invalid (Jwt.validate r.jwt r.now token claims.issuer) >>= λ _.
    (if str_eq claims.subject "invite"
      then (check_issuer r claims.issuer >>= λ _. ok claims.issuer)
      else err invalid_code)

-- the `switch` on how the server registers
unfoldable pub check_registration : Residence → Option String → Outcome Failure (Option String)
unfolding check_invitation
check_registration r token =
    if str_eq r.registration "invite"
    then elim token [
      | none ↦ err code_required
      | some t ↦ (check_invitation r t >>= λ inviter. ok (some inviter))
    ]
    else if str_eq r.registration "open"
    then ok none
    else err closed

abbrev pub check_captcha : Option Bool → Outcome Failure (Unit {0})
check_captcha none = ok tt
check_captcha (some true) = ok tt
check_captcha (some false) = err captcha

-- the zero `time.Time`, the beginning of the year 1
abbrev pub zero_time : ℤ
zero_time = negsuc 62135596799999999999

-- the stored entity is not newer; one that cannot be looked up does not count
unfoldable pub check_latest : Residence → EntityDocument → Outcome Failure (Unit {0})
check_latest r entity = elim (r.get_entity entity.author) [
  | err e ↦ (if ltb_ℤ entity.created_at zero_time then err older else ok tt)
  | panic ↦ panic
  | ok stored ↦ elim stored.signed_document [
    | none ↦ panic
    | some sd ↦ elim (r.read_entity (text_of sd)) [
      | none ↦ err malformed
      | some d ↦ (if ltb_ℤ entity.created_at d.created_at then err older else ok tt)
    ]
  ]
]

-- Register, up to its writes: the author, the inviter and the registration meta
unfoldable pub admit : Residence → Request → Outcome Failure (String × (Option String × String))
unfolding check_registration check_latest
admit r req = check_registration r req.invite_token >>= λ inviter.
    check_captcha req.captcha_verified >>= λ _.
    (elim (r.read_entity (text_of req.signed_document)) [ none ↦ err malformed | some e ↦ ok e ])
    >>= λ entity. (if str_eq entity.domain r.fqdn then ok tt else err wrong_domain) >>= λ _.
        check_latest r entity >>= λ _.
        (elim req.meta [ none ↦ err malformed | some m ↦ ok m ]) >>= λ info.
        ok (entity.author, (inviter, info))

-- Register
unfoldable pub register : Residence → Request → Run
unfolding admit
register r req = elim (admit r req) [
  | err e ↦ refuse e
  | panic ↦ record { effects = []; result = panic }
  | ok (author, (inviter, info)) ↦
      after_performed (save_meta author inviter info) (r.perform (save_meta author inviter info)) (
        after_performed (commit req.signed_document) (r.perform (commit req.signed_document))
          finished)
]
