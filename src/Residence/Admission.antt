-- ===== src/Residence/Admission.antt =====
-- internal/usecase/residence/residence.go: what a registration has passed, and the order of the
-- writes.
use concrnt.Prelude.{
  ◌≡◌, refl, ap, Option-cases, String, Bool, true, false, ◌⊎◌, inl, inr, [], ◌∷◌, Option, none,
  some, str_eq, str_eq→eq, if-cases, if◌then◌else◌,
}
use concrnt.Prelude.Outcome.{
  Outcome, ok, err, panic, >>=-eq-ok, Outcome-cases, returns, fails, panics,
}
use concrnt.Prelude.Int.{ltb_ℤ}
use concrnt.Document.{SignedDocument, text_of}
use concrnt.Jwt
use concrnt.Jwt.{Header, Claims, Library}
use concrnt.Jwt.Valid.{IsValid, validate-IsValid}
use concrnt.Residence.{
  has_tag, parse_tags, StoredEntity, EntityDocument, mark_commit_logs, delete_meta, Failure,
  malformed, wrong_domain, Residence, Request, unregister, check_issuer, as_invalid,
  check_invitation, check_registration, check_captcha, check_latest, admit, register,
}

-- The issuer of an invitation is the server, or an entity with the tag `_invite`.
abbrev pub MayInvite : Residence → String → Type 0
MayInvite r issuer =
    (str_eq issuer r.csid ≡ true)
    ⊎ ((e : StoredEntity) × (r.get_entity issuer ≡ ok e)
        × (has_tag (parse_tags e.tag_string) "_invite" ≡ true))

-- A token is a valid invitation.
pub record IsInvitation (r : Residence) (token : String) : Type 0 where
  pub issuer : String
  pub valid : IsValid r.jwt r.now token issuer
  -- its claims have the issuer, and are about an invitation
  pub header : Header
  pub claims : Claims
  pub read : Jwt.parse r.jwt token ≡ ok (header, claims)
  pub issuer_claimed : claims.issuer ≡ issuer
  pub invites : claims.subject ≡ "invite"
  pub issued : MayInvite r issuer

-- The server is open, or it registers by invitation and the token invites.
abbrev pub MayRegister : Residence → Option String → Type 0
MayRegister r token =
    (str_eq r.registration "open" ≡ true)
    ⊎ ((str_eq r.registration "invite" ≡ true) × (t : String) × (token ≡ some t) × IsInvitation r t)

-- No newer document of the entity is stored; one that cannot be looked up does not count.
abbrev pub IsLatest : Residence → EntityDocument → Type 0
IsLatest r entity =
    ((e : Failure) × (r.get_entity entity.author ≡ err e))
    ⊎ ((stored : StoredEntity) × (sd : SignedDocument) × (d : EntityDocument) × (r.get_entity
            entity.author
          ≡ ok stored)
        × (stored.signed_document ≡ some sd)
        × (r.read_entity (text_of sd) ≡ some d)
        × (ltb_ℤ entity.created_at d.created_at ≡ false))

-- What a registration has passed.
pub record IsAdmissible (r : Residence) (req : Request) : Type 0 where
  pub invited : MayRegister r req.invite_token
  pub person : ¬ (req.captcha_verified ≡ some false)
  pub entity : EntityDocument
  pub read : r.read_entity (text_of req.signed_document) ≡ some entity
  pub home : str_eq entity.domain r.fqdn ≡ true
  pub latest : IsLatest r entity

ok-injective : {A : Type 0} {a b : A} → Path (Outcome Failure A) (ok a) (ok b) → a ≡ b
ok-injective h = cc

check_issuer-MayInvite :
    (r : Residence) (issuer : String) {u : Unit {0}}
    → check_issuer r issuer ≡ ok u
    → MayInvite r issuer
unfolding check_issuer
check_issuer-MayInvite r issuer h = elim (if-cases (str_eq issuer r.csid) h) [
  | inl (own, _) ↦ inl own
  | inr (_, h1) ↦ (elim (Outcome-cases (r.get_entity issuer)) [
    | fails x e ↦ let h2 = rw (e) at h1 in absurd (cc)
    | panics e ↦ let h2 = rw (e) at h1 in absurd (cc)
    | returns stored e ↦
        let h2 = rw (e) at h1 in
        (elim (if-cases (has_tag (parse_tags stored.tag_string) "_invite") h2) [
          | inl (tagged, _) ↦ inr (stored, e, tagged)
          | inr (_, refused) ↦ absurd (cc)
        ])
  ])
]

as_invalid-eq-ok :
    {A : Type 0} (o : Outcome Jwt.JwtError A) {a : A} → as_invalid o ≡ ok a → o ≡ ok a
as_invalid-eq-ok (ok b) h = ap ok (ok-injective h)
as_invalid-eq-ok (err e) h = cc
as_invalid-eq-ok panic h = cc

check_invitation-IsInvitation :
    (r : Residence) (token : String) {inviter : String}
    → check_invitation r token ≡ ok inviter
    → IsInvitation r token
unfolding check_invitation
check_invitation-IsInvitation r token h =
    let ((header, claims), parsed, h1) = >>=-eq-ok (as_invalid (Jwt.parse r.jwt token)) _ h in
    let (_, validated, h2) =
      >>=-eq-ok (as_invalid (Jwt.validate r.jwt r.now token claims.issuer)) _ h1 in
    elim (if-cases (str_eq claims.subject "invite") h2) [
      | inl (about, h3) ↦
          let (_, issued, _) = >>=-eq-ok (check_issuer r claims.issuer) _ h3 in
          record {
            issuer = claims.issuer;
            valid = validate-IsValid r.jwt r.now token claims.issuer (as_invalid-eq-ok _ validated);
            header = header;
            claims = claims;
            read = as_invalid-eq-ok _ parsed;
            issuer_claimed = refl;
            invites = str_eq→eq _ _ about;
            issued = check_issuer-MayInvite r claims.issuer issued;
          }
      | inr (_, refused) ↦ absurd (cc)
    ]

check_registration-MayRegister :
    (r : Residence) (token : Option String) {inviter : Option String}
    → check_registration r token ≡ ok inviter
    → MayRegister r token
unfolding check_registration
check_registration-MayRegister r none h = elim (if-cases (str_eq r.registration "invite") h) [
  | inl (_, refused) ↦ absurd (cc)
  | inr (_, h1) ↦ (elim (if-cases (str_eq r.registration "open") h1) [
    | inl (is_open, _) ↦ inl is_open
    | inr (_, refused) ↦ absurd (cc)
  ])
]
check_registration-MayRegister r (some t) h = elim (if-cases (str_eq r.registration "invite") h) [
  | inl (by_invitation, h1) ↦
      let (inviter, invited, _) = >>=-eq-ok (check_invitation r t) _ h1 in
      inr (by_invitation, t, refl, check_invitation-IsInvitation r t invited)
  | inr (_, h1) ↦ (elim (if-cases (str_eq r.registration "open") h1) [
    | inl (is_open, _) ↦ inl is_open
    | inr (_, refused) ↦ absurd (cc)
  ])
]

option-eq-ok :
    {A : Type 0} (o : Option A) {a : A}
    → Path (Outcome Failure A) (elim o [ none ↦ err malformed | some e ↦ ok e ]) (ok a)
    → o ≡ some a
option-eq-ok none h = cc
option-eq-ok (some b) h = ap some (ok-injective h)

check_captcha_lem :
    (verified : Option Bool) {u : Unit {0}}
    → check_captcha verified ≡ ok u
    → ¬ (verified ≡ some false)
check_captcha_lem none h e = cc
check_captcha_lem (some true) h e = cc
check_captcha_lem (some false) h e = cc

check_latest-IsLatest :
    (r : Residence) (entity : EntityDocument) {u : Unit {0}}
    → check_latest r entity ≡ ok u
    → IsLatest r entity
unfolding check_latest
check_latest-IsLatest r entity h = elim (Outcome-cases (r.get_entity entity.author)) [
  | fails x e ↦ inl (x, e)
  | panics e ↦ let h1 = rw (check_latest, e) at h in absurd (cc)
  | returns stored e ↦
      let h1 = rw (check_latest, e) at h in
      (elim (Option-cases stored.signed_document) [
        | inl missing ↦ let h2 = rw (missing) at h1 in absurd (cc)
        | inr (sd, present) ↦
            let h2 = rw (present) at h1 in
            (elim (Option-cases (r.read_entity (text_of sd))) [
              | inl unreadable ↦ let h3 = rw (unreadable) at h2 in absurd (cc)
              | inr (d, read) ↦
                  let h3 = rw (read) at h2 in
                  (elim (if-cases (ltb_ℤ entity.created_at d.created_at) h3) [
                    | inl (_, refused) ↦ absurd (cc)
                    | inr (latest, _) ↦ inr (stored, sd, d, e, present, read, latest)
                  ])
            ])
      ])
]

admit-IsAdmissible :
    (r : Residence) (req : Request) {x : String × (Option String × String)}
    → admit r req ≡ ok x
    → IsAdmissible r req
unfolding admit
admit-IsAdmissible r req h =
    let (inviter, invited, h1) = >>=-eq-ok (check_registration r req.invite_token) _ h in
    let (_, person, h2) = >>=-eq-ok (check_captcha req.captcha_verified) _ h1 in
    let (entity, read, h3) =
      >>=-eq-ok
        (elim (r.read_entity (text_of req.signed_document)) [
          | none ↦ err malformed
          | some e ↦ ok e
        ])
        _ h2 in
    let (_, home, h4) =
      >>=-eq-ok (if str_eq entity.domain r.fqdn then ok tt else err wrong_domain) _ h3 in
    let (_, latest, _) = >>=-eq-ok (check_latest r entity) _ h4 in
    record {
      invited = check_registration-MayRegister r req.invite_token invited;
      person = check_captcha_lem req.captcha_verified person;
      entity = entity;
      read = option-eq-ok _ read;
      home = at_home (str_eq entity.domain r.fqdn) home;
      latest = check_latest-IsLatest r entity latest;
    }
  where
    at_home :
        (b : Bool) {u : Unit {0}}
        → Path (Outcome Failure (Unit {0})) (if b then ok tt else err wrong_domain) (ok u)
        → b ≡ true
    at_home true h = refl
    at_home false h = cc

-- Register writes something only for an admissible request: where the server is open, or registers
-- by invitation and the token is valid with the subject `invite`, by the server or an entity that
-- may invite; no captcha was failed; the document is an entity of this server; and no newer one of
-- its author is stored, where the author can be looked up.
pub register-IsAdmissible :
    (r : Residence) (req : Request) → ((register r req).effects ≡ []) ⊎ IsAdmissible r req
unfolding register
register-IsAdmissible r req = elim (Outcome-cases (admit r req)) [
  | fails x e ↦ inl (rw (register, e) refl)
  | panics e ↦ inl (rw (register, e) refl)
  | returns x e ↦ inr (admit-IsAdmissible r req e)
]

-- For an authenticated requester, Unregister marks the commit logs first, and deletes the
-- registration only if that returned without an error; it then returns what the deletion returns.
pub unregister_order :
    (r : Residence) (id : String)
    → ((unregister r (some id)).effects ≡ mark_commit_logs id ∷ [])
      ⊎ (((unregister r (some id)).effects ≡ mark_commit_logs id ∷ (delete_meta id ∷ []))
          × (r.perform (mark_commit_logs id) ≡ ok tt)
          × ((unregister r (some id)).result ≡ r.perform (delete_meta id)))
unfolding unregister
unregister_order r id = elim (Outcome-cases (r.perform (mark_commit_logs id))) [
  | fails x e ↦ inl (rw (unregister, e) refl)
  | panics e ↦ inl (rw (unregister, e) refl)
  | returns u e ↦ (elim (Outcome-cases (r.perform (delete_meta id))) [
    | fails x e' ↦ inr (rw (unregister, e, e') refl, e, rw (unregister, e, e') refl)
    | panics e' ↦ inr (rw (unregister, e, e') refl, e, rw (unregister, e, e') refl)
    | returns v e' ↦ inr (rw (unregister, e, e') refl, e, rw (unregister, e, e') refl)
  ])
]
