-- ===== src/Record/Remove/Permission/Removal.antt =====
-- internal/usecase/record/delete.go: the removal of one target, of its kind.
use concrnt.Prelude.{
  ◌≡◌, refl, String, Bool, true, ◌&&◌, List, none, inl, inr, All, if-cases, str_eq,
}
use mathlib.Core.Path.{subst}
use concrnt.Prelude.Outcome.{ok, ◌>>=◌, >>=-eq-ok}
use concrnt.Uri.{ccfs_type_concrnt}
use concrnt.Commit.{Entity, CommitMode}
use concrnt.Commit.Guards.{ok-injective}
use concrnt.Record.{
  Env, Write, PostProcess, delete_record_by_key, delete_record_by_id, delete_association, write,
  parse_uri,
}
use concrnt.Record.Read.{is_association}
use concrnt.Record.Remove.{remove_record, remove_association, remove_target}
use concrnt.Record.Remove.Choose.{Target}
use concrnt.Record.Remove.Sweep.{Progress, flag_deleted, timeline_of}
use concrnt.Record.Remove.Permission.{IsPermitted, IsAllowed, has_removal, write-All, write-removed}
use concrnt.Record.Remove.Permission.Sweeping.{Lawful, flag_deleted-Lawful}

-- the writes after a removal
abbrev pub Removed : Env → Entity → List Write → Type 0
Removed env requester log = All (IsAllowed env requester) log × (has_removal log ≡ true)

-- One removal that is permitted.
removal-Removed :
    (env : Env) (requester : Entity) (log : List Write) (w : Write) {b : List Write}
    → (write env log w >>= λ (log', applied). ok log') ≡ ok b
    → IsAllowed env requester w
    → ((x : List Write × Bool) → write env log w ≡ ok x → has_removal x.0 ≡ true)
    → All (IsAllowed env requester) log
    → Removed env requester b
removal-Removed env requester log w h allowed removes before =
    let (x, written, done) = >>=-eq-ok (write env log w) _ h in
    subst (Removed env requester) (ok-injective done)
      (write-All env requester log w written before allowed, removes x written)

remove_association-Removed :
    (env : Env) (requester : Entity) (uri : String) (log : List Write) {b : List Write}
    → remove_association env uri log ≡ ok b
    → IsPermitted env requester uri
    → All (IsAllowed env requester) log
    → Removed env requester b
unfolding remove_association
remove_association-Removed env requester uri log h permission before =
    let (parts, parsed, h1) = >>=-eq-ok (parse_uri env uri) _ h in
    elim (if-cases (str_eq parts.scheme "ccfs" && str_eq parts.type_name ccfs_type_concrnt) h1) [
      | inl (_, taken) ↦
          removal-Removed env requester log (delete_association parts.cdid) taken
            (record {
              uri = uri;
              parts = parts;
              parsed = parsed;
              names = refl;
              permission = permission;
            })
            (λ x written. write-removed env log (delete_association parts.cdid) written refl) before
      | inr (_, refused) ↦ cc
    ]

remove_record-Removed :
    (env : Env) (requester : Entity) (uri : String) (log : List Write) {b : List Write}
    → remove_record env uri log ≡ ok b
    → IsPermitted env requester uri
    → All (IsAllowed env requester) log
    → Removed env requester b
unfolding remove_record
remove_record-Removed env requester uri log h permission before =
    let (parts, parsed, h1) = >>=-eq-ok (parse_uri env uri) _ h in
    elim (if-cases (str_eq parts.scheme "cckv") h1) [
      | inl (_, taken) ↦
          removal-Removed env requester log (delete_record_by_key uri) taken permission
            (λ x written. write-removed env log (delete_record_by_key uri) written refl) before
      | inr (_, h2) ↦
          (elim (if-cases (str_eq parts.scheme "ccfs" && str_eq parts.type_name ccfs_type_concrnt)
            h2) [
              | inl (_, taken) ↦
                  removal-Removed env requester log (delete_record_by_id parts.cdid) taken
                    (record {
                      uri = uri;
                      parts = parts;
                      parsed = parsed;
                      names = refl;
                      permission = permission;
                    })
                    (λ x written.
                      write-removed env log (delete_record_by_id parts.cdid) written refl)
                    before
              | inr (_, refused) ↦ cc
            ])
    ]

-- The removal of a target.
pub remove_target-Lawful :
    (env : Env) (requester : Entity) (mode : CommitMode) (t : Target) (p : Progress)
    {x : Progress × List PostProcess}
    → remove_target env mode t p ≡ ok x
    → IsPermitted env requester t.uri
    → Lawful env requester p
    → Lawful env requester x.0
unfolding remove_target
remove_target-Lawful env requester mode t p h permission lawful =
    elim (if-cases (str_eq t.doc.kind "record") h) [
      | inl (_, taken) ↦
          let (removed, _, h1) = >>=-eq-ok (timeline_of env mode t) _ taken in
          let (log, gone, h2) = >>=-eq-ok (remove_record env t.uri p.log) _ h1 in
          let (p', flagged, done) =
            >>=-eq-ok (flag_deleted env t.sd t.doc.on_update (record p { log = log })) _ h2 in
          let (allowed, has) =
            remove_record-Removed env requester t.uri p.log gone permission lawful.allowed in
          subst (λ (y : Progress × List PostProcess). Lawful env requester y.0) (ok-injective done)
            (flag_deleted-Lawful env requester t.sd t.doc.on_update (record p { log = log }) flagged
              allowed has)
      | inr (_, h1) ↦ (elim (if-cases (is_association t.doc) h1) [
        | inl (_, taken) ↦
            let (log, gone, h2) = >>=-eq-ok (remove_association env t.uri p.log) _ taken in
            let (p', flagged, done) =
              >>=-eq-ok (flag_deleted env t.sd none (record p { log = log })) _ h2 in
            let (allowed, has) =
              remove_association-Removed env requester t.uri p.log gone permission lawful.allowed in
            subst (λ (y : Progress × List PostProcess). Lawful env requester y.0)
              (ok-injective done)
              (flag_deleted-Lawful env requester t.sd none (record p { log = log }) flagged allowed
                has)
        | inr (_, refused) ↦ cc
      ])
    ]
