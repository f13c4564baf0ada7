-- ===== src/Record/Acknowledge/Sides.antt =====
-- internal/usecase/record/ack.go: which side writes what.
use concrnt.Prelude.{
  ◌≡◌, inl, inr, refl, sym, ◌∙◌, ap, String, Bool, true, false, ◌&&◌, List, [], ◌∷◌, ◌++◌, str_eq,
  if-cases, if◌then◌else◌, Bool-cases, str_eq→eq,
}
use concrnt.Prelude.Outcome.{ok, ◌>>=◌, >>=-eq-ok}
use concrnt.Document.{Document, SignedDocument}
use concrnt.Commit.{CommitMode, Entity, is_acked_kind}
use concrnt.Commit.Guards.{ok-injective}
use concrnt.Record.{
  Env, Write, create_commit_log, acknowledge, unacknowledge, acknowledged, unacknowledged, write,
  ApplyResult, document_id,
}
use concrnt.Record.Entities.{is_local_entity}
use concrnt.Record.Remove.Permission.{write-eq-ok}
use concrnt.Record.Acknowledge.{
  is_ack_kind, log_ack, ack_write, acked_write, ack_post_processes, apply_ack, apply_acked,
  process_ack_op,
}

-- What each side writes, by the kind: the author's server an acknowledgement that the author gives
-- or takes back, the other side's server one that it receives or loses, and both the commit log of
-- their own documents.
abbrev pub side_writes : Env → Entity → Entity → Document → String → List Write
side_writes env from to doc id =
    if str_eq doc.kind "ack"
    then create_commit_log id from.id
      ∷ (if is_local_entity env from
          then acknowledge id from.id to.id doc.schema doc.created_at ∷ []
          else [])
    else if str_eq doc.kind "unack"
    then create_commit_log id from.id
      ∷ (if is_local_entity env from
          then unacknowledge id from.id to.id doc.schema doc.created_at ∷ []
          else [])
    else if str_eq doc.kind "acked"
    then create_commit_log id to.id
      ∷ (if is_local_entity env to
          then acknowledged id from.id to.id doc.schema doc.created_at ∷ []
          else [])
    else if str_eq doc.kind "unacked"
    then create_commit_log id to.id
      ∷ (if is_local_entity env to
          then unacknowledged id from.id to.id doc.schema doc.created_at ∷ []
          else [])
    else []

-- the same, by side
abbrev grouped_writes : Env → Entity → Entity → Document → String → List Write
grouped_writes env from to doc id =
    if is_ack_kind doc
    then create_commit_log id from.id
      ∷ (if is_local_entity env from then ack_write from to doc id ∷ [] else [])
    else if is_acked_kind doc
    then create_commit_log id to.id
      ∷ (if is_local_entity env to then acked_write from to doc id ∷ [] else [])
    else []

grouped_writes-side_writes :
    (env : Env) (from to : Entity) (doc : Document) (id : String)
    → grouped_writes env from to doc id ≡ side_writes env from to doc id
grouped_writes-side_writes env from to doc id = elim (Bool-cases (str_eq doc.kind "ack")) [
  | inl ack ↦ rw (ack) refl
  | inr n1 ↦ (elim (Bool-cases (str_eq doc.kind "unack")) [
    | inl unack ↦ rw (n1, unack) refl
    | inr n2 ↦ (elim (Bool-cases (str_eq doc.kind "acked")) [
      | inl acked ↦ rw (n1, n2, acked) refl
      | inr n3 ↦ (elim (Bool-cases (str_eq doc.kind "unacked")) [
        | inl unacked ↦ rw (n1, n2, n3, unacked) refl
        | inr n4 ↦ rw (n1, n2, n3, n4) refl
      ])
    ])
  ])
]

-- No kind is of both sides.
ack_not_acked : (doc : Document) → is_ack_kind doc ≡ true → is_acked_kind doc ≡ false
ack_not_acked doc h = elim (Bool-cases (str_eq doc.kind "ack")) [
  | inl ack ↦ let kind = str_eq→eq doc.kind "ack" ack in rw (kind) refl
  | inr other ↦
      let h1 = rw (other) at h in let kind = str_eq→eq doc.kind "unack" h1 in rw (kind) refl
]

one_write :
    (env : Env) (w : Write) {log : List Write}
    → (write env [] w >>= λ (log', applied). ok log') ≡ ok log
    → log ≡ w ∷ []
one_write env w h =
    let (x, written, done) = >>=-eq-ok (write env [] w) _ h in
    sym (ok-injective done) ∙ write-eq-ok env [] w written

-- The commit log, by the kind.
abbrev logged : Entity → Entity → Document → String → List Write
logged from to doc id =
    if is_ack_kind doc
    then create_commit_log id from.id ∷ []
    else if is_acked_kind doc
    then create_commit_log id to.id ∷ []
    else []

log_ack-eq-ok :
    (env : Env) (from to : Entity) (doc : Document) (id : String) {log : List Write}
    → log_ack env from to doc id ≡ ok log
    → log ≡ logged from to doc id
unfolding log_ack
log_ack-eq-ok env from to doc id h = elim (if-cases (is_ack_kind doc) h) [
  | inl (ack, h1) ↦ rw (ack) (one_write env (create_commit_log id from.id) h1)
  | inr (other, h1) ↦ (elim (if-cases (is_acked_kind doc) h1) [
    | inl (acked, h2) ↦ rw (other, acked) (one_write env (create_commit_log id to.id) h2)
    | inr (neither, h2) ↦ rw (other, neither) (sym (ok-injective h2))
  ])
]

-- The author's side adds its acknowledgement, if the author is its own and the kind is an ack's.
apply_ack-writes :
    (env : Env) (ip : String) (from to : Entity) (doc : Document) (sd : SignedDocument)
    (mode : CommitMode) (id : String) (log : List Write) {r : ApplyResult}
    → apply_ack env ip from to doc sd mode id log ≡ ok r
    → r.writes ≡ (
        if is_local_entity env from && is_ack_kind doc
        then log ++ (ack_write from to doc id ∷ [])
        else log)
unfolding apply_ack
apply_ack-writes env ip from to doc sd mode id log h =
    elim (if-cases (is_local_entity env from && is_ack_kind doc) h) [
      | inr (other, done) ↦
          rw (other) (ap (λ (y : ApplyResult). y.writes) (sym (ok-injective done)))
      | inl (own, h1) ↦
          let ((log', created), written, h2) =
            >>=-eq-ok (write env log (ack_write from to doc id)) _ h1 in
          let (posts, _, done) =
            >>=-eq-ok (ack_post_processes env ip from to doc sd mode id) _ h2 in
          rw (own) (
            ap (λ (y : ApplyResult). y.writes) (sym (ok-injective done))
            ∙ write-eq-ok env log (ack_write from to doc id) written)
    ]

apply_acked-writes :
    (env : Env) (from to : Entity) (doc : Document) (id : String) (result : ApplyResult)
    {r : ApplyResult}
    → apply_acked env from to doc id result ≡ ok r
    → r.writes ≡ (
        if is_local_entity env to && is_acked_kind doc
        then result.writes ++ (acked_write from to doc id ∷ [])
        else result.writes)
unfolding apply_acked
apply_acked-writes env from to doc id result h =
    elim (if-cases (is_local_entity env to && is_acked_kind doc) h) [
      | inr (other, done) ↦
          rw (other) (ap (λ (y : ApplyResult). y.writes) (sym (ok-injective done)))
      | inl (own, h1) ↦
          let ((log', created), written, done) =
            >>=-eq-ok (write env result.writes (acked_write from to doc id)) _ h1 in
          rw (own) (
            ap (λ (y : ApplyResult). y.writes) (sym (ok-injective done))
            ∙ write-eq-ok env result.writes (acked_write from to doc id) written)
    ]

-- both sides together, by what is tested
sides_agree :
    (first second third : Write) (fourth : Write) (ack acked own theirs : Bool)
    → (ack ≡ true → acked ≡ false)
    → (if theirs && acked
        then (if own && ack
            then (if ack then first ∷ [] else if acked then second ∷ [] else []) ++ (third ∷ [])
            else (if ack then first ∷ [] else if acked then second ∷ [] else []))
          ++ (fourth ∷ [])
        else (if own && ack
            then (if ack then first ∷ [] else if acked then second ∷ [] else []) ++ (third ∷ [])
            else (if ack then first ∷ [] else if acked then second ∷ [] else [])))
      ≡ (if ack
          then first ∷ (if own then third ∷ [] else [])
          else if acked
          then second ∷ (if theirs then fourth ∷ [] else [])
          else [])
sides_agree a b c d true true own theirs h = let no = h refl in absurd (cc)
sides_agree a b c d true false true true h = refl
sides_agree a b c d true false true false h = refl
sides_agree a b c d true false false true h = refl
sides_agree a b c d true false false false h = refl
sides_agree a b c d false true true true h = refl
sides_agree a b c d false true true false h = refl
sides_agree a b c d false true false true h = refl
sides_agree a b c d false true false false h = refl
sides_agree a b c d false false true true h = refl
sides_agree a b c d false false true false h = refl
sides_agree a b c d false false false true h = refl
sides_agree a b c d false false false false h = refl

-- When processAck returns without an error, then it wrote just what its side writes: for an ack the
-- author's commit log and, on the author's server, the acknowledgement given, for an unack the same
-- with the acknowledgement taken back; for an acked the commit log of the other side and, on that
-- side's server, the one received, for an unacked the same with the one lost; and nothing for
-- another kind.
pub process_ack_op-side_writes :
    (env : Env) (ip : String) (from to : Entity) (doc : Document) (sd : SignedDocument)
    (mode : CommitMode) (r : ApplyResult)
    → process_ack_op env ip from to doc sd mode ≡ ok r
    → (id : String) × (document_id env sd ≡ ok id) × (r.writes ≡ side_writes env from to doc id)
unfolding process_ack_op
process_ack_op-side_writes env ip from to doc sd mode r h =
    let (id, named, h1) = >>=-eq-ok (document_id env sd) _ h in
    let (log, kept, h2) = >>=-eq-ok (log_ack env from to doc id) _ h1 in
    let (middle, first, h3) = >>=-eq-ok (apply_ack env ip from to doc sd mode id log) _ h2 in
    let e1 = log_ack-eq-ok env from to doc id kept in
    let e2 = apply_ack-writes env ip from to doc sd mode id log first in
    let e3 = apply_acked-writes env from to doc id middle h3 in
    (
      id,
      named,
      e3
          ∙ ap
              (λ l.
                if is_local_entity env to && is_acked_kind doc
                then l ++ (acked_write from to doc id ∷ [])
                else l)
              (e2
                ∙ ap
                    (λ l.
                      if is_local_entity env from && is_ack_kind doc
                      then l ++ (ack_write from to doc id ∷ [])
                      else l)
                    e1)
          ∙ sides_agree (create_commit_log id from.id) (create_commit_log id to.id)
              (ack_write from to doc id) (acked_write from to doc id) (is_ack_kind doc)
              (is_acked_kind doc) (is_local_entity env from) (is_local_entity env to)
              (ack_not_acked doc)
          ∙ grouped_writes-side_writes env from to doc id,
    )
