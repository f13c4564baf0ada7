-- ===== src/Record/Query.antt =====
-- internal/usecase/record/query.go and replication.go: pages of stored documents.
pub mod Pages
use concrnt.Prelude.{
  ℕ, suc, ◌+◌, String, Bool, true, false, not, ◌&&◌, List, [], ◌∷◌, Option, none, some, str_eq,
  if◌then◌else◌, map, take, get_elem?,
}
use concrnt.Prelude.Int.{ℤ}
use concrnt.Prelude.Outcome.{Outcome, ok, err, panic, ◌>>=◌}
use concrnt.Document.{Document, SignedDocument, signed}
use concrnt.Commit.{
  Entity, CommitError, Result, check, validation, malformed_uri, permission_denied,
}
use concrnt.Record.{Env, parse_document}
use concrnt.Record.Read.{check_read_access_as}

-- usecase.go: `QueryRow`
pub record QueryRow : Type 0 where
  pub row : SignedDocument
  pub created_at : ℤ

abbrev pub cckv_of : SignedDocument → Option String
cckv_of (signed cckv ccfs text p refs public) = cckv

-- A cursor: the row's key, or its instant, whose text is left to `time.Format`.
pub data Cursor : Type 0 where
  key_cursor : String → Cursor
  time_cursor : ℤ → Cursor

abbrev pub cursor_of : String → QueryRow → Cursor
cursor_of order_by row =
    if str_eq order_by "key"
    then key_cursor (elim (cckv_of row.row) [ none ↦ "" | some k ↦ k ])
    else time_cursor row.created_at

pub record Page : Type 0 where
  pub items : List SignedDocument
  pub prev : Option Cursor
  pub next : Option Cursor

abbrev pub option_map : {A B : Type 0} → (A → B) → Option A → Option B
option_map f none = none
option_map f (some a) = some (f a)

-- `&rows[0]`, if there is a row
abbrev pub first_row : List QueryRow → Option QueryRow
first_row [] = none
first_row (r ∷ rs) = some r

-- paginateWindow
unfoldable pub paginate_window : List QueryRow → ℕ → String → Page
paginate_window rows limit order_by = record {
  items = map (λ (r : QueryRow). r.row) (take limit rows);
  prev = option_map (cursor_of order_by) (first_row (take limit rows));
  next = option_map (cursor_of order_by) (get_elem? rows limit);
}

-- What a list query asks the repository for, and the rows that it answers with.
pub data RowQuery : Type 0 where
  by_prefix by_parent : String → RowQuery
  by_parent_order_by_key : String → RowQuery

-- usecase.go: `QueryParams`, of which the filters and bounds go to the repository as they are; the
-- handlers bring the limit between 1 and 100 before (internal/present/rest/handler.go), so it is
-- no negative number
pub record QueryParams : Type 0 where
  pub prefix : String
  pub parent : String
  pub order_by : String
  pub limit : ℕ

-- Query, up to the call of the repository
unfoldable pub choose_query : QueryParams → Result RowQuery
choose_query p =
    let order_by = if str_eq p.order_by "" then "createdAt" else p.order_by in
    if not (str_eq p.prefix "") && not (str_eq p.parent "")
    then err (validation "parent")
    else if str_eq order_by "key" && not (str_eq p.parent "")
    then ok (by_parent_order_by_key p.parent)
    else if str_eq order_by "key"
    then err (validation "orderby")
    else if not (str_eq order_by "createdAt")
    then err (validation "orderby")
    else if not (str_eq p.prefix "")
    then ok (by_prefix p.prefix)
    else if not (str_eq p.parent "")
    then ok (by_parent p.parent)
    else err (validation "prefix")

-- the outcome of one read check, before the documents behind it
unfoldable pub keep_readable :
    Result (Unit {0}) → SignedDocument → Result (List SignedDocument) → Result (List SignedDocument)
keep_readable (ok u) sd rest = rest >>= λ kept. ok (sd ∷ kept)
keep_readable (err permission_denied) sd rest = rest
keep_readable (err e) sd rest = err e
keep_readable panic sd rest = panic

-- the loop of Query
unfoldable pub filter_readable :
    Env → Option Entity → List SignedDocument → Result (List SignedDocument)
unfolding keep_readable check_read_access_as
filter_readable env requester [] = ok []
filter_readable env requester (sd ∷ sds) =
    let rest = filter_readable env requester sds in
    elim (cckv_of sd) [
      | none ↦ err malformed_uri
      | some uri ↦ keep_readable (check_read_access_as env uri sd requester) sd rest
    ]

abbrev pub order_of : QueryParams → String
order_of p = if str_eq p.order_by "" then "createdAt" else p.order_by

-- Query; `rows` is the repository, asked for one row more than the limit
unfoldable pub query :
    Env → Option Entity → (RowQuery → ℕ → Result (List QueryRow)) → QueryParams → Result Page
unfolding choose_query filter_readable paginate_window
query env requester rows p = choose_query p >>= λ q. rows q (suc p.limit) >>= λ found.
    let page = paginate_window found p.limit (order_of p) in
    filter_readable env requester page.items >>= λ kept. ok (record page { items = kept })

-- the loop of Replicate: an association is addressed by its target
unfoldable pub replicated_uri : Document → Option (Option String)
replicated_uri doc =
    if str_eq doc.kind "record"
    then some (some doc.key)
    else if str_eq doc.kind "association"
    then some doc.associate
    else none

unfoldable pub filter_replicated :
    Env → Option Entity → List SignedDocument → Result (List SignedDocument)
unfolding keep_readable check_read_access_as replicated_uri parse_document
filter_replicated env requester [] = ok []
filter_replicated env requester (sd ∷ sds) =
    let rest = filter_replicated env requester sds in
    parse_document env sd >>= λ doc. elim (replicated_uri doc) [
      | none ↦ (rest >>= λ kept. ok (sd ∷ kept))
      | some none ↦ panic
      | some (some uri) ↦ keep_readable (check_read_access_as env uri sd requester) sd rest
    ]

-- Replicate
unfoldable pub replicate :
    Env → Option Entity → Bool → (ℕ → Result (List QueryRow)) → ℕ → Result Page
unfolding filter_replicated paginate_window
replicate env requester is_service_account rows limit = rows (suc limit) >>= λ found.
    let page = paginate_window found limit "createdAt" in
    if is_service_account
    then ok page
    else (filter_replicated env requester page.items >>= λ kept. ok (record page { items = kept }))
