-- ===== src/Record/Query/Pages.antt =====
-- internal/usecase/record/query.go and replication.go: how long a page is, what it continues with
-- and who may read it.
use concrnt.Prelude.{
  ℕ, zero, suc, ◌≤◌, ◌≡◌, refl, ap, String, List, [], ◌∷◌, ◌++◌, Option, some, inl, inr, ◌⊎◌, All,
  Option-cases, length, take, drop, get_elem?, map, arith,
}
use mathlib.Core.Path.{subst}
use concrnt.Prelude.Outcome.{ok, err, panic, >>=-eq-ok}
use concrnt.Document.{SignedDocument}
use concrnt.Commit.{Entity, Result, permission_denied}
use concrnt.Commit.Guards.{ok-injective}
use concrnt.Record.{Env}
use concrnt.Record.Read.{check_read_access_as}
use concrnt.Record.Query.{
  QueryRow, cckv_of, Page, paginate_window, QueryParams, RowQuery, choose_query, keep_readable,
  filter_readable, query, order_of, cursor_of, first_row, option_map,
}

length-map-take :
    (rows : List QueryRow) (limit : ℕ)
    → length (map (λ (r : QueryRow). r.row) (take limit rows)) ≤ limit
length-map-take rows zero = omega (arith)
length-map-take [] (suc limit) = omega (arith)
length-map-take (r ∷ rows) (suc limit) = omega (arith, length-map-take rows limit)

take-drop :
    (rows : List QueryRow) (limit : ℕ)
    → map (λ (r : QueryRow). r.row) (take limit rows)
        ++ map (λ (r : QueryRow). r.row) (drop limit rows)
      ≡ map (λ (r : QueryRow). r.row) rows
take-drop rows zero = refl
take-drop [] (suc limit) = refl
take-drop (r ∷ rows) (suc limit) = ap (λ l. r.row ∷ l) (take-drop rows limit)

-- the next cursor is that of the first row behind the page
next_row : (rows : List QueryRow) (limit : ℕ) → get_elem? rows limit ≡ first_row (drop limit rows)
next_row [] zero = refl
next_row (r ∷ rows) zero = refl
next_row [] (suc limit) = refl
next_row (r ∷ rows) (suc limit) = next_row rows limit

-- A page has at most `limit` items; with the rows behind it, they are the rows that were found;
-- and it has a next cursor just if there are such rows: that of the first of them.
pub paginate_window-rows :
    (rows : List QueryRow) (limit : ℕ) (order_by : String)
    → let page = paginate_window rows limit order_by in
      (length page.items ≤ limit)
      × (page.items ++ map (λ (r : QueryRow). r.row) (drop limit rows)
          ≡ map (λ (r : QueryRow). r.row) rows)
      × (page.next ≡ option_map (cursor_of order_by) (first_row (drop limit rows)))
unfolding paginate_window
paginate_window-rows rows limit order_by = (
  length-map-take rows limit,
  take-drop rows limit,
  ap (option_map (cursor_of order_by)) (next_row rows limit),
)

-- The requester may read a document at the address that it names.
pub record IsReadable (env : Env) (requester : Option Entity) (sd : SignedDocument) : Type 0 where
  pub uri : String
  pub address : cckv_of sd ≡ some uri
  pub permitted : check_read_access_as env uri sd requester ≡ ok tt

-- A sublist that a filter kept.
abbrev pub Kept : Env → Option Entity → ℕ → List SignedDocument → Type 0
Kept env requester n kept = All (IsReadable env requester) kept × (length kept ≤ n)

keep_readable-eq-ok :
    (r : Result (Unit {0})) (sd : SignedDocument) (rest : Result (List SignedDocument))
    {kept : List SignedDocument}
    → keep_readable r sd rest ≡ ok kept
    → (rest ≡ ok kept)
      ⊎ ((r ≡ ok tt) × (tail : List SignedDocument) × (rest ≡ ok tail) × ((sd ∷ tail) ≡ kept))
unfolding keep_readable
keep_readable-eq-ok (ok u) sd rest h =
    let (tail, e, done) = >>=-eq-ok rest _ h in inr (refl, tail, e, ok-injective done)
keep_readable-eq-ok (err permission_denied) sd rest h = inl h
keep_readable-eq-ok (err e) sd rest h = cc
keep_readable-eq-ok panic sd rest h = cc

filter_readable-Kept :
    (env : Env) (requester : Option Entity) (sds : List SignedDocument) {kept : List SignedDocument}
    → filter_readable env requester sds ≡ ok kept
    → Kept env requester (length sds) kept
unfolding filter_readable
filter_readable-Kept env requester [] h =
    subst (Kept env requester 0) (ok-injective h) (tt, omega (arith))
filter_readable-Kept env requester (sd ∷ sds) {kept} h = elim (Option-cases (cckv_of sd)) [
  | inl missing ↦ let h1 = rw (filter_readable, missing) at h in absurd (cc)
  | inr (uri, named) ↦
      let h1 = rw (filter_readable, named) at h in
      (elim (keep_readable-eq-ok (check_read_access_as env uri sd requester) sd
        (filter_readable env requester sds) h1) [
          | inl later ↦
              let (readable, bound) = filter_readable-Kept env requester sds later in
              (readable, omega (arith))
          | inr (permitted, tail, later, same) ↦
              let (readable, bound) = filter_readable-Kept env requester sds later in
              subst (Kept env requester (suc (length sds))) same (
                (record { uri = uri; address = named; permitted = permitted }, readable),
                omega (arith),
              )
        ])
]

-- What Query returns is at most `limit` documents, and the requester may read each of them.
pub query-IsReadable :
    (env : Env) (requester : Option Entity) (rows : RowQuery → ℕ → Result (List QueryRow))
    (p : QueryParams) (page : Page)
    → query env requester rows p ≡ ok page
    → All (IsReadable env requester) page.items × (length page.items ≤ p.limit)
unfolding query
query-IsReadable env requester rows p page h =
    let (q, _, h1) = >>=-eq-ok (choose_query p) _ h in
    let (found, _, h2) = >>=-eq-ok (rows q (suc p.limit)) _ h1 in
    let window = paginate_window found p.limit (order_of p) in
    let (kept, filtered, done) = >>=-eq-ok (filter_readable env requester window.items) _ h2 in
    let (readable, short) = filter_readable-Kept env requester window.items filtered in
    let (bound, _, _) = paginate_window-rows found p.limit (order_of p) in
    subst (λ (y : Page). All (IsReadable env requester) y.items × (length y.items ≤ p.limit))
      (ok-injective done) (readable, omega (arith, short, bound))
