-- ===== src/Record/Remove/Choose.antt =====
-- internal/usecase/record/delete.go: what a deletion is about, and whether it may be deleted.
use concrnt.Prelude.{
  ℕ, ltb, String, Bool, true, false, not, ◌&&◌, ◌||◌, List, [], ◌∷◌, none, some, str_eq,
  if◌then◌else◌,
}
use concrnt.Prelude.Outcome.{ok, err, panic, ◌>>=◌}
use concrnt.Prelude.Text.{codes, concat, has_prefix}
use concrnt.Document.{
  Document, SignedDocument, signed, References, no_reference, reference, references_of,
  find_reference,
}
use concrnt.Commit.{Entity, Result, not_found}
use concrnt.Record.{Env, parse_document}
use concrnt.Record.Target.{RangeTarget}
use concrnt.Record.Read.{policy_delete_action, policy_root}

-- a document to delete, its address and what encoding/json reads in it
pub record Target : Type 0 where
  pub uri : String
  pub sd : SignedDocument
  pub doc : Document

-- `(includeSelf && refURI == rangeBase) || strings.HasPrefix(refURI, rangeBase+"/")`
abbrev pub in_range : RangeTarget → String → Bool
in_range range uri =
    (range.include_self && str_eq uri range.base) || has_prefix uri (concat range.base "/")

-- the references that a range covers, as they come
unfoldable pub references_in_range : RangeTarget → References → List (String × SignedDocument)
references_in_range range no_reference = []
references_in_range range (reference uri sd rest) =
    if in_range range uri
    then (uri, sd) ∷ references_in_range range rest
    else references_in_range range rest

-- the order of texts
unfoldable pub leb_codes : List ℕ → List ℕ → Bool
leb_codes [] _ = true
leb_codes (x ∷ xs) [] = false
leb_codes (x ∷ xs) (y ∷ ys) = ltb x y || (not (ltb y x) && leb_codes xs ys)

-- `slices.Sort`, by the addresses
unfoldable pub insert_uri :
    String × SignedDocument → List (String × SignedDocument) → List (String × SignedDocument)
unfolding leb_codes
insert_uri x [] = x ∷ []
insert_uri (u, sd) ((u', sd') ∷ rest) =
    if leb_codes (codes u) (codes u')
    then (u, sd) ∷ ((u', sd') ∷ rest)
    else (u', sd') ∷ insert_uri (u, sd) rest

unfoldable pub sort_uris : List (String × SignedDocument) → List (String × SignedDocument)
unfolding insert_uri
sort_uris [] = []
sort_uris (x ∷ xs) = insert_uri x (sort_uris xs)

-- the target of a plain deletion, if it is inlined
unfoldable pub referenced_at : SignedDocument → String → List (String × SignedDocument)
unfolding find_reference
referenced_at sd uri = elim (find_reference (references_of sd) uri) [
  | none ↦ []
  | some ref ↦ (uri, ref) ∷ []
]

-- `*target.CCKV` of every target
unfoldable pub with_cckvs : List SignedDocument → Result (List (String × SignedDocument))
with_cckvs [] = ok []
with_cckvs (signed none ccfs text p refs public ∷ sds) = panic
with_cckvs (signed (some uri) ccfs text p refs public ∷ sds) =
    with_cckvs sds >>= λ rest. ok ((uri, signed (some uri) ccfs text p refs public) ∷ rest)

-- what the server of the targets has stored
unfoldable pub stored_targets : Env → String → RangeTarget → Result (List (String × SignedDocument))
unfolding with_cckvs
stored_targets env raw range =
    if range.is_range
    then (env.record_subtree range.base range.include_self >>= λ found. elim found [
      | [] ↦ err not_found
      | sd ∷ sds ↦ with_cckvs (sd ∷ sds)
    ])
    else (env.get_signed_document raw >>= λ sd. ok ((raw, sd) ∷ []))

-- `json.Unmarshal` of every target
unfoldable pub parse_targets : Env → List (String × SignedDocument) → Result (List Target)
unfolding parse_document
parse_targets env [] = ok []
parse_targets env ((uri, sd) ∷ rest) = parse_document env sd >>= λ doc.
    parse_targets env rest >>= λ ts. ok (record { uri = uri; sd = sd; doc = doc } ∷ ts)

-- the targets: stored ones on their server, inlined ones elsewhere
unfoldable pub targets_of :
    Env → SignedDocument → String → RangeTarget → Bool → Result (List Target)
unfolding references_in_range sort_uris referenced_at stored_targets parse_targets
targets_of env sd raw range authoritative =
    (if authoritative
      then stored_targets env raw range
      else ok (
          if range.is_range
          then sort_uris (references_in_range range (references_of sd))
          else referenced_at sd raw))
    >>= λ found. parse_targets env found

-- the policies on one target
unfoldable pub permit_target : Env → Entity → Target → Result (Unit {0})
permit_target env requester t = env.hierarchical_policies (policy_root t.uri t.doc) >>= λ stack.
    env.permits (some requester) t.doc stack (policy_delete_action t.doc) t.uri

-- the loop over the targets, before any is removed
unfoldable pub permit_targets : Env → Entity → List Target → Result (Unit {0})
unfolding permit_target
permit_targets env requester [] = ok tt
permit_targets env requester (t ∷ ts) =
    permit_target env requester t >>= λ _. permit_targets env requester ts
