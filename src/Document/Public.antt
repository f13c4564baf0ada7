-- ===== src/Document/Public.antt =====
-- types.go: the public view of an event's documents, and the internal flag `IsPublic`.
use concrnt.Prelude.{Bool, true, false, Option, none, some}
use concrnt.Document.{SignedDocument, signed, References, no_reference, reference}

-- `sd.IsPublic == nil || !*sd.IsPublic` is a document that is not kept
abbrev pub is_readable : Option Bool → Bool
is_readable none = false
is_readable (some b) = b

-- the inner loop of PublicView: nested documents lose their own references
unfoldable pub keep_nested : References → References
keep_nested no_reference = no_reference
keep_nested (reference uri (signed cckv ccfs text p refs public) rest) = elim (is_readable public) [
  | true ↦ reference uri (signed cckv ccfs text p no_reference none) (keep_nested rest)
  | false ↦ keep_nested rest
]

-- PublicView, on `Event.References`
unfoldable pub public_view : References → References
unfolding keep_nested
public_view no_reference = no_reference
public_view (reference uri (signed cckv ccfs text p refs public) rest) = elim (is_readable public) [
  | true ↦ reference uri (signed cckv ccfs text p (keep_nested refs) none) (public_view rest)
  | false ↦ public_view rest
]

-- the inner loop of MarkAllPublic
unfoldable pub mark_nested : References → References
mark_nested no_reference = no_reference
mark_nested (reference uri (signed cckv ccfs text p refs public) rest) =
    reference uri (signed cckv ccfs text p refs (some true)) (mark_nested rest)

-- MarkAllPublic, on `Event.References`
unfoldable pub mark_all_public : References → References
unfolding mark_nested
mark_all_public no_reference = no_reference
mark_all_public (reference uri (signed cckv ccfs text p refs public) rest) =
    reference uri (signed cckv ccfs text p (mark_nested refs) (some true)) (mark_all_public rest)

-- StripInternalFlags
unfoldable mutual
  pub strip_internal_flags : SignedDocument → SignedDocument
  strip_internal_flags (signed cckv ccfs text p refs public) =
      signed cckv ccfs text p (strip_references refs) none

  pub strip_references : References → References
  strip_references no_reference = no_reference
  strip_references (reference uri sd rest) =
      reference uri (strip_internal_flags sd) (strip_references rest)
