-- ===== src/Record/Read/Anonymous.antt =====
-- internal/usecase/record/policy.go and types.go: what an anonymous listener of an event is shown.
use concrnt.Prelude.{◌≡◌, refl, sym, ◌∙◌, String, Bool, true, Option, none, inl, inr, Bool-cases}
use concrnt.Document.{
  Proof, SignedDocument, signed, References, no_reference, reference, references_of,
}
use concrnt.Document.Public.{public_view, keep_nested}
use concrnt.Record.{Env}
use concrnt.Record.Read.{
  check_read_access_as, is_public, mark_nested_for_anonymous, mark_for_anonymous,
}

-- A property of every reference.
abbrev pub AllReferences : (String → SignedDocument → Type 0) → References → Type 0
AllReferences P no_reference = Unit
AllReferences P (reference uri sd rest) = P uri sd × AllReferences P rest

-- The policies let anyone read the document at the address.
abbrev pub IsPublic : Env → String → SignedDocument → Type 0
IsPublic env uri sd = is_public env uri sd ≡ true

-- It, and what it refers to.
abbrev pub IsPublicThroughout : Env → String → SignedDocument → Type 0
IsPublicThroughout env uri sd =
    IsPublic env uri sd × AllReferences (IsPublic env) (references_of sd)

-- Who may read a document depends on its text and its address.
is_public_text :
    (env : Env) (uri : String) (cckv ccfs : Option String) (text : String) (p : Proof)
    (refs refs' : References) (public public' : Option Bool)
    → is_public env uri (signed cckv ccfs text p refs public)
      ≡ is_public env uri (signed cckv ccfs text p refs' public')
unfolding is_public check_read_access_as
is_public_text env uri cckv ccfs text p refs refs' public public' = refl

keep_nested-IsPublic :
    (env : Env) (refs : References)
    → AllReferences (IsPublic env) (keep_nested (mark_nested_for_anonymous env refs))
unfolding keep_nested mark_nested_for_anonymous
keep_nested-IsPublic env no_reference = tt
keep_nested-IsPublic env (reference uri (signed cckv ccfs text p refs public) rest) =
    elim (Bool-cases (is_public env uri (signed cckv ccfs text p refs public))) [
      | inr hidden ↦ let later = keep_nested-IsPublic env rest in rw (hidden) later
      | inl shown ↦ rw (shown) (
        sym (is_public_text env uri cckv ccfs text p refs no_reference public none) ∙ shown,
        keep_nested-IsPublic env rest,
      )
    ]

-- What is left of an event for anonymous listeners, after its documents are marked by what the
-- policies say and those not marked public are taken out, are only documents that the policies let
-- anyone read, at the first level and below it.
pub public_view-mark_for_anonymous :
    (env : Env) (refs : References)
    → AllReferences (IsPublicThroughout env) (public_view (mark_for_anonymous env refs))
unfolding public_view mark_for_anonymous
public_view-mark_for_anonymous env no_reference = tt
public_view-mark_for_anonymous env (reference uri (signed cckv ccfs text p refs public) rest) =
    elim (Bool-cases (is_public env uri (signed cckv ccfs text p refs public))) [
      | inr hidden ↦ let later = public_view-mark_for_anonymous env rest in rw (hidden) later
      | inl shown ↦
          let nested = mark_nested_for_anonymous env refs in
          rw (shown) (
            (
              sym (is_public_text env uri cckv ccfs text p refs (keep_nested nested) public none)
                  ∙ shown,
              keep_nested-IsPublic env refs,
            ),
            public_view-mark_for_anonymous env rest,
          )
    ]
