-- ===== src/Tests/Documents.antt =====
-- types.go: the theorems on a concrete set of references.
use concrnt.Prelude.{true, false, none, some, inl, refl}
use concrnt.Document.{
  Proof, proof, no_proof, SignedDocument, signed, References, no_reference, reference,
}
use concrnt.Document.Public.{public_view, keep_nested}
use concrnt.Document.Flags.{Origin, public_view-Origin}

abbrev unproved : Proof
unproved = proof "none" none none none none no_proof

abbrev public_doc : SignedDocument
public_doc = signed none none "public" unproved no_reference (some true)

abbrev private_doc : SignedDocument
private_doc =
    signed none none "private" unproved (reference "c" public_doc no_reference) (some false)

abbrev event : References
event = reference "a" private_doc (reference "b" public_doc no_reference)

abbrev shown : SignedDocument
shown = signed none none "public" unproved no_reference none

public_view-Origin_example : Origin event "b" shown
unfolding public_view keep_nested
public_view-Origin_example = public_view-Origin event "b" shown (inl (refl, refl))
