-- ===== src/Record/Create/Listed.antt =====
-- internal/usecase/record/record.go: what a record is listed under.
use concrnt.Prelude.{
  ◌≡◌, refl, sym, ◌∙◌, ap, true, false, some, inl, inr, ◌⊎◌, if-cases, str_eq, none, Option,
  Option-cases,
}
use concrnt.Prelude.Outcome.{ok, ◌>>=◌, >>=-eq-ok}
use concrnt.Document.{Document, SignedDocument, text_of, references_of, find_reference}
use concrnt.Verify.{reference_url}
use concrnt.Commit.{Result}
use concrnt.Commit.Guards.{ok-injective}
use concrnt.Record.{Env, ReferenceValue, parse_document}
use concrnt.Record.Create.{or_default, Listing, listing_of}

-- What a record is listed under: for a reference, the document that it refers to, where that is
-- inlined, else what the reference says of it, else itself; for any other record itself.
abbrev pub IsListing : Env → SignedDocument → Document → Listing → Type 0
IsListing env sd doc listing =
    ((str_eq doc.schema reference_url ≡ false)
      × (listing ≡ record { schema = doc.schema; created_at = doc.created_at; redirect = none }))
    ⊎ ((str_eq doc.schema reference_url ≡ true)
        × (v : ReferenceValue) × (env.reference_value (text_of sd) ≡ some v)
        × (listing.redirect ≡ some v.href)
        × (((target : SignedDocument) × (d : Document) × (find_reference (references_of sd) v.href
                ≡ some target)
              × (parse_document env target ≡ ok d)
              × (listing.schema ≡ d.schema)
              × (listing.created_at ≡ d.created_at))
            ⊎ ((find_reference (references_of sd) v.href ≡ none)
                × (listing.schema ≡ (elim v.schema [ none ↦ doc.schema | some s ↦ s ]))
                × (listing.created_at
                    ≡ (elim v.created_at [ none ↦ doc.created_at | some t ↦ t ])))))

or_default-eq :
    {A : Type 0} (o : Option A) (a : A) → or_default a o ≡ (elim o [ none ↦ a | some b ↦ b ])
or_default-eq none a = refl
or_default-eq (some b) a = refl

-- the listing of a reference, by whether the target is inlined
listing_found :
    (env : Env) (doc : Document) (v : ReferenceValue) (inlined : Option SignedDocument)
    {listing : Listing}
    → Path
        (Result Listing)
        (elim inlined [
          | none ↦ ok (record {
            schema = or_default doc.schema v.schema;
            created_at = or_default doc.created_at v.created_at;
            redirect = some v.href;
          })
          | some target ↦
              (parse_document env target >>= λ d.
              ok (record { schema = d.schema; created_at = d.created_at; redirect = some v.href }))
        ])
        (ok listing)
    → (listing.redirect ≡ some v.href)
      × (((target : SignedDocument) × (d : Document) × (inlined ≡ some target)
            × (parse_document env target ≡ ok d)
            × (listing.schema ≡ d.schema)
            × (listing.created_at ≡ d.created_at))
          ⊎ ((inlined ≡ none)
              × (listing.schema ≡ (elim v.schema [ none ↦ doc.schema | some s ↦ s ]))
              × (listing.created_at ≡ (elim v.created_at [ none ↦ doc.created_at | some t ↦ t ]))))
listing_found env doc v none h =
    let same = sym (ok-injective h) in
    (
      ap (λ (l : Listing). l.redirect) same,
      inr (
        refl,
        ap (λ (l : Listing). l.schema) same ∙ or_default-eq v.schema doc.schema,
        ap (λ (l : Listing). l.created_at) same ∙ or_default-eq v.created_at doc.created_at,
      ),
    )
listing_found env doc v (some target) h =
    let (d, parsed, done) = >>=-eq-ok (parse_document env target) _ h in
    let same = sym (ok-injective done) in
    (
      ap (λ (l : Listing). l.redirect) same,
      inl (
        target,
        d,
        refl,
        parsed,
        ap (λ (l : Listing). l.schema) same,
        ap (λ (l : Listing). l.created_at) same,
      ),
    )

pub listing_of-IsListing :
    (env : Env) (sd : SignedDocument) (doc : Document) {listing : Listing}
    → listing_of env sd doc ≡ ok listing
    → IsListing env sd doc listing
unfolding listing_of
listing_of-IsListing env sd doc h = elim (if-cases (str_eq doc.schema reference_url) h) [
  | inr (other, done) ↦ inl (other, sym (ok-injective done))
  | inl (refers, taken) ↦ (elim (Option-cases (env.reference_value (text_of sd))) [
    | inl unreadable ↦ absurd (let h1 = rw (unreadable) at taken in cc)
    | inr (v, read) ↦
        let h1 = rw (read) at taken in
        let (redirect, told) =
          listing_found env doc v (find_reference (references_of sd) v.href) h1 in
        inr (refers, v, read, redirect, told)
  ])
]
