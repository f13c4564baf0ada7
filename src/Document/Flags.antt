-- ===== src/Document/Flags.antt =====
-- types.go: what leaves the server at the websocket edge.
use concrnt.Prelude.{
  String, Bool, true, false, Option, none, some, ◌≡◌, refl, sym, ap, ◌⊎◌, inl, inr,
}
use concrnt.Document.{SignedDocument, signed, References, no_reference, reference, text_of}
use concrnt.Document.Public.{keep_nested, public_view, strip_internal_flags, strip_references}

abbrev pub flag_of : SignedDocument → Option Bool
flag_of (signed cckv ccfs text p refs public) = public

-- `refs` maps the URI to the document.
abbrev pub Holds : References → String → SignedDocument → Type 0
Holds no_reference uri sd = ⊥
Holds (reference u d rest) uri sd = ((u ≡ uri) × (d ≡ sd)) ⊎ Holds rest uri sd

-- No document at any level carries the internal flag.
mutual
  pub data IsStripped : SignedDocument → Type 0 where
    stripped :
        {cckv ccfs : Option String} {text : String} {p : _} {refs : References}
        → AreStripped refs
        → IsStripped (signed cckv ccfs text p refs none)

  pub data AreStripped : References → Type 0 where
    none_left : AreStripped no_reference
    each :
        {uri : String} {sd : SignedDocument} {rest : References}
        → IsStripped sd
        → AreStripped rest
        → AreStripped (reference uri sd rest)

mutual
  unfolding strip_internal_flags

  strip-IsStripped : (sd : SignedDocument) → IsStripped (strip_internal_flags sd)
  strip-IsStripped (signed cckv ccfs text p refs public) = stripped (strip-AreStripped refs)

  strip-AreStripped : (refs : References) → AreStripped (strip_references refs)
  strip-AreStripped no_reference = none_left
  strip-AreStripped (reference uri sd rest) = each (strip-IsStripped sd) (strip-AreStripped rest)

-- StripInternalFlags removes the flag at every level.
pub strip_internal_flags-IsStripped : (sd : SignedDocument) → IsStripped (strip_internal_flags sd)
strip_internal_flags-IsStripped sd = strip-IsStripped sd

keep_nested-AreStripped : (refs : References) → AreStripped (keep_nested refs)
unfolding keep_nested
keep_nested-AreStripped no_reference = none_left
keep_nested-AreStripped (reference uri (signed cckv ccfs text p refs none) rest) =
    keep_nested-AreStripped rest
keep_nested-AreStripped (reference uri (signed cckv ccfs text p refs (some false)) rest) =
    keep_nested-AreStripped rest
keep_nested-AreStripped (reference uri (signed cckv ccfs text p refs (some true)) rest) =
    each (stripped none_left) (keep_nested-AreStripped rest)

-- The public view carries no internal flag at any level.
pub public_view-AreStripped : (refs : References) → AreStripped (public_view refs)
unfolding public_view
public_view-AreStripped no_reference = none_left
public_view-AreStripped (reference uri (signed cckv ccfs text p refs none) rest) =
    public_view-AreStripped rest
public_view-AreStripped (reference uri (signed cckv ccfs text p refs (some false)) rest) =
    public_view-AreStripped rest
public_view-AreStripped (reference uri (signed cckv ccfs text p refs (some true)) rest) =
    each (stripped (keep_nested-AreStripped refs)) (public_view-AreStripped rest)

-- A document of the event that is flagged readable for anyone.
pub record Origin (refs : References) (uri : String) (sd : SignedDocument) : Type 0 where
  pub source : SignedDocument
  pub held : Holds refs uri source
  pub flagged : flag_of source ≡ some true
  pub same_text : text_of sd ≡ text_of source

under :
    (refs : References) (uri uri' : String) (sd sd' : SignedDocument)
    → Origin refs uri sd
    → Origin (reference uri' sd' refs) uri sd
under refs uri uri' sd sd' o = record {
  source = o.source;
  held = inr o.held;
  flagged = o.flagged;
  same_text = o.same_text;
}

-- Every document at the top level of the public view stands for a document of the event, under
-- the same URI and with the same text, that was flagged as readable.
pub public_view-Origin :
    (refs : References) (uri : String) (sd : SignedDocument)
    → Holds (public_view refs) uri sd
    → Origin refs uri sd
unfolding public_view
public_view-Origin no_reference uri sd h = absurd h
public_view-Origin (reference u (signed cckv ccfs text p refs none) rest) uri sd h =
    under rest uri u sd _ (public_view-Origin rest uri sd h)
public_view-Origin (reference u (signed cckv ccfs text p refs (some false)) rest) uri sd h =
    under rest uri u sd _ (public_view-Origin rest uri sd h)
public_view-Origin (reference u (signed cckv ccfs text p refs (some true)) rest) uri sd (inr h) =
    under rest uri u sd _ (public_view-Origin rest uri sd h)
public_view-Origin (reference u (signed cckv ccfs text p refs (some true)) rest) uri sd
      (inl (same_uri, same_sd)) =
    record {
      source = signed cckv ccfs text p refs (some true);
      held = inl (same_uri, refl);
      flagged = refl;
      same_text = sym (ap text_of same_sd);
    }
