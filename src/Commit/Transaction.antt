-- ===== src/Commit/Transaction.antt =====
-- internal/usecase/record/commit.go: the calls of the transaction that a commit ends with. What
-- each call returns is an argument.
use concrnt.Prelude.{
  String, Bool, true, false, not, List, [], ◌∷◌, ◌++◌, map, Option, none, some, str_eq,
  if◌then◌else◌,
}
use concrnt.Prelude.Outcome.{ok, err, panic}
use concrnt.Uri
use concrnt.Document.{Document, SignedDocument, text_of, Codec}
use concrnt.Commit.{Result}

-- commitApplyResult: whether the operation changed nothing, and what to run afterwards, each with
-- whether it succeeds.
pub record Applied : Type 0 where
  pub noop : Bool
  pub post_processes : List Bool

-- What the calls return: BeginTx, the operation, and the transaction's Commit.
pub record Transaction : Type 0 where
  pub begins : Result (Unit {0})
  pub applied : Result Applied
  pub commits : Result (Unit {0})
  pub has_client : Bool

-- A call of the transaction, of the resource cache or of a post-process. `begin` and `commit` stand
-- for calls that succeed.
pub data Event : Type 0 where
  begin apply rollback commit post_process : Event
  invalidate : String → Event

pub record Run : Type 0 where
  pub events : List Event
  pub result : Result (Unit {0})

abbrev pub invalidate_if : Bool → String → List Event
invalidate_if true uri = invalidate uri ∷ []
invalidate_if false uri = []

abbrev pub invalidate_target : Option String → List Event
invalidate_target none = []
invalidate_target (some target) = invalidate_if (not (str_eq target "")) target

-- the printed URI of an entity
abbrev pub entity_uri : String → String
entity_uri author = Uri.to_string (record {
  scheme = "cckv";
  owner = author;
  key = "";
  type_name = "";
  cdid = "";
  hint = none;
  raw = "";
})

-- `uc.client.InvalidateResource`
unfoldable pub invalidations : Codec → SignedDocument → Document → List Event
invalidations codec sd doc =
    invalidate_if (not (str_eq doc.key "")) doc.key
    ++ invalidate_if (str_eq doc.kind "entity") (entity_uri doc.author)
    ++ (if str_eq doc.kind "delete"
        then invalidate_target (codec.decode_string (text_of sd))
        else [])

abbrev pub rolled_back_run : Result (Unit {0}) → Run
rolled_back_run r = record { events = begin ∷ apply ∷ rollback ∷ []; result = r }

-- the resource cache, then the post-processes, of which none stops the next
abbrev pub after_commit : Codec → SignedDocument → Document → Bool → Applied → List Event
after_commit codec sd doc has_client a =
    (if has_client then invalidations codec sd doc else [])
    ++ map (λ _. post_process) a.post_processes

unfoldable pub finish : Codec → SignedDocument → Document → Transaction → Applied → Run
unfolding invalidations
finish codec sd doc t a = if a.noop then rolled_back_run (ok tt) else elim t.commits [
  | err e ↦ rolled_back_run (err e)
  | panic ↦ rolled_back_run panic
  | ok _ ↦ record {
    events = begin ∷ apply ∷ commit ∷ after_commit codec sd doc t.has_client a;
    result = ok tt;
  }
]

-- Commit, from BeginTx on
unfoldable pub execute : Codec → SignedDocument → Document → Transaction → Run
unfolding finish
execute codec sd doc t = elim t.begins [
  | err e ↦ record { events = []; result = err e }
  | panic ↦ record { events = []; result = panic }
  | ok _ ↦ elim t.applied [
    | err e ↦ rolled_back_run (err e)
    | panic ↦ rolled_back_run panic
    | ok a ↦ finish codec sd doc t a
  ]
]
