-- ===== src/Commit/Phases.antt =====
-- internal/usecase/record/commit.go: every transaction ends, once, and what follows a success.
use concrnt.Prelude.{
  String, ◌≡◌, ◌≢◌, ◌∙◌, ap, refl, sym, Bool, true, false, not, List, [], ◌∷◌, ◌++◌, Option, none,
  some, map, Bool-cases, inl, inr, str_eq, if◌then◌else◌, ◌↔◌,
}
use mathlib.Core.Path.{subst}
use concrnt.Prelude.Outcome.{ok, returns, fails, panics, Outcome-cases}
use concrnt.Document.{Document, SignedDocument, text_of, Codec}
use concrnt.Commit.{Result}
use concrnt.Commit.Transaction.{
  Applied, Transaction, Event, begin, apply, rollback, commit, post_process, invalidate,
  invalidations, finish, execute, invalidate_if, invalidate_target, entity_uri, after_commit,
}

-- Where the transaction is after some calls.
pub data Phase : Type 0 where
  idle began pending rolled_back committed : Phase

-- The phase after a call, if the call is allowed in this phase.
abbrev pub next_phase : Phase → Event → Option Phase
next_phase idle begin = some began
next_phase began apply = some pending
next_phase began rollback = some rolled_back
next_phase pending rollback = some rolled_back
next_phase pending commit = some committed
next_phase committed post_process = some committed
next_phase committed (invalidate _) = some committed
next_phase _ _ = none

unfoldable pub phase_after : Phase → List Event → Option Phase
phase_after p [] = some p
phase_after p (e ∷ es) = elim (next_phase p e) [ none ↦ none | some q ↦ phase_after q es ]

-- What may follow a commit.
abbrev IsAftermath : List Event → Type 0
IsAftermath es = phase_after committed es ≡ some committed

append-IsAftermath : (xs ys : List Event) → IsAftermath xs → IsAftermath ys → IsAftermath (xs ++ ys)
unfolding phase_after
append-IsAftermath [] ys h k = k
append-IsAftermath (post_process ∷ xs) ys h k = append-IsAftermath xs ys h k
append-IsAftermath (invalidate _ ∷ xs) ys h k = append-IsAftermath xs ys h k
append-IsAftermath (begin ∷ xs) ys h k = cc
append-IsAftermath (apply ∷ xs) ys h k = cc
append-IsAftermath (rollback ∷ xs) ys h k = cc
append-IsAftermath (commit ∷ xs) ys h k = cc

if-IsAftermath : (b : Bool) (es : List Event) → IsAftermath es → IsAftermath (if b then es else [])
unfolding phase_after
if-IsAftermath true es h = h
if-IsAftermath false es h = refl

invalidate_if-IsAftermath : (b : Bool) (uri : String) → IsAftermath (invalidate_if b uri)
unfolding phase_after
invalidate_if-IsAftermath true uri = refl
invalidate_if-IsAftermath false uri = refl

invalidate_target-IsAftermath : (o : Option String) → IsAftermath (invalidate_target o)
unfolding phase_after
invalidate_target-IsAftermath none = refl
invalidate_target-IsAftermath (some target) =
    invalidate_if-IsAftermath (not (str_eq target "")) target

invalidations-IsAftermath :
    (codec : Codec) (sd : SignedDocument) (doc : Document)
    → IsAftermath (invalidations codec sd doc)
unfolding invalidations
invalidations-IsAftermath codec sd doc =
    append-IsAftermath
      (invalidate_if (not (str_eq doc.key "")) doc.key
        ++ invalidate_if (str_eq doc.kind "entity") (entity_uri doc.author))
      _
      (append-IsAftermath (invalidate_if (not (str_eq doc.key "")) doc.key) _
        (invalidate_if-IsAftermath _ _) (invalidate_if-IsAftermath _ _))
      (if-IsAftermath (str_eq doc.kind "delete") _
        (invalidate_target-IsAftermath (codec.decode_string (text_of sd))))

posts-IsAftermath : (bs : List Bool) → IsAftermath (map (λ _. post_process) bs)
unfolding phase_after
posts-IsAftermath [] = refl
posts-IsAftermath (b ∷ bs) = posts-IsAftermath bs

after_commit-IsAftermath :
    (codec : Codec) (sd : SignedDocument) (doc : Document) (has_client : Bool) (a : Applied)
    → IsAftermath (after_commit codec sd doc has_client a)
after_commit-IsAftermath codec sd doc has_client a =
    append-IsAftermath (if has_client then invalidations codec sd doc else []) _
      (if-IsAftermath has_client _ (invalidations-IsAftermath codec sd doc))
      (posts-IsAftermath a.post_processes)

-- All the calls succeed and the operation changes something.
pub record Succeeds (t : Transaction) : Type 0 where
  pub begins : t.begins ≡ ok tt
  pub applied : Applied
  pub returned : t.applied ≡ ok applied
  pub changes : applied.noop ≡ false
  pub commits : t.commits ≡ ok tt

-- The calls are made in order and end the transaction; it is committed just if all succeeds.
pub record IsEnded (t : Transaction) (events : List Event) : Type 0 where
  pub last : Phase
  pub in_order : phase_after idle events ≡ some last
  pub not_began : last ≢ began
  pub not_pending : last ≢ pending
  pub committed_iff : (last ≡ committed) ↔ Succeeds t

rolled_back-IsEnded : (t : Transaction) → ¬ (Succeeds t) → IsEnded t (begin ∷ apply ∷ rollback ∷ [])
unfolding phase_after
rolled_back-IsEnded t failed = record {
  last = rolled_back;
  in_order = refl;
  not_began = λ h. cc;
  not_pending = λ h. cc;
  committed_iff = ((λ h. absurd (cc)), (λ s. absurd (failed s)));
}

true≢false : true ≢ false
true≢false h = cc

abbrev noop_of : Applied → Bool
noop_of a = a.noop

ok-eq : {a b : Applied} → Path (Result Applied) (ok a) (ok b) → a ≡ b
ok-eq h = cc

not_begun-IsEnded : (t : Transaction) → ¬ (Succeeds t) → IsEnded t []
unfolding phase_after
not_begun-IsEnded t failed = record {
  last = idle;
  in_order = refl;
  not_began = λ h. cc;
  not_pending = λ h. cc;
  committed_iff = ((λ h. absurd (cc)), (λ s. absurd (failed s)));
}

committed-IsEnded :
    (t : Transaction) (es : List Event)
    → IsAftermath es
    → Succeeds t
    → IsEnded t (begin ∷ apply ∷ commit ∷ es)
unfolding phase_after
committed-IsEnded t es h s = record {
  last = committed;
  in_order = h;
  not_began = λ h. cc;
  not_pending = λ h. cc;
  committed_iff = ((λ _. s), (λ _. refl));
}

module _ (codec : Codec) (sd : SignedDocument) (doc : Document) (t : Transaction) where
  finish-IsEnded :
      (a : Applied)
      → t.begins ≡ ok tt
      → t.applied ≡ ok a
      → IsEnded t (finish codec sd doc t a).events
  unfolding finish
  finish-IsEnded a b r = elim (Bool-cases a.noop) [
    | inl n ↦ subst (IsEnded t) (rw n refl) (
        rolled_back-IsEnded t
          (λ s. true≢false (sym n ∙ ap noop_of (ok-eq (sym r ∙ s.returned)) ∙ s.changes)))
    | inr n ↦ elim (Outcome-cases t.commits) [
      | returns u c ↦ subst (IsEnded t) (rw (n, c) refl) (
          committed-IsEnded t _ (after_commit-IsAftermath codec sd doc t.has_client a)
            (record { begins = b; applied = a; returned = r; changes = n; commits = c }))
      | fails e c ↦
          subst (IsEnded t) (rw (n, c) refl) (rolled_back-IsEnded t (λ s. let h = s.commits in cc))
      | panics c ↦
          subst (IsEnded t) (rw (n, c) refl) (rolled_back-IsEnded t (λ s. let h = s.commits in cc))
    ]
  ]

  -- Whatever the calls return, a commit makes them in order and leaves no transaction open: it is
  -- never begun, rolled back, or committed, the last exactly when every call succeeds and the
  -- operation changes something; cached resources are dropped and post-processes run only after that.
  pub execute-IsEnded : IsEnded t (execute codec sd doc t).events
  unfolding execute
  execute-IsEnded = elim (Outcome-cases t.begins) [
    | returns u b ↦ elim (Outcome-cases t.applied) [
      | returns a r ↦ subst (IsEnded t) (rw (b, r) refl) (finish-IsEnded a b r)
      | fails e r ↦
          subst (IsEnded t) (rw (b, r) refl) (rolled_back-IsEnded t (λ s. let h = s.returned in cc))
      | panics r ↦
          subst (IsEnded t) (rw (b, r) refl) (rolled_back-IsEnded t (λ s. let h = s.returned in cc))
    ]
    | fails e b ↦ subst (IsEnded t) (rw b refl) (not_begun-IsEnded t (λ s. let h = s.begins in cc))
    | panics b ↦ subst (IsEnded t) (rw b refl) (not_begun-IsEnded t (λ s. let h = s.begins in cc))
  ]
