-- ===== src/JobQueue/Ledger.antt =====
-- internal/infra/jobqueue/redis.go: what the commands leave on the stream, among the retries and
-- among the dead letters, where a write that returns without an error takes effect and a write that
-- fails does not. The limit on the length of the streams is not reached.
use concrnt.Prelude.{
  String, str_eq_refl, ◌≡◌, refl, ◌∙◌, ap, Bool, true, false, List, [], ◌∷◌, ◌++◌, str_eq,
  if◌then◌else◌,
}
use concrnt.JobQueue.{
  Command, add_to_stream, add_to_dlq, ack_and_del, remove_retry, remove_dead, add_retry,
}

-- messages and letters with their ids; a member of the sorted set of the retries is there once
pub record Ledger : Type 0 where
  pub stream : List (String × String)
  pub retries : List String
  pub letters : List (String × String)

abbrev pub without_id : String → List (String × String) → List (String × String)
without_id id [] = []
without_id id ((id', text) ∷ rest) =
    if str_eq id id' then without_id id rest else (id', text) ∷ without_id id rest

abbrev pub without : String → List String → List String
without text [] = []
without text (text' ∷ rest) =
    if str_eq text text' then without text rest else text' ∷ without text rest

-- the effect of a write, with the id that a new message or letter gets
abbrev pub effect : String → Command → Ledger → Ledger
effect new (add_to_stream text) l = record l { stream = l.stream ++ ((new, text) ∷ []) }
effect new (add_to_dlq text) l = record l { letters = l.letters ++ ((new, text) ∷ []) }
effect new (ack_and_del id) l = record l { stream = without_id id l.stream }
effect new (remove_retry text) l = record l { retries = without text l.retries }
effect new (remove_dead id) l = record l { letters = without_id id l.letters }
effect new (add_retry delay text) l = record l { retries = text ∷ without text l.retries }

abbrev pub effects : String → List Command → Ledger → Ledger
effects new [] l = l
effects new (c ∷ cs) l = effects new cs (effect new c l)

-- the effects of those writes that return without an error
unfoldable pub book : (Command → Bool) → String → List Command → Ledger → Ledger
book succeeds new [] l = l
book succeeds new (c ∷ cs) l = book succeeds new cs (if succeeds c then effect new c l else l)

pub book-effects :
    (succeeds : Command → Bool) (new : String) (cs : List Command) (l : Ledger)
    → ((c : Command) → succeeds c ≡ true)
    → book succeeds new cs l ≡ effects new cs l
unfolding book
book-effects succeeds new [] l works = refl
book-effects succeeds new (c ∷ cs) l works =
    ap (λ b. book succeeds new cs (if b then effect new c l else l)) (works c)
    ∙ book-effects succeeds new cs (effect new c l) works

pub without_id-last :
    (id text : String) (xs : List (String × String))
    → without_id id xs ≡ xs
    → without_id id (xs ++ ((id, text) ∷ [])) ≡ xs
without_id-last id text xs h = without_id-append xs ∙ h
  where
    same :
        (b : Bool) → b ≡ true → Path (List (String × String)) (if b then [] else (id, text) ∷ []) []
    same true e = refl
    same false e = cc

    without_id-append :
        (xs : List (String × String)) → without_id id (xs ++ ((id, text) ∷ [])) ≡ without_id id xs
    without_id-append [] = same (str_eq id id) (str_eq_refl id)
    without_id-append ((id', text') ∷ xs) =
        ap (λ r. if str_eq id id' then r else (id', text') ∷ r) (without_id-append xs)

pub without-first :
    (text : String) (xs : List String) → without text xs ≡ xs → without text (text ∷ xs) ≡ xs
without-first text xs h =
    ap (λ b. if b then without text xs else text ∷ without text xs) (str_eq_refl text) ∙ h
