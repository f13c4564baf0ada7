-- ===== src/Subscription/Sessions.antt =====
-- internal/usecase/subscription/subscription.go: what the open sessions want.
use concrnt.Prelude.{
  ℕ, suc, ◌%◌, ◌^◌, ◌≤◌, ◌<◌, String, ◌≡◌, ◌∙◌, ap, inl, inr, refl, Bool, true, false, ◌||◌, List,
  [], ◌∷◌, Option, none, some, All, Bool-cases, arith, if◌then◌else◌, ◌==◌,
}
use concrnt.Prelude.Text.{contains}
use concrnt.Subscription.{
  Usecase, insert_all, collect, current_subscriptions, put_session, delete_session, open_session,
  update_session, close_session, same_prefix_set, handle_request, elements,
}
use concrnt.Subscription.Prefixes.{contains-insert_all, or_false, same_prefix_set_iff}

-- Some session wants the prefix.
abbrev pub is_wanted : List (ℕ × List String) → String → Bool
is_wanted [] p = false
is_wanted ((id, prefixes) ∷ sessions) p = is_wanted sessions p || contains prefixes p

or_assoc : (a b c : Bool) → (a || (b || c)) ≡ ((a || b) || c)
or_assoc true b c = refl
or_assoc false b c = refl

contains-collect :
    (sessions : List (ℕ × List String)) (set : List String) (p : String)
    → contains (collect sessions set) p ≡ (is_wanted sessions p || contains set p)
unfolding collect
contains-collect [] set p = refl
contains-collect ((id, prefixes) ∷ sessions) set p =
    contains-collect sessions (insert_all prefixes set) p
    ∙ ap (λ b. is_wanted sessions p || b) (contains-insert_all prefixes set p)
    ∙ or_assoc (is_wanted sessions p) (contains prefixes p) (contains set p)

-- CurrentSubscriptions holds exactly the prefixes that some open session wants.
pub contains-current_subscriptions :
    (uc : Usecase) (p : String) → contains (current_subscriptions uc) p ≡ is_wanted uc.sessions p
unfolding current_subscriptions contains
contains-current_subscriptions uc p =
    contains-collect uc.sessions [] p ∙ or_false (is_wanted uc.sessions p)

-- the prefixes of a session
unfoldable pub prefixes_of : List (ℕ × List String) → ℕ → Option (List String)
prefixes_of [] id = none
prefixes_of ((j, ps) ∷ rest) id = if j == id then some ps else prefixes_of rest id

prefixes_of-put_session :
    (sessions : List (ℕ × List String)) (id : ℕ) (prefixes : List String)
    → prefixes_of (put_session sessions id prefixes) id ≡ some prefixes
unfolding prefixes_of put_session
prefixes_of-put_session [] id prefixes = ground arith
prefixes_of-put_session ((j, ps) ∷ rest) id prefixes =
    ground (arith, prefixes_of-put_session rest id prefixes)

-- What a session last subscribed to is what the state holds for it.
abbrev pub IsCurrent : Usecase → ℕ → Option (List String) → Type 0
IsCurrent uc id none = Unit
IsCurrent uc id (some ps) = prefixes_of uc.sessions id ≡ some ps

-- The session holds a list with the requested prefixes, and it is the one remembered.
pub record Covers (uc : Usecase) (id : ℕ) (current : Option (List String))
    (request : Option (List String)) : Type 0 where
  pub held : List String
  pub is_current : elements current ≡ held
  pub in_state : prefixes_of uc.sessions id ≡ some held
  pub same : (p : String) → contains held p ≡ contains (elements request) p

subscribed-Covers :
    (uc : Usecase) (id : ℕ) (request : Option (List String))
    → Covers (update_session uc id (elements request)) id request request
unfolding update_session
subscribed-Covers uc id request = record {
  held = elements request;
  is_current = refl;
  in_state = prefixes_of-put_session uc.sessions id (elements request);
  same = λ p. refl;
}

-- After any request of a session, if the state held what the session last subscribed to, the state
-- holds the requested prefixes for it, as a set, whether or not the request subscribed anew.
pub handle_request-Covers :
    (uc : Usecase) (id : ℕ) (current request : Option (List String))
    → IsCurrent uc id current
    → Covers
        (handle_request uc id current request).1
        id
        (handle_request uc id current request).0
        request
unfolding handle_request
handle_request-Covers uc id none request h = subscribed-Covers uc id request
handle_request-Covers uc id (some current) request h =
    elim (Bool-cases (same_prefix_set current (elements request))) [
      | inl e ↦ rw e (record {
        held = current;
        is_current = refl;
        in_state = h;
        same = (same_prefix_set_iff current (elements request)).0 e;
      })
      | inr e ↦ rw e (subscribed-Covers uc id request)
    ]

is_other : (j n id : ℕ) → j ≤ n → n < id → (j == id) ≡ false
is_other j n id h lt = ground arith

delete_session-put_session :
    (sessions : List (ℕ × List String)) (id n : ℕ) (prefixes : List String)
    → All (λ s. s.0 ≤ n) sessions
    → n < id
    → delete_session (put_session sessions id prefixes) id ≡ sessions
unfolding delete_session put_session
delete_session-put_session [] id n prefixes h lt = ground arith
delete_session-put_session ((j, ps) ∷ rest) id n prefixes h lt =
    let same = delete_session-put_session rest id n prefixes h.1 lt in
    let other = is_other j n id h.0 lt in rw other (rw other (ap (λ l. (j, ps) ∷ l) same))

-- Opening a session and closing it again leaves the sessions as they were, so long as the counter
-- has not reached the end of its 64 bits and no open session has a number above it.
pub close_session-open_session :
    (uc : Usecase)
    → All (λ s. s.0 ≤ uc.next_id) uc.sessions
    → suc uc.next_id < 2 ^ 64
    → (close_session (open_session uc) (open_session uc).next_id).sessions ≡ uc.sessions
unfolding open_session close_session
close_session-open_session uc h lt =
    delete_session-put_session uc.sessions (suc uc.next_id % 2 ^ 64) uc.next_id [] h (omega arith)
