-- ===== src/Tests/Sessions.antt =====
-- internal/usecase/subscription/subscription.go: the theorems on two sessions.
use concrnt.Prelude.{String, ◌≡◌, ◌↔◌, refl, true, List, [], ◌∷◌, some}
use concrnt.Prelude.Text.{contains}
use concrnt.Subscription.{Usecase, same_prefix_set, handle_request}
use concrnt.Subscription.Prefixes.{same_prefix_set_iff}
use concrnt.Subscription.Sessions.{prefixes_of, Covers, handle_request-Covers}

abbrev two_sessions : Usecase
two_sessions = record {
  next_id = 2;
  sessions = (1, "cckv://a" ∷ []) ∷ (2, "cckv://a" ∷ "cckv://b" ∷ []) ∷ [];
}

abbrev repeated : List String
repeated = "cckv://b" ∷ "cckv://a" ∷ "cckv://b" ∷ []

abbrev held_list : List String
held_list = "cckv://a" ∷ "cckv://b" ∷ []

same_prefix_set_iff_example :
    (same_prefix_set held_list repeated ≡ true)
    ↔ ((p : String) → contains held_list p ≡ contains repeated p)
same_prefix_set_iff_example = same_prefix_set_iff held_list repeated

handle_request-Covers_example :
    Covers
      (handle_request two_sessions 2 (some held_list) (some repeated)).1
      2
      (handle_request two_sessions 2 (some held_list) (some repeated)).0
      (some repeated)
unfolding prefixes_of
handle_request-Covers_example =
    handle_request-Covers two_sessions 2 (some held_list) (some repeated) refl
