-- ===== src/Subscription.antt =====
-- internal/usecase/subscription/subscription.go: the prefixes that realtime sessions want. A map is
-- an association list; the calls of Subscribe and of the ensurer are left to the caller of a step.
pub mod Prefixes
pub mod Sessions
use concrnt.Prelude.{
  ℕ, suc, ◌%◌, ◌^◌, String, Bool, true, false, ◌&&◌, List, [], ◌∷◌, ◌++◌, Option, none, some,
  length, ◌==◌, if◌then◌else◌,
}
use concrnt.Prelude.Text.{contains}

pub record Usecase : Type 0 where
  pub next_id : ℕ
  pub sessions : List (ℕ × List String)

-- New
abbrev pub new : Usecase
new = record { next_id = 0; sessions = [] }

-- `set[p] = struct{}{}`
unfoldable pub insert : String → List String → List String
unfolding contains
insert p set = if contains set p then set else p ∷ set

unfoldable pub insert_all : List String → List String → List String
unfolding insert
insert_all [] set = set
insert_all (p ∷ ps) set = insert_all ps (insert p set)

-- the loops over `uc.sessions`
unfoldable pub collect : List (ℕ × List String) → List String → List String
unfolding insert_all
collect [] set = set
collect ((id, prefixes) ∷ sessions) set = collect sessions (insert_all prefixes set)

-- CurrentSubscriptions, up to the order, which is that of a Go map
unfoldable pub current_subscriptions : Usecase → List String
unfolding collect
current_subscriptions uc = collect uc.sessions []

-- SessionCount
abbrev pub session_count : Usecase → ℕ
session_count uc = length uc.sessions

-- `uc.sessions[id] = prefixes`
unfoldable pub put_session : List (ℕ × List String) → ℕ → List String → List (ℕ × List String)
put_session [] id prefixes = (id, prefixes) ∷ []
put_session ((j, ps) ∷ rest) id prefixes =
    if j == id then (id, prefixes) ∷ rest else (j, ps) ∷ put_session rest id prefixes

-- `delete(uc.sessions, id)`
unfoldable pub delete_session : List (ℕ × List String) → ℕ → List (ℕ × List String)
delete_session [] id = []
delete_session ((j, ps) ∷ rest) id = if j == id then rest else (j, ps) ∷ delete_session rest id

-- openSession: the new id is the counter after its increment, in 64 bits
unfoldable pub open_session : Usecase → Usecase
unfolding put_session
open_session uc =
    let id = suc uc.next_id % 2 ^ 64 in
    record { next_id = id; sessions = put_session uc.sessions id [] }

-- updateSession
unfoldable pub update_session : Usecase → ℕ → List String → Usecase
unfolding put_session
update_session uc id prefixes = record uc { sessions = put_session uc.sessions id prefixes }

-- closeSession
unfoldable pub close_session : Usecase → ℕ → Usecase
unfolding delete_session
close_session uc id = record uc { sessions = delete_session uc.sessions id }

unfoldable pub all_in : List String → List String → Bool
unfolding contains
all_in [] set = true
all_in (p ∷ ps) set = contains set p && all_in ps set

-- samePrefixSet
unfoldable pub same_prefix_set : List String → List String → Bool
unfolding all_in insert_all
same_prefix_set a b = all_in b (insert_all a []) && all_in a (insert_all b [])

-- the elements of a slice, which may be nil
abbrev pub elements : Option (List String) → List String
elements none = []
elements (some ps) = ps

-- `current != nil && samePrefixSet(current, newSubscriptions)`
abbrev pub same_as_current : Option (List String) → List String → Bool
same_as_current none prefixes = false
same_as_current (some current) prefixes = same_prefix_set current prefixes

-- one request in Realtime: the new `current`, the state, and whether it subscribes anew; a nil
-- slice is `none`
unfoldable pub handle_request :
    Usecase
    → ℕ
    → Option (List String)
    → Option (List String)
    → Option (List String) × Usecase × Bool
unfolding update_session same_prefix_set
handle_request uc id current request =
    if same_as_current current (elements request)
    then (current, uc, false)
    else (request, update_session uc id (elements request), true)
