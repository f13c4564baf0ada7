-- ===== src/Chunkline.antt =====
-- chunkline/client.go and chunkline/types.go: the merge of timelines, newest items first. The
-- resolver, the hash xxh3 and container/heap are parameters.
pub mod Merge
pub mod Gateway
pub mod Resolved
pub mod Unbroken
use concrnt.Prelude.{
  ℕ, zero, suc, ◌+◌, ◌-◌, ◌*◌, ◌/◌, String, Bool, true, false, not, ◌&&◌, ◌||◌, List, [], ◌∷◌, ◌++◌,
  Option, none, some, ltb, leb, ◌==◌, str_eq, if◌then◌else◌, length, get_elem?,
}
use concrnt.Prelude.Int.{ℤ, pos, negsuc, ltb_ℤ, sub_ℕ}
use concrnt.Prelude.Outcome.{Outcome, ok, err, panic, ◌>>=◌}
use concrnt.Prelude.Text.{concat, contains}
use concrnt.Prelude.Dict
use concrnt.Prelude.Dict.{Dict}

-- `BodyItem`, as far as it is read; an instant is in nanoseconds from the unix epoch
pub record BodyItem : Type 0 where
  pub timestamp : ℤ
  pub content : String
  pub href : String

pub record BodyChunk : Type 0 where
  pub chunk_id : ℤ
  pub items : List BodyItem

-- `Manifest`, whose chunk size is in seconds; one that is missing has a size of 0
pub record Manifest : Type 0 where
  pub chunk_size : ℤ

pub record BodyItemWithSource : Type 0 where
  pub item : BodyItem
  pub source : String

pub record QueueItem : Type 0 where
  pub timeline : String
  pub item : BodyItem
  pub index : ℕ

-- `Less`: the newest item is popped first
unfoldable pub less : QueueItem → QueueItem → Bool
less a b = ltb_ℤ b.item.timestamp a.item.timestamp

-- `Resolver`, xxh3 in hexadecimal, and `heap.Pop` by an order, which has nothing to give for an empty
-- heap
pub record Environment : Type 0 where
  pub resolve_timelines : List String → Outcome String (Dict Manifest)
  pub get_removed_items : List String → Outcome String (Dict (List String))
  pub lookup_chunk_itrs : List String → ℤ → Outcome String (Dict String)
  pub load_chunk_bodies : Dict String → Outcome String (Dict BodyChunk)
  pub hash : String → String
  pub pop : (QueueItem → QueueItem → Bool) → List QueueItem → Option (QueueItem × List QueueItem)

-- `BodyItem.ID`
unfoldable pub item_id : Environment → BodyItem → String
item_id env i = if not (str_eq i.href "") then i.href else concat "urn:xxh3:" (env.hash i.content)

-- `t.Unix()`
abbrev pub unix : ℤ → ℤ
unix (pos n) = pos (n / 1000000000)
unix (negsuc n) = negsuc (n / 1000000000)

-- Go's division of an integer by a positive number: it rounds towards zero
abbrev pub div_ℕ : ℤ → ℕ → ℤ
div_ℕ (pos n) k = pos (n / k)
div_ℕ (negsuc n) k = if suc n / k == 0 then pos 0 else negsuc (suc n / k - 1)

abbrev pub mul_ℕ : ℤ → ℕ → ℤ
mul_ℕ (pos n) k = pos (n * k)
mul_ℕ (negsuc n) k = if k == 0 then pos 0 else negsuc (suc n * k - 1)

abbrev pub negate : ℤ → ℤ
negate (pos zero) = pos zero
negate (pos (suc n)) = negsuc n
negate (negsuc n) = pos (suc n)

-- Manifest.Time2Chunk
unfoldable pub time_to_chunk : Manifest → ℤ → Outcome String ℤ
time_to_chunk m t = elim m.chunk_size [
  | pos zero ↦ panic
  | pos (suc k) ↦ ok (div_ℕ (unix t) (suc k))
  | negsuc k ↦ ok (negate (div_ℕ (unix t) (suc k)))
]

-- Manifest.Chunk2Time
unfoldable pub chunk_to_time : Manifest → ℤ → ℤ
chunk_to_time m c = elim m.chunk_size [
  | pos k ↦ mul_ℕ (mul_ℕ c k) 1000000000
  | negsuc k ↦ negate (mul_ℕ (mul_ℕ c (suc k)) 1000000000)
]

-- getChunks
unfoldable pub get_chunks : Environment → List String → ℤ → Outcome String (Dict BodyChunk)
get_chunks env uris until =
    env.lookup_chunk_itrs uris until >>= λ query. env.load_chunk_bodies query

-- the loop of `sort.Search`, with the rounds that are left
unfoldable pub search_between : ℕ → (ℕ → Bool) → ℕ → ℕ → ℕ
search_between zero f i j = i
search_between (suc n) f i j =
    let h = (i + j) / 2 in
    let left = search_between n f i h in
    let right = search_between n f (suc h) j in
    if not (ltb i j) then i else if f h then left else right

-- `sort.Search(n, f)`: the interval shrinks in every round, so n rounds are enough
abbrev pub search : ℕ → (ℕ → Bool) → ℕ
search n f = search_between n f 0 n

abbrev pub is_before : List BodyItem → ℤ → ℕ → Bool
is_before items until i = elim (get_elem? items i) [
  | none ↦ false
  | some b ↦ ltb_ℤ b.timestamp until
]

-- the first queue: of every chunk the newest item before the instant
unfoldable pub initial_queue : Dict BodyChunk → ℤ → List QueueItem
unfolding search_between
initial_queue [] until = []
initial_queue ((timeline, chunk) ∷ chunks) until =
    let rest = initial_queue chunks until in
    let index = search (length chunk.items) (is_before chunk.items until) in
    elim (get_elem? chunk.items index) [
      | none ↦ rest
      | some b ↦ record { timeline = timeline; item = b; index = index } ∷ rest
    ]

abbrev pub ids : Environment → List BodyItemWithSource → List String
ids env [] = []
ids env (r ∷ rs) = item_id env r.item ∷ ids env rs

-- `retracted`
unfoldable pub is_retracted : Environment → Dict (List String) → QueueItem → Bool
unfolding item_id Dict.get contains
is_retracted env removed q = elim (Dict.get removed q.timeline) [
  | none ↦ false
  | some list ↦ contains list (item_id env q.item)
]

-- The results after an item; `uniq` holds just their ids.
unfoldable pub accept :
    Environment → Dict (List String) → QueueItem → List BodyItemWithSource → List BodyItemWithSource
unfolding is_retracted item_id contains
accept env removed q result =
    if not (contains (ids env result) (item_id env q.item)) && not (is_retracted env removed q)
    then result ++ (record { item = q.item; source = q.timeline } ∷ [])
    else result

abbrev pub manifest_of : Dict Manifest → String → Manifest
manifest_of manifests timeline = elim (Dict.get manifests timeline) [
  | none ↦ record { chunk_size = pos 0 }
  | some m ↦ m
]

abbrev pub chunk_of : Dict BodyChunk → String → BodyChunk
chunk_of chunks timeline = elim (Dict.get chunks timeline) [
  | none ↦ record { chunk_id = pos 0; items = [] }
  | some c ↦ c
]

abbrev pub same_id : ℤ → ℤ → Bool
same_id a b = not (ltb_ℤ a b) && not (ltb_ℤ b a)

-- what the chunks and the queue become with the chunk before: a failure to get it is passed over
abbrev pub with_previous :
    String
    → Dict BodyChunk
    → List QueueItem
    → Outcome String (Dict BodyChunk)
    → Outcome String (Dict BodyChunk × List QueueItem)
with_previous timeline chunks queue panic = panic
with_previous timeline chunks queue (err e) = ok (chunks, queue)
with_previous timeline chunks queue (ok found) = elim (Dict.get found timeline) [
  | none ↦ ok (chunks, queue)
  | some chunk ↦ elim chunk.items [
    | [] ↦ ok (chunks, queue)
    | b ∷ bs ↦ ok (
      Dict.put chunks timeline chunk,
      record { timeline = timeline; item = b; index = 0 } ∷ queue,
    )
  ]
]

-- the second half of a round: the next item of the timeline, from its chunk or the one before
unfoldable pub advance :
    Environment
    → Dict Manifest
    → Dict BodyChunk
    → List QueueItem
    → QueueItem
    → Outcome String (Dict BodyChunk × List QueueItem)
unfolding get_chunks time_to_chunk chunk_to_time Dict.get Dict.put
advance env manifests chunks queue q =
    elim (get_elem? (chunk_of chunks q.timeline).items (suc q.index)) [
      | some b ↦
          ok (chunks, record { timeline = q.timeline; item = b; index = suc q.index } ∷ queue)
      | none ↦
          (time_to_chunk (manifest_of manifests q.timeline) q.item.timestamp >>= λ found.
          let previous =
            if same_id found (chunk_of chunks q.timeline).chunk_id then sub_ℕ found 1 else found in
          with_previous q.timeline chunks queue (
            get_chunks env (q.timeline ∷ [])
              (chunk_to_time (manifest_of manifests q.timeline) previous)))
    ]

-- the loop, with the rounds that `itrlimit` leaves
unfoldable pub merge :
    ℕ
    → Environment
    → Dict Manifest
    → Dict (List String)
    → ℕ
    → Dict BodyChunk
    → List QueueItem
    → List BodyItemWithSource
    → Outcome String (List BodyItemWithSource)
unfolding accept advance
merge zero env manifests removed limit chunks queue result = ok result
merge (suc n) env manifests removed limit chunks queue result = elim (ltb (length result) limit) [
  | false ↦ ok result
  | true ↦ elim (env.pop less queue) [
    | none ↦ ok result
    | some (q, rest) ↦
        (advance env manifests chunks rest q >>= λ (chunks', queue').
        merge n env manifests removed limit chunks' queue' (accept env removed q result))
  ]
]

abbrev pub iteration_limit : ℕ
iteration_limit = 1000

-- QueryDescending
unfoldable pub query_descending :
    Environment → List String → ℤ → ℕ → Outcome String (List BodyItemWithSource)
unfolding get_chunks initial_queue merge
query_descending env uris until limit = env.resolve_timelines uris >>= λ manifests.
    env.get_removed_items uris >>= λ removed. get_chunks env uris until >>= λ chunks.
    merge iteration_limit env manifests removed limit chunks (initial_queue chunks until) []
