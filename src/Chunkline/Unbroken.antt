-- ===== src/Chunkline/Unbroken.antt =====
-- chunkline/client.go: a merge of timelines that were resolved does not panic.
use concrnt.Prelude.{
  ℕ, zero, suc, ◌≡◌, refl, String, true, List, [], ◌∷◌, some, inl, inr, Bool-cases, Option-cases,
  All, get_elem?, length, ltb,
}
use mathlib.Core.Path.{subst}
use concrnt.Prelude.Int.{ℤ, pos, negsuc, ltb_ℤ}
use concrnt.Prelude.Outcome.{Outcome, ok, err, panic, Outcome-cases, returns, fails, panics}
use concrnt.Prelude.Dict
use concrnt.Prelude.Dict.{Dict}
use concrnt.Chunkline.{
  less, Manifest, BodyItem, BodyChunk, QueueItem, Environment, manifest_of, time_to_chunk, chunk_of,
  with_previous, advance, merge, BodyItemWithSource, accept, query_descending, get_chunks,
  initial_queue, search, is_before, iteration_limit,
}
use concrnt.Chunkline.Gateway.{is_usable}

-- The calls of a resolver return or fail, and `heap.Pop` gives what was in the heap.
pub record IsCalm (env : Environment) : Type 1 where
  pub timelines : (uris : List String) → ¬ (env.resolve_timelines uris ≡ panic)
  pub removed : (uris : List String) → ¬ (env.get_removed_items uris ≡ panic)
  pub iterators : (uris : List String) (until : ℤ) → ¬ (env.lookup_chunk_itrs uris until ≡ panic)
  pub bodies : (query : Dict String) → ¬ (env.load_chunk_bodies query ≡ panic)
  pub pops :
      (P : QueueItem → Type 0) (queue rest : List QueueItem) (q : QueueItem)
      → env.pop less queue ≡ some (q, rest)
      → All P queue
      → P q × All P rest

-- A timeline has a manifest that can be used.
abbrev pub IsResolved : Dict Manifest → String → Type 0
IsResolved manifests timeline = is_usable (manifest_of manifests timeline) ≡ true

time_to_chunk-is_usable :
    (m : Manifest) (t : ℤ) → is_usable m ≡ true → ¬ (time_to_chunk m t ≡ panic)
unfolding time_to_chunk
time_to_chunk-is_usable m t usable = go m.chunk_size usable
  where
    go :
        (size : ℤ)
        → ltb_ℤ (pos 0) size ≡ true
        → ¬ (time_to_chunk (record { chunk_size = size }) t ≡ panic)
    go (pos zero) h = λ e. cc
    go (pos (suc k)) h = λ e. cc
    go (negsuc k) h = λ e. cc

-- What the two halves of `getChunks` lead to.
get_chunks-ne-panic :
    (env : Environment) (calm : IsCalm env) (uris : List String) (until : ℤ)
    → ¬ (get_chunks env uris until ≡ panic)
unfolding get_chunks
get_chunks-ne-panic env calm uris until h =
    elim (Outcome-cases (env.lookup_chunk_itrs uris until)) [
      | fails x e ↦ let h1 = rw (get_chunks, e) at h in cc
      | panics e ↦ calm.iterators uris until e
      | returns query e ↦ let h1 = rw (get_chunks, e) at h in calm.bodies query h1
    ]

ok-injective : {A : Type 0} {a b : A} → Path (Outcome String A) (ok a) (ok b) → a ≡ b
ok-injective h = cc

-- The queue after the chunk before was found, by its items.
previous_items :
    (P : QueueItem → Type 0) (timeline : String) (chunks chunks' : Dict BodyChunk)
    (queue : List QueueItem) (items : List BodyItem) {x : Dict BodyChunk × List QueueItem}
    → Path
        (Outcome String (Dict BodyChunk × List QueueItem))
        (elim items [
          | [] ↦ ok (chunks, queue)
          | b ∷ bs ↦ ok (chunks', record { timeline = timeline; item = b; index = 0 } ∷ queue)
        ])
        (ok x)
    → All P queue
    → ((b : BodyItem) (i : ℕ) → P (record { timeline = timeline; item = b; index = i }))
    → All P x.1
previous_items P timeline chunks chunks' queue [] h held new =
    subst (λ (y : Dict BodyChunk × List QueueItem). All P y.1) (ok-injective h) held
previous_items P timeline chunks chunks' queue (b ∷ bs) h held new =
    subst (λ (y : Dict BodyChunk × List QueueItem). All P y.1) (ok-injective h) (new b 0, held)

-- The queue after the chunk before was asked for holds what it held and items of that timeline.
with_previous-All :
    (P : QueueItem → Type 0) (timeline : String) (chunks : Dict BodyChunk) (queue : List QueueItem)
    (found : Outcome String (Dict BodyChunk)) {x : Dict BodyChunk × List QueueItem}
    → with_previous timeline chunks queue found ≡ ok x
    → All P queue
    → ((b : BodyItem) (i : ℕ) → P (record { timeline = timeline; item = b; index = i }))
    → All P x.1
with_previous-All P timeline chunks queue panic h held new = cc
with_previous-All P timeline chunks queue (err e) h held new =
    subst (λ (y : Dict BodyChunk × List QueueItem). All P y.1) (ok-injective h) held
with_previous-All P timeline chunks queue (ok found) h held new =
    elim (Option-cases (Dict.get found timeline)) [
      | inl missing ↦
          let h1 = rw (with_previous, missing) at h in
          subst (λ (y : Dict BodyChunk × List QueueItem). All P y.1) (ok-injective h1) held
      | inr (chunk, there) ↦
          let h1 = rw (with_previous, there) at h in
          previous_items P timeline chunks (Dict.put chunks timeline chunk) queue chunk.items h1
            held new
    ]

items-ne-panic :
    (timeline : String) (chunks chunks' : Dict BodyChunk) (queue : List QueueItem)
    (items : List BodyItem)
    → ¬ (
        Path
          (Outcome String (Dict BodyChunk × List QueueItem))
          (elim items [
            | [] ↦ ok (chunks, queue)
            | b ∷ bs ↦ ok (chunks', record { timeline = timeline; item = b; index = 0 } ∷ queue)
          ])
          panic)
items-ne-panic timeline chunks chunks' queue [] h = cc
items-ne-panic timeline chunks chunks' queue (b ∷ bs) h = cc

with_previous-ne-panic :
    (timeline : String) (chunks : Dict BodyChunk) (queue : List QueueItem)
    (found : Outcome String (Dict BodyChunk))
    → ¬ (found ≡ panic)
    → ¬ (with_previous timeline chunks queue found ≡ panic)
with_previous-ne-panic timeline chunks queue panic calm h = calm refl
with_previous-ne-panic timeline chunks queue (err e) calm h = cc
with_previous-ne-panic timeline chunks queue (ok found) calm h =
    elim (Option-cases (Dict.get found timeline)) [
      | inl missing ↦ let h1 = rw (with_previous, missing) at h in cc
      | inr (chunk, there) ↦
          let h1 = rw (with_previous, there) at h in
          items-ne-panic timeline chunks (Dict.put chunks timeline chunk) queue chunk.items h1
    ]

-- a property of the items of one timeline
abbrev Resolved : Dict Manifest → QueueItem → Type 0
Resolved manifests q = IsResolved manifests q.timeline

-- Either the next item is at hand, or the chunk before is asked for.
advance-All :
    (env : Environment) (calm : IsCalm env) (manifests : Dict Manifest) (chunks : Dict BodyChunk)
    (queue : List QueueItem) (q : QueueItem)
    → All (Resolved manifests) queue
    → Resolved manifests q
    → (¬ (advance env manifests chunks queue q ≡ panic))
      × ((x : Dict BodyChunk × List QueueItem)
          → advance env manifests chunks queue q ≡ ok x
          → All (Resolved manifests) x.1)
unfolding advance
advance-All env calm manifests chunks queue q held resolved =
    elim (Option-cases (get_elem? (chunk_of chunks q.timeline).items (suc q.index))) [
      | inr (b, at_hand) ↦ (
        (λ h. let h1 = rw (advance, at_hand) at h in cc),
        (λ x h.
            let h1 = rw (advance, at_hand) at h in
            subst (λ (y : Dict BodyChunk × List QueueItem). All (Resolved manifests) y.1)
              (ok-injective h1) (resolved, held)),
      )
      | inl over ↦
          (elim (Outcome-cases
            (time_to_chunk (manifest_of manifests q.timeline) q.item.timestamp)) [
              | panics e ↦ absurd (
                  time_to_chunk-is_usable (manifest_of manifests q.timeline) q.item.timestamp
                    resolved e)
              | fails x e ↦ (
                (λ h. let h1 = rw (advance, over, e) at h in cc),
                (λ x h. let h1 = rw (advance, over, e) at h in absurd (cc)),
              )
              | returns c e ↦ (
                (λ h.
                    let h1 = rw (advance, over, e) at h in
                    with_previous-ne-panic q.timeline chunks queue _
                      (get_chunks-ne-panic env calm (q.timeline ∷ []) _) h1),
                (λ x h.
                    let h1 = rw (advance, over, e) at h in
                    with_previous-All (Resolved manifests) q.timeline chunks queue _ h1 held
                      (λ b i. resolved)),
              )
            ])
    ]

merge-ne-panic :
    (n : ℕ) (env : Environment) (calm : IsCalm env) (manifests : Dict Manifest)
    (removed : Dict (List String)) (limit : ℕ) (chunks : Dict BodyChunk) (queue : List QueueItem)
    (result : List BodyItemWithSource)
    → All (Resolved manifests) queue
    → ¬ (merge n env manifests removed limit chunks queue result ≡ panic)
unfolding merge
merge-ne-panic zero env calm manifests removed limit chunks queue result held h = cc
merge-ne-panic (suc n) env calm manifests removed limit chunks queue result held h =
    elim (Bool-cases (ltb (length result) limit)) [
      | inr full ↦ let h1 = rw (merge, full) at h in cc
      | inl room ↦ (elim (Option-cases (env.pop less queue)) [
        | inl empty ↦ let h1 = rw (merge, room, empty) at h in cc
        | inr ((q, rest), popped) ↦
            let h1 = rw (merge, room, popped) at h in
            let (resolved, held') = calm.pops (Resolved manifests) queue rest q popped held in
            let (safe, keeps) = advance-All env calm manifests chunks rest q held' resolved in
            (elim (Outcome-cases (advance env manifests chunks rest q)) [
              | panics e ↦ safe e
              | fails x e ↦ let h2 = rw (e) at h1 in cc
              | returns (chunks', queue') e ↦
                  let h2 = rw (e) at h1 in
                  merge-ne-panic n env calm manifests removed limit chunks' queue'
                    (accept env removed q result) (keeps (chunks', queue') e) h2
            ])
      ])
    ]

-- Every timeline of a map of chunks has a manifest that can be used.
abbrev pub Covers : Dict Manifest → Dict BodyChunk → Type 0
Covers manifests [] = Unit
Covers manifests ((timeline, chunk) ∷ chunks) =
    IsResolved manifests timeline × Covers manifests chunks

initial_queue-All :
    (manifests : Dict Manifest) (chunks : Dict BodyChunk) (until : ℤ)
    → Covers manifests chunks
    → All (Resolved manifests) (initial_queue chunks until)
unfolding initial_queue
initial_queue-All manifests [] until covered = tt
initial_queue-All manifests ((timeline, chunk) ∷ chunks) until covered =
    let rest = initial_queue-All manifests chunks until covered.1 in
    elim (Option-cases
      (get_elem? chunk.items (search (length chunk.items) (is_before chunk.items until)))) [
        | inl none_before ↦ rw (initial_queue, none_before) rest
        | inr (b, first) ↦ rw (initial_queue, first) (covered.0, rest)
      ]

-- Where the resolver's calls return or fail, heap.Pop gives what was in the heap, and every timeline
-- that chunks are found for at first has a manifest with a positive chunk size, QueryDescending does
-- not panic.
pub query_descending-ne-panic :
    (env : Environment) (uris : List String) (until : ℤ) (limit : ℕ)
    → IsCalm env
    → ((manifests : Dict Manifest) (chunks : Dict BodyChunk)
        → env.resolve_timelines uris ≡ ok manifests
        → get_chunks env uris until ≡ ok chunks
        → Covers manifests chunks)
    → ¬ (query_descending env uris until limit ≡ panic)
unfolding query_descending
query_descending-ne-panic env uris until limit calm covered h =
    elim (Outcome-cases (env.resolve_timelines uris)) [
      | panics e ↦ calm.timelines uris e
      | fails x e ↦ let h1 = rw (query_descending, e) at h in cc
      | returns manifests resolved ↦
          let h1 = rw (query_descending, resolved) at h in
          (elim (Outcome-cases (env.get_removed_items uris)) [
            | panics e ↦ calm.removed uris e
            | fails x e ↦ let h2 = rw (e) at h1 in cc
            | returns removed e ↦
                let h2 = rw (e) at h1 in
                (elim (Outcome-cases (get_chunks env uris until)) [
                  | panics e' ↦ get_chunks-ne-panic env calm uris until e'
                  | fails x e' ↦ let h3 = rw (e') at h2 in cc
                  | returns chunks found ↦
                      let h3 = rw (found) at h2 in
                      merge-ne-panic iteration_limit env calm manifests removed limit chunks
                        (initial_queue chunks until) []
                        (initial_queue-All manifests chunks until
                          (covered manifests chunks resolved found))
                        h3
                ])
          ])
    ]
