-- ===== src/Chunkline/Merge.antt =====
-- chunkline/client.go: what QueryDescending answers.
use concrnt.Prelude.{
  ℕ, zero, suc, ◌≤◌, ◌<◌, ◌≡◌, refl, sym, ap, String, Bool, true, false, ◌||◌, List, [], ◌∷◌, ◌++◌,
  inl, inr, ltb, ltb→lt, arith, Bool-cases, Option-cases, All, All-append, length, length-append,
  str_eq, eq_iff,
}
use mathlib.Core.Path.{subst}
use concrnt.Prelude.Outcome.{Outcome, ok, >>=-eq-ok}
use concrnt.Prelude.Int.{ℤ}
use concrnt.Prelude.Text.{contains}
use concrnt.Prelude.Dict.{Dict}
use concrnt.Chunkline.{
  less, BodyChunk, Manifest, BodyItemWithSource, QueueItem, Environment, item_id, ids, is_retracted,
  accept, advance, merge, iteration_limit, get_chunks, initial_queue, query_descending,
}

ok-injective : {A : Type 0} {a b : A} → Path (Outcome String A) (ok a) (ok b) → a ≡ b
ok-injective h = cc

-- No text is in a list twice.
abbrev pub Distinct : List String → Type 0
Distinct [] = Unit
Distinct (x ∷ xs) = (contains xs x ≡ false) × Distinct xs

-- The timeline that an item comes from has not retracted it.
abbrev pub IsKept : Environment → Dict (List String) → BodyItemWithSource → Type 0
IsKept env removed r =
    is_retracted env removed (record { timeline = r.source; item = r.item; index = 0 }) ≡ false

-- What a list of results answers for.
pub record IsAnswer (env : Environment) (removed : Dict (List String)) (limit : ℕ)
    (result : List BodyItemWithSource) : Type 0 where
  pub short : length result ≤ limit
  pub distinct : Distinct (ids env result)
  pub kept : All (IsKept env removed) result

or_parts : (a b : Bool) → (a || b) ≡ false → (a ≡ false) × (b ≡ false)
or_parts true b h = absurd (cc)
or_parts false b h = (refl, h)

or_both : (a b : Bool) → a ≡ false → b ≡ false → (a || b) ≡ false
or_both true b h k = absurd (cc)
or_both false b h k = k

str_eq_sym : (x y : String) → str_eq x y ≡ false → str_eq y x ≡ false
str_eq_sym x y h = ground (arith, eq_iff x y, eq_iff y x)

contains_last :
    (xs : List String) (x y : String)
    → contains xs x ≡ false
    → str_eq y x ≡ false
    → contains (xs ++ (y ∷ [])) x ≡ false
unfolding contains
contains_last [] x y h differs = or_both (str_eq y x) false differs refl
contains_last (z ∷ xs) x y h differs =
    let (first, later) = or_parts (str_eq z x) (contains xs x) h in
    or_both (str_eq z x) (contains (xs ++ (y ∷ [])) x) first (contains_last xs x y later differs)

Distinct-append :
    (xs : List String) (y : String)
    → Distinct xs
    → contains xs y ≡ false
    → Distinct (xs ++ (y ∷ []))
unfolding contains
Distinct-append [] y h new = (refl, tt)
Distinct-append (x ∷ xs) y h new =
    let (first, later) = or_parts (str_eq x y) (contains xs y) new in
    (contains_last xs x y h.0 (str_eq_sym x y first), Distinct-append xs y h.1 later)

ids-append :
    (env : Environment) (rs ss : List BodyItemWithSource)
    → ids env (rs ++ ss) ≡ ids env rs ++ ids env ss
ids-append env [] ss = refl
ids-append env (r ∷ rs) ss = ap (λ l. item_id env r.item ∷ l) (ids-append env rs ss)

-- One more item, where the results are fewer than the limit.
accept-IsAnswer :
    (env : Environment) (removed : Dict (List String)) (limit : ℕ) (q : QueueItem)
    (result : List BodyItemWithSource)
    → length result < limit
    → IsAnswer env removed limit result
    → IsAnswer env removed limit (accept env removed q result)
unfolding accept is_retracted
accept-IsAnswer env removed limit q result room before =
    elim (Bool-cases (contains (ids env result) (item_id env q.item))) [
      | inl known ↦ rw (known) before
      | inr new ↦ (elim (Bool-cases (is_retracted env removed q)) [
        | inl retracted ↦ rw (new, retracted) before
        | inr kept ↦
            let last : List BodyItemWithSource =
              record { item = q.item; source = q.timeline } ∷ [] in
            rw (new, kept)
              (record {
                short = omega (arith, length-append result last);
                distinct =
                    subst Distinct (sym (ids-append env result last))
                      (Distinct-append (ids env result) (item_id env q.item) before.distinct new);
                kept = All-append (IsKept env removed) result last before.kept (kept, tt);
              })
      ])
    ]

merge-IsAnswer :
    (n : ℕ) (env : Environment) (manifests : Dict Manifest) (removed : Dict (List String))
    (limit : ℕ) (chunks : Dict BodyChunk) (queue : List QueueItem)
    (result : List BodyItemWithSource) {answer : List BodyItemWithSource}
    → merge n env manifests removed limit chunks queue result ≡ ok answer
    → IsAnswer env removed limit result
    → IsAnswer env removed limit answer
unfolding merge
merge-IsAnswer zero env manifests removed limit chunks queue result h before =
    subst (IsAnswer env removed limit) (ok-injective h) before
merge-IsAnswer (suc n) env manifests removed limit chunks queue result h before =
    elim (Bool-cases (ltb (length result) limit)) [
      | inr full ↦
          let h1 = rw (merge, full) at h in
          subst (IsAnswer env removed limit) (ok-injective h1) before
      | inl room ↦ (elim (Option-cases (env.pop less queue)) [
        | inl empty ↦
            let h1 = rw (merge, room, empty) at h in
            subst (IsAnswer env removed limit) (ok-injective h1) before
        | inr ((q, rest), popped) ↦
            let h1 = rw (merge, room, popped) at h in
            let ((chunks', queue'), _, h2) = >>=-eq-ok (advance env manifests chunks rest q) _ h1 in
            merge-IsAnswer n env manifests removed limit chunks' queue'
              (accept env removed q result) h2
              (accept-IsAnswer env removed limit q result (ltb→lt (length result) limit room)
                before)
      ])
    ]

-- When QueryDescending returns without an error, then its items are at most `limit`, no two of them
-- have the same id, and none is one that the timeline it comes from has retracted.
pub query_descending-IsAnswer :
    (env : Environment) (uris : List String) (until : ℤ) (limit : ℕ)
    (answer : List BodyItemWithSource)
    → query_descending env uris until limit ≡ ok answer
    → (removed : Dict (List String)) × (env.get_removed_items uris ≡ ok removed)
      × IsAnswer env removed limit answer
unfolding query_descending
query_descending-IsAnswer env uris until limit answer h =
    let (manifests, _, h1) = >>=-eq-ok (env.resolve_timelines uris) _ h in
    let (removed, known, h2) = >>=-eq-ok (env.get_removed_items uris) _ h1 in
    let (chunks, _, h3) = >>=-eq-ok (get_chunks env uris until) _ h2 in
    (
      removed,
      known,
      merge-IsAnswer iteration_limit env manifests removed limit chunks (initial_queue chunks until)
          [] h3 (record { short = omega (arith); distinct = tt; kept = tt }),
    )
