-- ===== src/Chunkline/Resolved.antt =====
-- internal/infra/gateway/chunkline_gateway.go and chunkline/client.go: resolved manifests can be
-- used, and with them a merge does not panic.
use concrnt.Prelude.{
  ◌≡◌, String, true, List, [], ◌∷◌, ◌++◌, Option, some, inl, inr, Bool-cases, Option-cases,
  if-cases, str_eq, map,
}
use mathlib.Core.Path.{subst}
use concrnt.Prelude.Outcome.{Outcome, ok, Outcome-cases, returns, fails, panics}
use concrnt.Prelude.Dict
use concrnt.Prelude.Dict.{Dict}
use concrnt.Chunkline.{Manifest}
use concrnt.Chunkline.Gateway.{
  Gateway, Resolution, is_usable, cached_manifest, read_cached, cache_entry, fetch_remaining,
  resolve_timelines, manifest_cache_key,
}

-- Every manifest of a map can be used.
abbrev pub AllUsable : Dict Manifest → Type 0
AllUsable [] = Unit
AllUsable ((timeline, m) ∷ rest) = (is_usable m ≡ true) × AllUsable rest

put-AllUsable :
    (manifests : Dict Manifest) (timeline : String) (m : Manifest)
    → AllUsable manifests
    → is_usable m ≡ true
    → AllUsable (Dict.put manifests timeline m)
unfolding Dict.put
put-AllUsable [] timeline m h usable = (usable, tt)
put-AllUsable ((k, v) ∷ rest) timeline m h usable = elim (Bool-cases (str_eq k timeline)) [
  | inl same ↦ rw (same) (usable, h.1)
  | inr other ↦ rw (other) (h.0, put-AllUsable rest timeline m h.1 usable)
]

cached_manifest-is_usable :
    (g : Gateway) (items : Dict String) (timeline : String) {m : Manifest}
    → cached_manifest g items timeline ≡ some m
    → is_usable m ≡ true
unfolding cached_manifest
cached_manifest-is_usable g items timeline h =
    elim (Option-cases (Dict.get items (manifest_cache_key timeline))) [
      | inl missing ↦ let h1 = rw (cached_manifest, missing) at h in absurd (cc)
      | inr (value, found) ↦
          let h1 = rw (cached_manifest, found) at h in
          (elim (Option-cases (g.decode_manifest value)) [
            | inl unreadable ↦ let h2 = rw (unreadable) at h1 in absurd (cc)
            | inr (n, decoded) ↦
                let h2 = rw (decoded) at h1 in
                (elim (if-cases (is_usable n) h2) [
                  | inl (usable, same) ↦
                      subst (λ k. is_usable k ≡ true) (some-injective same) usable
                  | inr (_, refused) ↦ absurd (cc)
                ])
          ])
    ]
  where
    some-injective : {A : Type 0} {a b : A} → Path (Option A) (some a) (some b) → a ≡ b
    some-injective h = cc

read_cached-AllUsable :
    (g : Gateway) (items : Dict String) (timelines : List String) (result : Dict Manifest)
    → AllUsable result
    → AllUsable (read_cached g items timelines result).0
unfolding read_cached
read_cached-AllUsable g items [] result h = h
read_cached-AllUsable g items (timeline ∷ timelines) result h =
    elim (Option-cases (cached_manifest g items timeline)) [
      | inl missing ↦
          let rest = read_cached-AllUsable g items timelines result h in
          rw (read_cached, missing) rest
      | inr (m, found) ↦
          rw (read_cached, found)
            (read_cached-AllUsable g items timelines (Dict.put result timeline m) (
              put-AllUsable result timeline m h (cached_manifest-is_usable g items timeline found)))
    ]

fetch_remaining-AllUsable :
    (g : Gateway) (timelines : List String) (result : Dict Manifest)
    (cached : List (String × String)) {r : Resolution}
    → fetch_remaining g timelines result cached ≡ ok r
    → AllUsable result
    → AllUsable r.manifests
unfolding fetch_remaining
fetch_remaining-AllUsable g [] result cached h usable =
    subst (λ (y : Resolution). AllUsable y.manifests) (ok-injective h) usable
  where
    ok-injective : {A : Type 0} {a b : A} → Path (Outcome String A) (ok a) (ok b) → a ≡ b
    ok-injective h = cc
fetch_remaining-AllUsable g (timeline ∷ timelines) result cached h usable =
    elim (Outcome-cases (g.fetch_manifest timeline)) [
      | fails x e ↦
          let h1 = rw (fetch_remaining, e) at h in
          fetch_remaining-AllUsable g timelines result cached h1 usable
      | panics e ↦ let h1 = rw (fetch_remaining, e) at h in absurd (cc)
      | returns m e ↦ (elim (Bool-cases (is_usable m)) [
        | inr refused ↦
            let h1 = rw (fetch_remaining, e, refused) at h in
            fetch_remaining-AllUsable g timelines result cached h1 usable
        | inl good ↦
            let h1 = rw (fetch_remaining, e, good) at h in
            fetch_remaining-AllUsable g timelines (Dict.put result timeline m)
              (cached ++ cache_entry g timeline m) h1 (put-AllUsable result timeline m usable good)
      ])
    ]

-- Every manifest that ResolveTimelines returns has a positive chunk size, whatever the cache and the
-- servers answer.
pub resolve_timelines-AllUsable :
    (g : Gateway) (timelines : List String) (r : Resolution)
    → resolve_timelines g timelines ≡ ok r
    → AllUsable r.manifests
unfolding resolve_timelines
resolve_timelines-AllUsable g timelines r h =
    let items = g.get_multi (map manifest_cache_key timelines) in
    let first = read_cached g items timelines [] in
    fetch_remaining-AllUsable g first.1 first.0 [] h (read_cached-AllUsable g items timelines [] tt)
