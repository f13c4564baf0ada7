-- ===== src/Chunkline/Gateway.antt =====
-- internal/infra/gateway/chunkline_gateway.go: the manifests of timelines, from the cache or from
-- their servers. Memcached, encoding/json and the client are parameters.
use concrnt.Prelude.{
  String, Bool, true, false, List, [], ◌∷◌, ◌++◌, Option, none, some, if◌then◌else◌, map,
}
use concrnt.Prelude.Int.{pos, ltb_ℤ}
use concrnt.Prelude.Outcome.{Outcome, ok, err, panic, ◌>>=◌}
use concrnt.Prelude.Text.{concat}
use concrnt.Prelude.Dict
use concrnt.Prelude.Dict.{Dict}
use concrnt.Chunkline.{Manifest}

pub record Gateway : Type 0 where
  -- the items that are found; a failure of the cache finds none
  pub get_multi : List String → Dict String
  pub decode_manifest : String → Option Manifest
  pub encode_manifest : Manifest → Option String
  pub fetch_manifest : String → Outcome String Manifest

-- What is resolved, and what was put into the cache: keys and values.
pub record Resolution : Type 0 where
  pub manifests : Dict Manifest
  pub cached : List (String × String)

-- manifestCacheKey
abbrev pub manifest_cache_key : String → String
manifest_cache_key timeline = concat "chunkline_manifest:" timeline

-- `manifest.ChunkSize > 0`
abbrev pub is_usable : Manifest → Bool
is_usable m = ltb_ℤ (pos 0) m.chunk_size

-- a manifest that is in the cache and that can be used
unfoldable pub cached_manifest : Gateway → Dict String → String → Option Manifest
unfolding Dict.get
cached_manifest g items timeline = elim (Dict.get items (manifest_cache_key timeline)) [
  | none ↦ none
  | some value ↦ elim (g.decode_manifest value) [
    | none ↦ none
    | some m ↦ (if is_usable m then some m else none)
  ]
]

-- the first loop of ResolveTimelines: what the cache has, and what remains
unfoldable pub read_cached :
    Gateway → Dict String → List String → Dict Manifest → Dict Manifest × List String
unfolding cached_manifest Dict.put
read_cached g items [] result = (result, [])
read_cached g items (timeline ∷ timelines) result = elim (cached_manifest g items timeline) [
  | none ↦ let rest = read_cached g items timelines result in (rest.0, timeline ∷ rest.1)
  | some m ↦ read_cached g items timelines (Dict.put result timeline m)
]

-- what is put into the cache for a manifest
abbrev pub cache_entry : Gateway → String → Manifest → List (String × String)
cache_entry g timeline m = elim (g.encode_manifest m) [
  | none ↦ []
  | some value ↦ (manifest_cache_key timeline, value) ∷ []
]

-- the second loop: what remains is fetched, and what cannot be used is left out
unfoldable pub fetch_remaining :
    Gateway → List String → Dict Manifest → List (String × String) → Outcome String Resolution
unfolding Dict.put
fetch_remaining g [] result cached = ok (record { manifests = result; cached = cached })
fetch_remaining g (timeline ∷ timelines) result cached = elim (g.fetch_manifest timeline) [
  | err e ↦ fetch_remaining g timelines result cached
  | panic ↦ panic
  | ok m ↦ elim (is_usable m) [
    | false ↦ fetch_remaining g timelines result cached
    | true ↦
        fetch_remaining g timelines (Dict.put result timeline m)
          (cached ++ cache_entry g timeline m)
  ]
]

-- ResolveTimelines
unfoldable pub resolve_timelines : Gateway → List String → Outcome String Resolution
unfolding read_cached fetch_remaining
resolve_timelines g timelines =
    let (found, remaining) =
      read_cached g (g.get_multi (map manifest_cache_key timelines)) timelines [] in
    fetch_remaining g remaining found []

-- resolveTimeline; `cache_get` is the answer of `mc.Get`
unfoldable pub resolve_timeline :
    Gateway → Dict String → String → Outcome String (Manifest × List (String × String))
unfolding cached_manifest
resolve_timeline g items timeline = elim (cached_manifest g items timeline) [
  | some m ↦ ok (m, [])
  | none ↦
      (g.fetch_manifest timeline >>= λ m.
      (if is_usable m then ok (m, cache_entry g timeline m) else err "not a chunkline timeline"))
]
