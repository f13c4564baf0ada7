-- ===== src/Policy/Value.antt =====
-- The values of type `any` that policy evaluation handles (policy/types.go, policy/operators.go).
use concrnt.Prelude.{
  ℕ, String, Bool, true, false, ◌&&◌, List, [], ◌∷◌, Option, none, some, ◌==◌, str_eq,
  if◌then◌else◌,
}

-- `nil`, bool, string, []any, map[string]any; `atom` is a value of any other dynamic type that Go
-- can compare: the first number names the type, the second the value in it.
mutual
  pub data Value : Type 0 where
    nil : Value
    bool : Bool → Value
    str : String → Value
    atom : ℕ → ℕ → Value
    arr : Items → Value
    obj : Fields → Value

  pub data Items : Type 0 where
    end : Items
    item : Value → Items → Items

  pub data Fields : Type 0 where
    empty : Fields
    field : String → Value → Fields → Fields

abbrev pub bool_eq : Bool → Bool → Bool
bool_eq true b = b
bool_eq false true = false
bool_eq false false = true

-- What Go's `a == b` does on interface values: two values of one uncomparable dynamic type panic.
pub data Comparison : Type 0 where
  answer : Bool → Comparison
  uncomparable : Comparison

unfoldable pub compare_values : Value → Value → Comparison
compare_values nil nil = answer true
compare_values (bool a) (bool b) = answer (bool_eq a b)
compare_values (str a) (str b) = answer (str_eq a b)
compare_values (atom t m) (atom u n) = answer (t == u && m == n)
compare_values (arr a) (arr b) = uncomparable
compare_values (obj a) (obj b) = uncomparable
compare_values _ _ = answer false

-- `slices.Contains(items, v)`: the first equal item ends the loop, before a later one can panic.
unfoldable pub contains_value : Items → Value → Comparison
unfolding compare_values
contains_value end v = answer false
contains_value (item x xs) v =
    let rest = contains_value xs v in
    elim (compare_values x v) [
      | answer b ↦ (if b then answer true else rest)
      | uncomparable ↦ uncomparable
    ]

-- `v, ok := m[k]`
unfoldable pub get_field : Fields → String → Option Value
get_field empty k = none
get_field (field j v m) k = if str_eq j k then some v else get_field m k

-- resolveDotNotation: `current[k]` at the last key, a map under every other one.
unfoldable pub resolve_keys : Fields → List String → Option Value
unfolding get_field
resolve_keys current [] = none
resolve_keys current (k ∷ []) = get_field current k
resolve_keys current (k ∷ k' ∷ ks) = elim (get_field current k) [
  | some (obj next) ↦ resolve_keys next (k' ∷ ks)
  | _ ↦ none
]
