-- ===== src/Policy/Operators/Laws.antt =====
-- policy/operators.go: what the operators return, errors and panics included.
use concrnt.Prelude.{
  String, ◌≡◌, refl, true, false, not, List, [], ◌∷◌, Option, none, some, map, ◌↔◌, str_eq, All,
  if◌then◌else◌,
}
use concrnt.Prelude.Outcome.{ok, err, ◌>>=◌}
use concrnt.Policy.Value.{Value, bool, obj, get_field}
use concrnt.Policy.Reflect.{to_any, map_to_fields}
use concrnt.Policy.Operators.{RequestContext, Eval, op_and, op_or, op_not, key_not_found}

abbrev pub negate : Value → Value
negate (bool b) = bool (not b)
negate v = v

-- De Morgan on every input: negating the arguments of `Or` gives the negated result of `And`, with
-- the same errors for arguments that are no booleans.
pub op_or-negate :
    (args : List Value) → op_or (map negate args) ≡ (op_and args >>= λ v. op_not (v ∷ []))
unfolding op_or op_and op_not
op_or-negate [] = refl
op_or-negate (bool true ∷ args) = op_or-negate args
op_or-negate (bool false ∷ args) = refl
op_or-negate (v ∷ args) = refl

abbrev pub IsTrue : Value → Type 0
IsTrue v = v ≡ bool true

-- `And` answers true exactly if every argument is true.
pub op_and_iff : (args : List Value) → (op_and args ≡ ok (bool true)) ↔ All IsTrue args
unfolding op_and
op_and_iff args = (sound args, complete args)
  where
    sound : (args : List Value) → op_and args ≡ ok (bool true) → All IsTrue args
    sound [] h = tt
    sound (bool true ∷ args) h = (refl, sound args h)
    sound (bool false ∷ args) h = cc
    sound (v ∷ args) h = cc

    complete : (args : List Value) → All IsTrue args → op_and args ≡ ok (bool true)
    complete [] h = refl
    complete (bool true ∷ args) h = complete args h.1
    complete (bool false ∷ args) h = let e = h.0 in cc
    complete (v ∷ args) h = let e = h.0 in cc

-- follows keys through objects that hold one another
abbrev pub walk : Option Value → List String → Option Value
walk v [] = v
walk (some (obj m)) (k ∷ ks) = walk (get_field m k) ks
walk _ (k ∷ ks) = none

-- What the first key of `Load` names: the requester, the document itself, the parameters and the
-- globals, as json, and nothing else.
abbrev pub context_value : RequestContext → String → Option Value
context_value rctx name =
    if str_eq "requester" name
    then some (to_any rctx.requester)
    else if str_eq "self" name
    then some (to_any rctx.self)
    else if str_eq "params" name
    then some (obj (map_to_fields rctx.params))
    else if str_eq "globals" name
    then some (to_any rctx.globals)
    else none

abbrev pub walk_context : RequestContext → List String → Option Value
walk_context rctx [] = none
walk_context rctx (name ∷ keys) = walk (context_value rctx name) keys

abbrev pub or_missing : Option Value → Eval Value
or_missing none = err key_not_found
or_missing (some v) = ok v
