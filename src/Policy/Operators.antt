-- ===== src/Policy/Operators.antt =====
-- policy/operators.go, and the data of policy/types.go that an operator sees. Of an error only the
-- case is kept, not its text.
pub mod Laws
use concrnt.Prelude.{
  String, Bool, true, false, not, List, [], ◌∷◌, Option, none, some, str_eq, if◌then◌else◌,
}
use concrnt.Prelude.Dict.{Dict, put}
use concrnt.Prelude.Outcome.{Outcome, ok, err, panic, ◌>>=◌}
use concrnt.Prelude.Text.{split}
use concrnt.Uri.{UrlPackage, CcUri, UriError, parse_cc_uri}
use concrnt.Policy.Value.{
  Value, nil, bool, str, arr, obj, end, item, Fields, empty, field, Comparison, answer,
  uncomparable, compare_values, contains_value, resolve_keys,
}
use concrnt.Policy.Reflect.{
  GoValue, struct, string_map, null, Entries, StructFields, no_field, struct_field, to_any,
}

pub data EvalError : Type 0 where
  bad_length bad_type bad_uri key_not_found no_caller unknown_operator : EvalError
  call_failed : String → EvalError

abbrev pub Eval : Type 0 → Type 0
Eval A = Outcome EvalError A

-- `ConcrntCaller`: resolver, api, params.
abbrev pub Caller : Type 0
Caller = String → String → Dict String → Eval Value

-- `RequestContext`
pub record RequestContext : Type 0 where
  pub requester : GoValue
  pub self : GoValue
  pub params : Entries
  pub globals : GoValue
  pub caller : Option Caller

-- the fields of `RequestContext` with their json tags, as `reflect` lists them
abbrev pub context_fields : RequestContext → StructFields
context_fields c = struct_field "Requester" "requester" true false c.requester (
    struct_field "Self" "self" true false c.self (
      struct_field "Params" "params" true false (string_map c.params) (
        struct_field "Globals" "globals" true false c.globals
          (struct_field "Caller" "-" true false null no_field))))

-- structToMap
unfoldable pub struct_to_map : GoValue → Fields
unfolding to_any
struct_to_map v = elim (to_any v) [ obj m ↦ m | _ ↦ empty ]

unfoldable pub op_and : List Value → Eval Value
op_and [] = ok (bool true)
op_and (bool true ∷ args) = op_and args
op_and (bool false ∷ args) = ok (bool false)
op_and (_ ∷ args) = err bad_type

unfoldable pub op_or : List Value → Eval Value
op_or [] = ok (bool false)
op_or (bool true ∷ args) = ok (bool true)
op_or (bool false ∷ args) = op_or args
op_or (_ ∷ args) = err bad_type

unfoldable pub op_not : List Value → Eval Value
op_not (bool b ∷ []) = ok (bool (not b))
op_not (_ ∷ []) = err bad_type
op_not _ = err bad_length

abbrev pub from_comparison : Comparison → Eval Value
from_comparison (answer b) = ok (bool b)
from_comparison uncomparable = panic

unfoldable pub op_eq : List Value → Eval Value
unfolding compare_values
op_eq (a ∷ b ∷ []) = from_comparison (compare_values a b)
op_eq _ = err bad_length

unfoldable pub op_contains : List Value → Eval Value
unfolding contains_value
op_contains (arr xs ∷ v ∷ []) = from_comparison (contains_value xs v)
op_contains (_ ∷ v ∷ []) = err bad_type
op_contains _ = err bad_length

abbrev owner_of : Outcome UriError CcUri → Eval Value
owner_of (ok uri) = ok (str uri.owner)
owner_of (err e) = err bad_uri
owner_of panic = panic

unfoldable pub op_cc_uri_owner : UrlPackage → List Value → Eval Value
unfolding parse_cc_uri
op_cc_uri_owner url (str s ∷ []) = owner_of (parse_cc_uri url s)
op_cc_uri_owner url (_ ∷ []) = err bad_type
op_cc_uri_owner url _ = err bad_length

found : Option Value → Eval Value
found none = err key_not_found
found (some v) = ok v

unfoldable pub op_load : RequestContext → List Value → Eval Value
unfolding struct_to_map resolve_keys split found
op_load rctx (str key ∷ []) =
    found (resolve_keys (struct_to_map (struct (context_fields rctx))) (split b'.' key))
op_load rctx (_ ∷ []) = err bad_type
op_load rctx _ = err bad_length

-- the loop over `args[2:]`: `params[key] = value`
unfoldable pub read_params : Dict String → List Value → Eval (Dict String)
unfolding put
read_params params [] = ok params
read_params params (str key ∷ str value ∷ args) = read_params (put params key value) args
read_params params (str key ∷ _ ∷ args) = err bad_type
read_params params (_ ∷ args) = err bad_type

-- `len(args) < 2 || (len(args)-2)%2 != 0`
abbrev pub is_odd_length : List Value → Bool
is_odd_length [] = false
is_odd_length (x ∷ []) = true
is_odd_length (x ∷ y ∷ xs) = is_odd_length xs

call_with : Caller → Value → Value → List Value → Eval Value
call_with call (str resolver) (str api) args = do
  params ← read_params [] args
  call resolver api params
call_with call _ _ args = err bad_type

check_length : Caller → List Value → Eval Value
unfolding call_with
check_length call (resolver ∷ api ∷ args) =
    if is_odd_length args then err bad_length else call_with call resolver api args
check_length call _ = err bad_length

unfoldable pub op_concrnt_call : RequestContext → List Value → Eval Value
unfolding read_params check_length
op_concrnt_call rctx args = elim rctx.caller [
  | none ↦ err no_caller
  | some call ↦ check_length call args
]

unfoldable pub op_is_not_empty : List Value → Eval Value
op_is_not_empty (nil ∷ []) = ok (bool false)
op_is_not_empty (arr end ∷ []) = ok (bool false)
op_is_not_empty (arr (item x xs) ∷ []) = ok (bool true)
op_is_not_empty (str s ∷ []) = ok (bool (not (str_eq s "")))
op_is_not_empty (obj empty ∷ []) = ok (bool false)
op_is_not_empty (obj (field k v m) ∷ []) = ok (bool true)
op_is_not_empty (_ ∷ []) = err bad_type
op_is_not_empty _ = err bad_length

-- the map `operators`
unfoldable pub operators : String → Option (UrlPackage → RequestContext → List Value → Eval Value)
unfolding op_and op_or op_not op_eq op_contains op_cc_uri_owner op_load op_concrnt_call
    op_is_not_empty
operators name =
    if str_eq name "And"
    then some (λ url rctx. op_and)
    else if str_eq name "Or"
    then some (λ url rctx. op_or)
    else if str_eq name "Not"
    then some (λ url rctx. op_not)
    else if str_eq name "Eq"
    then some (λ url rctx. op_eq)
    else if str_eq name "Contains"
    then some (λ url rctx. op_contains)
    else if str_eq name "CCUriOwner"
    then some (λ url rctx. op_cc_uri_owner url)
    else if str_eq name "Load"
    then some (λ url. op_load)
    else if str_eq name "ConcrntCall"
    then some (λ url. op_concrnt_call)
    else if str_eq name "IsNotEmpty"
    then some (λ url rctx. op_is_not_empty)
    else none
