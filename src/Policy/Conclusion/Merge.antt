-- ===== src/Policy/Conclusion/Merge.antt =====
-- policy/types.go: how a run of conclusions combines by `Conclusion.Or`, as the loops of
-- policy/functions.go combine the statements of a policy and the policies of a layer.
use concrnt.Prelude.{
  ◌≡◌, ◌∙◌, refl, Bool, true, false, ◌||◌, List, [], ◌∷◌, arith, if◌then◌else◌, All,
}
use concrnt.Policy.Conclusion.{
  Conclusion, unset, ok, ng, allow, deny, is_ok, is_ng, is_allow, is_deny, or,
}

-- The accumulator loop `c = c.Or(x)`.
unfoldable pub merge : Conclusion → List Conclusion → Conclusion
merge c [] = c
merge c (d ∷ ds) = merge (or c d) ds

abbrev pub any : (Conclusion → Bool) → List Conclusion → Bool
any p [] = false
any p (c ∷ cs) = p c || any p cs

-- One of the five constants.
abbrev pub is_known : Conclusion → Bool
is_known (Conclusion.other s) = false
is_known _ = true

abbrev pub IsKnown : Conclusion → Type 0
IsKnown c = is_known c ≡ true

-- What the conclusions say together, whatever their order: a denial or an allowance over the rest.
unfoldable pub strongest : List Conclusion → Conclusion
strongest cs =
    if any is_deny cs
    then deny
    else if any is_allow cs
    then allow
    else if any is_ok cs
    then ok
    else if any is_ng cs
    then ng
    else unset

abbrev pub not_both : Bool → Bool → Bool
not_both true true = false
not_both _ _ = true

-- No denial meets an allowance; and where neither decides, no `ok` meets an `ng`.
pub record IsConsistent (cs : List Conclusion) : Type 0 where
  pub deciding : not_both (any is_deny cs) (any is_allow cs) ≡ true
  pub leaning : (any is_deny cs || any is_allow cs || not_both (any is_ok cs) (any is_ng cs)) ≡ true

pub or_comm : (c d : Conclusion) → or c d ≡ or d c
unfolding or
or_comm c d = ground arith

pub or-unset : (c : Conclusion) → or c unset ≡ c
unfolding or
or-unset c = ground arith

module _ (c d : Conclusion) (ds : List Conclusion) where
  strongest-or :
      IsKnown c
      → IsKnown d
      → IsConsistent (c ∷ d ∷ ds)
      → strongest (or c d ∷ ds) ≡ strongest (c ∷ d ∷ ds)
  unfolding strongest or
  strongest-or kc kd h = ground (arith, h.deciding, h.leaning)

  or-IsConsistent : IsKnown c → IsKnown d → IsConsistent (c ∷ d ∷ ds) → IsConsistent (or c d ∷ ds)
  unfolding or
  or-IsConsistent kc kd h = ground (arith, h.deciding, h.leaning)

  or-IsKnown : IsKnown c → IsKnown d → IsKnown (or c d)
  unfolding or
  or-IsKnown kc kd = ground arith

strongest-singleton : (c : Conclusion) → IsKnown c → c ≡ strongest (c ∷ [])
unfolding strongest
strongest-singleton c k = ground arith

merge-strongest :
    (c : Conclusion) (ds : List Conclusion)
    → IsKnown c
    → All IsKnown ds
    → IsConsistent (c ∷ ds)
    → merge c ds ≡ strongest (c ∷ ds)
unfolding merge
merge-strongest c [] kc k h = strongest-singleton c kc
merge-strongest c (d ∷ ds) kc k h =
    merge-strongest (or c d) ds (or-IsKnown c d ds kc k.0) k.1 (or-IsConsistent c d ds kc k.0 h)
    ∙ strongest-or c d ds kc k.0 h

-- From UNSET, known conclusions that do not contradict one another merge into the strongest of
-- them, in whatever order they come.
pub merge_unset-strongest :
    (ds : List Conclusion) → All IsKnown ds → IsConsistent ds → merge unset ds ≡ strongest ds
unfolding strongest
merge_unset-strongest ds k h =
    merge-strongest unset ds refl k (record { deciding = h.deciding; leaning = h.leaning })
