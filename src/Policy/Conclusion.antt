-- ===== src/Policy/Conclusion.antt =====
-- policy/types.go: conclusions and how two of them combine.
pub mod Merge
use concrnt.Prelude.{
  String, ◌≡◌, refl, Bool, true, false, ◌&&◌, ◌||◌, arith, eq_iff, str_eq, if◌then◌else◌,
}

-- `type Conclusion string`: a policy document may hold any string, so the constants have a
-- constructor each and every other string is `other`.
pub data Conclusion : Type 0 where
  unset ok ng allow deny : Conclusion
  other : String → Conclusion

unfoldable pub parse_conclusion : String → Conclusion
parse_conclusion s =
    if str_eq s "allow"
    then allow
    else if str_eq s "deny"
    then deny
    else if str_eq s "ok"
    then ok
    else if str_eq s "ng"
    then ng
    else unset

unfoldable pub to_string : Conclusion → String
to_string unset = "unset"
to_string ok = "ok"
to_string ng = "ng"
to_string allow = "allow"
to_string deny = "deny"
to_string (other s) = s

abbrev pub is_unset : Conclusion → Bool
is_unset unset = true
is_unset _ = false

abbrev pub is_ok : Conclusion → Bool
is_ok ok = true
is_ok _ = false

abbrev pub is_ng : Conclusion → Bool
is_ng ng = true
is_ng _ = false

abbrev pub is_allow : Conclusion → Bool
is_allow allow = true
is_allow _ = false

abbrev pub is_deny : Conclusion → Bool
is_deny deny = true
is_deny _ = false

-- `Conclusion.Or`, test by test.
unfoldable pub or : Conclusion → Conclusion → Conclusion
or c d =
    if is_unset c
    then d
    else if is_unset d
    then c
    else if (is_deny c && is_allow d) || (is_allow c && is_deny d)
    then unset
    else if is_deny c || is_deny d
    then deny
    else if is_allow c || is_allow d
    then allow
    else if (is_ok c && is_ng d) || (is_ng c && is_ok d)
    then unset
    else if is_ok c || is_ok d
    then ok
    else if is_ng c || is_ng d
    then ng
    else unset
