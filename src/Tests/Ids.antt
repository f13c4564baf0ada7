-- ===== src/Tests/Ids.antt =====
-- cdid/: the theorems on concrete ids.
use concrnt.Prelude.{ℕ, ◌*◌, ◌≡◌, refl, List, [], ◌∷◌, All, arith}
use concrnt.Prelude.Int.{ℤ, pos}
use concrnt.Prelude.Outcome.{ok}
use concrnt.Cdid.{new, clamp, unix_milli, time_bytes, from_time_bytes, get_time, to_string, parse}
use concrnt.Cdid.Base32.RoundTrip.{IsByte}
use concrnt.Cdid.Ids.{parse-to_string, get_time-new, new-IsValid, from_time_bytes-time_bytes}
use concrnt.Cdid.Order.{Precedes, to_string-Precedes}

abbrev random : List ℕ
random = 1 ∷ 2 ∷ 3 ∷ 4 ∷ 5 ∷ 6 ∷ 7 ∷ 8 ∷ 9 ∷ 255 ∷ []

random-IsByte : All IsByte random
random-IsByte = (
  omega arith,
  (
    omega arith,
    (
      omega arith,
      (
        omega arith,
        (
          omega arith,
          (omega arith, (omega arith, (omega arith, (omega arith, (omega arith, tt))))),
        ),
      ),
    ),
  ),
)

abbrev morning : ℤ
morning = pos 1700000000000000000

abbrev noon : ℤ
noon = pos 1700000400000000000

get_time-new_example : get_time (new random morning) ≡ pos (clamp (unix_milli morning) * 1000000)
get_time-new_example = get_time-new random morning

parse-to_string_example : parse (to_string (new random morning)) ≡ ok (new random morning)
parse-to_string_example =
    parse-to_string (new random morning) (new-IsValid random morning refl random-IsByte)

from_time_bytes-time_bytes_example : from_time_bytes (time_bytes 1700000000000) ≡ 1700000000000
from_time_bytes-time_bytes_example = from_time_bytes-time_bytes 1700000000000 (omega arith)

to_string-Precedes_example : Precedes (to_string (new random morning)) (to_string (new random noon))
unfolding clamp
to_string-Precedes_example =
    to_string-Precedes random random morning noon refl refl random-IsByte random-IsByte
      (omega arith)
