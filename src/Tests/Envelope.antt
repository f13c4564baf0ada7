-- ===== src/Tests/Envelope.antt =====
-- A stand-in for encoding/json on the jobs of the queue: texts with a mark before every character
-- and at their end, and numbers in unary.
use concrnt.Prelude.{
  ℕ, zero, suc, ◌≡◌, refl, String, Bool, true, false, Option, none, some, ◌==◌, if◌then◌else◌,
}
use Prim.Native.Char.{Char, code}
use concrnt.Prelude.Int.{ℤ, pos, negsuc}
use concrnt.JobQueue.{Job, Queue}
use concrnt.JobQueue.Fate.{IsRoundTrip}

put_text : String → String → String
put_text String.[] rest = String.◌∷◌ "e" rest
put_text (String.◌∷◌ c s) rest = String.◌∷◌ "s" (String.◌∷◌ c (put_text s rest))

push : Char → Option (String × String) → Option (String × String)
push c none = none
push c (some (s, rest)) = some (String.◌∷◌ c s, rest)

take_text : String → Option (String × String)
unfolding push
take_text String.[] = none
take_text (String.◌∷◌ c String.[]) = if code c == b'e' then some ("", "") else none
take_text (String.◌∷◌ c (String.◌∷◌ d s)) =
    let rest = take_text s in if code c == b'e' then some ("", String.◌∷◌ d s) else push d rest

take_text-put_text : (s rest : String) → take_text (put_text s rest) ≡ some (s, rest)
unfolding take_text put_text push
take_text-put_text String.[] String.[] = refl
take_text-put_text String.[] (String.◌∷◌ d rest) = refl
take_text-put_text (String.◌∷◌ c s) rest = rw (take_text-put_text s rest) refl

put_number : ℕ → String → String
put_number zero rest = String.◌∷◌ "e" rest
put_number (suc n) rest = String.◌∷◌ "s" (put_number n rest)

bump : Option (ℕ × String) → Option (ℕ × String)
bump none = none
bump (some (n, rest)) = some (suc n, rest)

take_number : String → Option (ℕ × String)
unfolding bump
take_number String.[] = none
take_number (String.◌∷◌ c s) =
    let rest = take_number s in if code c == b'e' then some (0, s) else bump rest

take_number-put_number : (n : ℕ) (rest : String) → take_number (put_number n rest) ≡ some (n, rest)
unfolding take_number put_number bump
take_number-put_number zero rest = refl
take_number-put_number (suc n) rest = rw (take_number-put_number n rest) refl

put_instant : ℤ → String → String
unfolding put_number
put_instant (pos n) rest = String.◌∷◌ "p" (put_number n rest)
put_instant (negsuc n) rest = String.◌∷◌ "n" (put_number n rest)

signed : Bool → Option (ℕ × String) → Option (ℤ × String)
signed b none = none
signed true (some (n, rest)) = some (pos n, rest)
signed false (some (n, rest)) = some (negsuc n, rest)

take_instant : String → Option (ℤ × String)
unfolding take_number signed
take_instant String.[] = none
take_instant (String.◌∷◌ c s) = signed (code c == b'p') (take_number s)

take_instant-put_instant :
    (t : ℤ) (rest : String) → take_instant (put_instant t rest) ≡ some (t, rest)
unfolding take_instant put_instant signed
take_instant-put_instant (pos n) rest = rw (take_number-put_number n rest) refl
take_instant-put_instant (negsuc n) rest = rw (take_number-put_number n rest) refl

with_next : {A B : Type 0} → Option (A × String) → (A → String → Option B) → Option B
with_next none f = none
with_next (some (a, rest)) f = f a rest

unfoldable pub written : Job → String
unfolding put_text put_number put_instant
written job = put_text job.id (
    put_text job.job_type (
      put_text job.payload
        (put_number job.attempt (put_instant job.created_at (put_text job.last_error "")))))

unfoldable pub read : String → Option Job
unfolding take_text take_number take_instant with_next
read text = with_next (take_text text) (λ id s1. with_next (take_text s1) (λ job_type s2.
    with_next (take_text s2) (λ payload s3. with_next (take_number s3) (λ attempt s4.
      with_next (take_instant s4) (λ created_at s5. with_next (take_text s5) (λ last_error s6.
        some (record {
          id = id;
          job_type = job_type;
          payload = payload;
          attempt = attempt;
          created_at = created_at;
          last_error = last_error;
        })))))))

pub read-written : (job : Job) → read (written job) ≡ some job
unfolding read with_next written
read-written job =
    let s6 = put_text job.last_error "" in
    let s5 = put_instant job.created_at s6 in
    let s4 = put_number job.attempt s5 in
    let s3 = put_text job.payload s4 in
    let s2 = put_text job.job_type s3 in
    let e1 = take_text-put_text job.id s2 in
    let e2 = take_text-put_text job.job_type s3 in
    let e3 = take_text-put_text job.payload s4 in
    let e4 = take_number-put_number job.attempt s5 in
    let e5 = take_instant-put_instant job.created_at s6 in
    let e6 = take_text-put_text job.last_error "" in rw (e1, e2, e3, e4, e5, e6) refl

-- every handler fails
abbrev pub toy_queue : Queue
toy_queue = record {
  max_attempts = 3;
  base_backoff = 10;
  backoff_cap = 1000;
  handler_for = λ job_type. some (λ payload. some "unreachable");
  quote = λ s. s;
  encode = λ job. some (written job);
  decode = read;
}

pub toy_law : IsRoundTrip toy_queue
toy_law = record { written = written; writes = λ job. refl; reads = read-written }
