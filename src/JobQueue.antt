-- ===== src/JobQueue.antt =====
-- internal/infra/jobqueue/redis.go: the job queue. Redis and encoding/json are parameters: an
-- operation is modelled by the commands that it issues, in order, and `succeeds` says which of them
-- return without an error.
pub mod Backoff
pub mod Fate
pub mod Ledger
pub mod Moves
pub mod Settled
use concrnt.Prelude.{
  ℕ, zero, suc, ◌+◌, ◌*◌, ◌%◌, ◌^◌, String, Bool, true, false, not, ◌&&◌, List, [], ◌∷◌, ◌++◌,
  Option, none, some, ltb, leb, str_eq, if◌then◌else◌,
}
use concrnt.Prelude.Int.{ℤ}
use concrnt.Prelude.Text.{concat}

-- `Job`; `payload` is never looked into
pub record Job : Type 0 where
  pub id : String
  pub job_type : String
  pub payload : String
  pub attempt : ℕ
  pub created_at : ℤ
  pub last_error : String

-- A write to Redis, with the text that it stores or the id that it is about; a retry is stored to be
-- due after a duration, in nanoseconds.
pub data Command : Type 0 where
  add_to_stream add_to_dlq ack_and_del remove_retry remove_dead : String → Command
  add_retry : ℕ → String → Command

-- The settings, the registered handlers, whose error is a text, and encoding/json. A duration is an
-- int64 in two's complement.
pub record Queue : Type 0 where
  pub max_attempts : ℕ
  pub base_backoff : ℕ
  pub backoff_cap : ℕ
  pub handler_for : String → Option (String → Option String)
  -- `%q`
  pub quote : String → String
  pub encode : Job → Option String
  pub decode : String → Option Job

-- `a < b` on int64
abbrev pub less_int64 : ℕ → ℕ → Bool
less_int64 a b = ltb ((a + 2 ^ 63) % 2 ^ 64) ((b + 2 ^ 63) % 2 ^ 64)

-- the loop of backoffDuration, with the rounds that are left
unfoldable pub backoff_rounds : ℕ → ℕ → ℕ → ℕ
backoff_rounds zero d cap = if less_int64 cap d then cap else d
backoff_rounds (suc n) d cap =
    let rest = backoff_rounds n (d * 3 % 2 ^ 64) cap in if not (less_int64 d cap) then cap else rest

-- `attempt - 1`, where an attempt below 1 counts as 1
abbrev pub rounds_of : ℕ → ℕ
rounds_of zero = zero
rounds_of (suc n) = n

-- backoffDuration
unfoldable pub backoff_duration : ℕ → ℕ → ℕ → ℕ
unfolding backoff_rounds
backoff_duration attempt base cap = backoff_rounds (rounds_of attempt) base cap

-- what the handler of a job's type returns
unfoldable pub run_handler : Queue → Job → Option String
run_handler q job = elim (q.handler_for job.job_type) [
  | none ↦ some (concat "job queue: no handler registered for job type " (q.quote job.job_type))
  | some handler ↦ handler job.payload
]

abbrev pub failed : Job → String → Job
failed job error = record job { attempt = suc job.attempt; last_error = error }

-- scheduleRetry: a job that cannot be written is left out
unfoldable pub schedule_retry : Queue → Job → List Command
unfolding backoff_duration
schedule_retry q job = elim (q.encode job) [
  | none ↦ []
  | some text ↦ add_retry (backoff_duration job.attempt q.base_backoff q.backoff_cap) text ∷ []
]

-- deadLetterJob
unfoldable pub dead_letter_job : Queue → Job → List Command
dead_letter_job q job = elim (q.encode job) [ none ↦ [] | some text ↦ add_to_dlq text ∷ [] ]

-- what process does about an error
unfoldable pub after_error : Queue → Job → String → List Command
unfolding schedule_retry dead_letter_job
after_error q job error =
    if leb q.max_attempts (suc job.attempt)
    then dead_letter_job q (failed job error)
    else schedule_retry q (failed job error)

-- process, for a message and whether the loop is shutting down once the handler has returned
unfoldable pub process : Queue → Bool → String → String → List Command
unfolding run_handler after_error
process q shutting_down message_id raw = elim (q.decode raw) [
  | none ↦ add_to_dlq raw ∷ ack_and_del message_id ∷ []
  | some job ↦ elim (run_handler q job) [
    | none ↦ ack_and_del message_id ∷ []
    | some error ↦
        (if shutting_down then [] else after_error q job error ++ (ack_and_del message_id ∷ []))
  ]
]

-- Enqueue, for a new id and instant
unfoldable pub enqueue : Queue → String → ℤ → String → String → List Command
enqueue q id now job_type payload =
    elim (q.encode (record {
      id = id;
      job_type = job_type;
      payload = payload;
      attempt = 0;
      created_at = now;
      last_error = "";
    })) [ none ↦ [] | some text ↦ add_to_stream text ∷ [] ]

-- moveDueRetries, for the members that are due
unfoldable pub move_due_retries : (Command → Bool) → List String → List Command
move_due_retries succeeds [] = []
move_due_retries succeeds (member ∷ members) =
    let rest = move_due_retries succeeds members in
    if succeeds (add_to_stream member)
    then add_to_stream member ∷ (remove_retry member ∷ rest)
    else add_to_stream member ∷ rest

abbrev pub reset : Job → Job
reset job = record job { attempt = 0; last_error = "" }

-- what ReinjectDLQ issues and counts, and whether it ends with an error
pub record Reinjection : Type 0 where
  pub commands : List Command
  pub count : ℕ
  pub fails : Bool

abbrev pub stopped : List Command → Reinjection
stopped commands = record { commands = commands; count = 0; fails = true }

-- ReinjectDLQ, for the entries of the dead-letter stream: their ids and texts
unfoldable pub reinject_dlq : Queue → (Command → Bool) → List (String × String) → Reinjection
reinject_dlq q succeeds [] = record { commands = []; count = 0; fails = false }
reinject_dlq q succeeds ((entry, raw) ∷ entries) =
    let rest = reinject_dlq q succeeds entries in
    elim (q.decode raw) [
      | none ↦ rest
      | some job ↦ elim (q.encode (reset job)) [
        | none ↦ stopped []
        | some text ↦
            (if succeeds (add_to_stream text)
              then record {
                commands = add_to_stream text ∷ (remove_dead entry ∷ rest.commands);
                count = suc rest.count;
                fails = rest.fails;
              }
              else stopped (add_to_stream text ∷ []))
      ]
    ]
