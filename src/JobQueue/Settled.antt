-- ===== src/JobQueue/Settled.antt =====
-- internal/infra/jobqueue/redis.go: a job is settled once it has used its attempts.
use concrnt.Prelude.{
  ℕ, zero, suc, ◌+◌, ◌≡◌, sym, ◌∙◌, ap, String, Bool, true, [], ◌∷◌, ◌++◌, Option, none, some, inl,
  inr, ◌⊎◌, arith, Option-cases,
}
use Prim.Native.Nat.{◌≤◌}
use concrnt.JobQueue.{Job, Command, Queue, run_handler, failed}
use concrnt.JobQueue.Ledger.{Ledger}
use concrnt.JobQueue.Fate.{
  IsRoundTrip, with_handlers, rounds, exhausted, waiting, IsApart, round_handled, round_last,
  round_more,
}

-- the ledger with a dead letter of the job
abbrev pub buried : Ledger → String → String → Ledger
buried others id text = record others { letters = others.letters ++ ((id, text) ∷ []) }

-- the job that is left by the last round, when no attempts are left
last-exhausted :
    (q : Queue) (written : Job → String) (job : Job) (error : String) (others : Ledger)
    (id : String)
    → job.attempt + 1 ≡ q.max_attempts
    → buried others id (written (failed job error))
      ≡ buried others id (written (exhausted q job error))
last-exhausted q written job error others id budget =
    let count : suc job.attempt ≡ q.max_attempts = omega (arith) in
    ap (λ k. buried others id (written (record job { attempt = k; last_error = error }))) count

-- What the queue promises, without messages and writes: a job is run again until a run returns
-- without an error, and at most `n + 1` times; the error of the last run is what is left.
abbrev pub outcome : (ℕ → Option String) → ℕ → Option String
outcome run zero = run zero
outcome run (suc n) = elim (run (suc n)) [ none ↦ none | some error ↦ outcome run n ]

-- what that leaves in the queue: nothing of the job, or its dead letter
abbrev pub settled : Queue → (Job → String) → Job → String → Ledger → Option String → Ledger
settled q written job id others none = others
settled q written job id others (some error) = buried others id (written (exhausted q job error))

-- the runs of a job
abbrev pub run_of : Queue → (ℕ → String → Option (String → Option String)) → Job → ℕ → Option String
run_of q handlers job m = run_handler (with_handlers q (handlers m)) job

module _ (q : Queue) (law : IsRoundTrip q) (succeeds : Command → Bool)
    (works : (c : Command) → succeeds c ≡ true)
    (handlers : ℕ → String → Option (String → Option String)) (ids : ℕ → String)
    (others : Ledger) where
  -- Where encoding/json reads the jobs that it wrote, every write to Redis returns without an
  -- error, and no other message or retry in the queue is one of this job, the rounds of a job with
  -- `n + 1` attempts left do to the queue what it promises for as many runs: once the job has used
  -- its attempts, or before if a run returns without an error, nothing is left of it but, if the
  -- last run failed, one dead letter, with the last error and all attempts counted. Whatever else
  -- is in the queue is as before: no message, retry or letter is lost or added.
  pub rounds-outcome :
      (n : ℕ) (job : Job)
      → IsApart others ids law.written job
      → job.attempt + suc n ≡ q.max_attempts
      → rounds q succeeds handlers ids
          (suc n)
          (law.written job)
          (waiting others (ids (suc n)) (law.written job))
        ≡ settled q law.written job (ids 0) others (outcome (run_of q handlers job) n)
  unfolding run_handler
  rounds-outcome zero job apart budget = elim (Option-cases (run_of q handlers job 0)) [
    | inl passes ↦
        round_handled q law succeeds works handlers ids others 0 job apart passes
        ∙ ap (settled q law.written job (ids 0) others) (sym passes)
    | inr (error, fails) ↦
        round_last q law succeeds works handlers ids others 0 job error apart fails (ground arith)
        ∙ last-exhausted q law.written job error others (ids 0) budget
        ∙ ap (settled q law.written job (ids 0) others) (sym fails)
  ]
  rounds-outcome (suc n) job apart budget =
      let left : Option String → Ledger = λ o.
        settled q law.written job (ids 0) others
          (elim o [ none ↦ none | some e ↦ outcome (run_of q handlers job) n ]) in
      elim (Option-cases (run_of q handlers job (suc n))) [
        | inl passes ↦
            round_handled q law succeeds works handlers ids others (suc n) job apart passes
            ∙ ap left (sym passes)
        | inr (error, fails) ↦
            round_more q law succeeds works handlers ids others (suc n) job error apart fails
              (ground arith)
            ∙ rounds-outcome n (failed job error)
                (record { messages = apart.messages; members = apart.members }) (omega (arith))
            ∙ ap left (sym fails)
      ]

-- A job is finished, and nothing is left of it, or it is dead, and its letter is left: the job
-- unchanged but for the count of its attempts, which is the maximum, and the last error.
abbrev pub IsSettled :
    (q : Queue)
    → (Job → String)
    → (ℕ → String → Option (String → Option String))
    → (ℕ → String)
    → ℕ
    → Job
    → Ledger
    → Ledger
    → Type 0
IsSettled q written handlers ids n job others end =
    ((end ≡ others) × (m : ℕ) × (m ≤ n) × (run_of q handlers job m ≡ none))
    ⊎ ((error : String) × (end ≡ buried others (ids 0) (written (exhausted q job error)))
        × ((m : ℕ) → m ≤ n → ¬ (run_of q handlers job m ≡ none)))
