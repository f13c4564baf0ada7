-- ===== src/JobQueue/Fate.antt =====
-- internal/infra/jobqueue/redis.go: what becomes of a job, from its first message to its last.
use concrnt.Prelude.{
  ℕ, zero, suc, ◌≡◌, refl, ◌∙◌, ap, String, Bool, true, false, List, [], ◌∷◌, ◌++◌, Option, none,
  some, leb, if◌then◌else◌,
}
use concrnt.JobQueue.{
  Job, Command, add_to_stream, add_to_dlq, ack_and_del, remove_retry, add_retry, Queue, run_handler,
  failed, backoff_duration, schedule_retry, dead_letter_job, after_error, process, move_due_retries,
}
use concrnt.JobQueue.Ledger.{
  Ledger, without, without_id, effects, book, book-effects, without_id-last, without-first,
}

-- the text of the retry that is scheduled, if there is one
abbrev pub scheduled : List Command → Option String
scheduled [] = none
scheduled (add_retry delay text ∷ cs) = some text
scheduled (c ∷ cs) = scheduled cs

-- encoding/json writes every job, and reads what it wrote
pub record IsRoundTrip (q : Queue) : Type 0 where
  pub written : Job → String
  pub writes : (job : Job) → q.encode job ≡ some (written job)
  pub reads : (job : Job) → q.decode (written job) ≡ some job

-- the handlers of a round
abbrev pub with_handlers : Queue → (String → Option (String → Option String)) → Queue
with_handlers q handlers = record q { handler_for = handlers }

-- A job on its way, from the message with its text, for as many rounds as are given: every round
-- runs the handlers that are registered then, no shutdown interrupts one, and a retry that was
-- scheduled is moved back to the stream once it is due. It ends with what is left.
unfoldable pub rounds :
    Queue
    → (Command → Bool)
    → (ℕ → String → Option (String → Option String))
    → (ℕ → String)
    → ℕ
    → String
    → Ledger
    → Ledger
unfolding process book move_due_retries
rounds q succeeds handlers ids zero raw l = l
rounds q succeeds handlers ids (suc n) raw l =
    let commands = process (with_handlers q (handlers n)) false (ids (suc n)) raw in
    let after = book succeeds (ids n) commands l in
    elim (scheduled commands) [
      | none ↦ after
      | some text ↦
          rounds q succeeds handlers ids n text
            (book succeeds (ids n) (move_due_retries succeeds (text ∷ [])) after)
    ]

-- What a job is once it is dead: the same but for the count of its attempts and the last error.
abbrev pub exhausted : Queue → Job → String → Job
exhausted q job error = record job { attempt = q.max_attempts; last_error = error }

-- the ledger with a message for the job
abbrev pub waiting : Ledger → String → String → Ledger
waiting others id text = record others { stream = others.stream ++ ((id, text) ∷ []) }

-- What else is in the queue is not this job: no message has an id that it gets, and no retry the
-- text of it after some attempt.
pub record IsApart (others : Ledger) (ids : ℕ → String) (written : Job → String) (job : Job)
    : Type 0 where
  pub messages : (n : ℕ) → without_id (ids n) others.stream ≡ others.stream
  pub members :
      (attempt : ℕ) (error : String)
      → without (written (record job { attempt = attempt; last_error = error })) others.retries
        ≡ others.retries

-- What a message leads to, by what its handler returns and by the attempts that are left.
process_handled :
    (q : Queue) (law : IsRoundTrip q) (job : Job) (id : String)
    → run_handler q job ≡ none
    → process q false id (law.written job) ≡ ack_and_del id ∷ []
unfolding process
process_handled q law job id passes =
    let decoded = law.reads job in rw (process, decoded, passes) refl

process_last :
    (q : Queue) (law : IsRoundTrip q) (job : Job) (id error : String)
    → run_handler q job ≡ some error
    → leb q.max_attempts (suc job.attempt) ≡ true
    → process q false id (law.written job)
      ≡ add_to_dlq (law.written (failed job error)) ∷ (ack_and_del id ∷ [])
unfolding process after_error dead_letter_job
process_last q law job id error fails last =
    let decoded = law.reads job in
    let encoded = law.writes (failed job error) in
    rw (process, decoded, fails, after_error, last, dead_letter_job, encoded) refl

process_more :
    (q : Queue) (law : IsRoundTrip q) (job : Job) (id error : String)
    → run_handler q job ≡ some error
    → leb q.max_attempts (suc job.attempt) ≡ false
    → process q false id (law.written job)
      ≡ add_retry
          (backoff_duration (suc job.attempt) q.base_backoff q.backoff_cap)
          (law.written (failed job error))
        ∷ (ack_and_del id ∷ [])
unfolding process after_error schedule_retry
process_more q law job id error fails more =
    let decoded = law.reads job in
    let encoded = law.writes (failed job error) in
    rw (process, decoded, fails, after_error, more, schedule_retry, encoded) refl

abbrev law_with :
    (q : Queue)
    → IsRoundTrip q
    → (handlers : String → Option (String → Option String)) → IsRoundTrip (with_handlers q handlers)
law_with q law handlers = record { written = law.written; writes = law.writes; reads = law.reads }

-- What a round does with the commands of its message.
abbrev continued :
    Queue
    → (Command → Bool)
    → (ℕ → String → Option (String → Option String))
    → (ℕ → String)
    → ℕ
    → Ledger
    → List Command
    → Ledger
continued q succeeds handlers ids n l commands = elim (scheduled commands) [
  | none ↦ book succeeds (ids n) commands l
  | some text ↦ rounds q succeeds handlers ids n text (
      book succeeds (ids n) (move_due_retries succeeds (text ∷ []))
        (book succeeds (ids n) commands l))
]

round-continued :
    (q : Queue) (succeeds : Command → Bool)
    (handlers : ℕ → String → Option (String → Option String)) (ids : ℕ → String) (n : ℕ)
    (raw : String) (l : Ledger)
    → rounds q succeeds handlers ids (suc n) raw l
      ≡ continued q succeeds handlers ids n l
          (process (with_handlers q (handlers n)) false (ids (suc n)) raw)
unfolding rounds
round-continued q succeeds handlers ids n raw l = refl

move_one :
    (succeeds : Command → Bool) (text : String)
    → ((c : Command) → succeeds c ≡ true)
    → move_due_retries succeeds (text ∷ []) ≡ add_to_stream text ∷ (remove_retry text ∷ [])
unfolding move_due_retries
move_one succeeds text works =
    ap (λ b. if b then add_to_stream text ∷ (remove_retry text ∷ []) else add_to_stream text ∷ [])
      (works (add_to_stream text))

module _ (q : Queue) (law : IsRoundTrip q) (succeeds : Command → Bool)
    (works : (c : Command) → succeeds c ≡ true)
    (handlers : ℕ → String → Option (String → Option String)) (ids : ℕ → String)
    (others : Ledger) where
  pub round_handled :
      (n : ℕ) (job : Job)
      → IsApart others ids law.written job
      → run_handler (with_handlers q (handlers n)) job ≡ none
      → rounds q succeeds handlers ids
          (suc n)
          (law.written job)
          (waiting others (ids (suc n)) (law.written job))
        ≡ others
  round_handled n job apart passes =
      let l = waiting others (ids (suc n)) (law.written job) in
      round-continued q succeeds handlers ids n (law.written job) l
      ∙ ap (continued q succeeds handlers ids n l) (
          process_handled (with_handlers q (handlers n)) (law_with q law (handlers n)) job
            (ids (suc n)) passes)
      ∙ book-effects succeeds (ids n) (ack_and_del (ids (suc n)) ∷ []) l works
      ∙ ap (λ s. record others { stream = s })
          (without_id-last (ids (suc n)) (law.written job) others.stream (apart.messages (suc n)))

  -- A round after which no attempts are left.
  pub round_last :
      (n : ℕ) (job : Job) (error : String)
      → IsApart others ids law.written job
      → run_handler (with_handlers q (handlers n)) job ≡ some error
      → leb q.max_attempts (suc job.attempt) ≡ true
      → rounds q succeeds handlers ids
          (suc n)
          (law.written job)
          (waiting others (ids (suc n)) (law.written job))
        ≡ record others {
          letters = others.letters ++ ((ids n, law.written (failed job error)) ∷ []);
        }
  round_last n job error apart fails last =
      let l = waiting others (ids (suc n)) (law.written job) in
      let dead = law.written (failed job error) in
      round-continued q succeeds handlers ids n (law.written job) l
      ∙ ap (continued q succeeds handlers ids n l) (
          process_last (with_handlers q (handlers n)) (law_with q law (handlers n)) job
            (ids (suc n)) error fails last)
      ∙ book-effects succeeds (ids n) (add_to_dlq dead ∷ (ack_and_del (ids (suc n)) ∷ [])) l works
      ∙ ap (λ s. record others { stream = s; letters = others.letters ++ ((ids n, dead) ∷ []) })
          (without_id-last (ids (suc n)) (law.written job) others.stream (apart.messages (suc n)))

  -- A round after which there are: the job waits again, with one attempt more.
  pub round_more :
      (n : ℕ) (job : Job) (error : String)
      → IsApart others ids law.written job
      → run_handler (with_handlers q (handlers n)) job ≡ some error
      → leb q.max_attempts (suc job.attempt) ≡ false
      → rounds q succeeds handlers ids
          (suc n)
          (law.written job)
          (waiting others (ids (suc n)) (law.written job))
        ≡ rounds q succeeds handlers ids n
            (law.written (failed job error))
            (waiting others (ids n) (law.written (failed job error)))
  round_more n job error apart fails more =
      let l = waiting others (ids (suc n)) (law.written job) in
      let text = law.written (failed job error) in
      let delay = backoff_duration (suc job.attempt) q.base_backoff q.backoff_cap in
      let commands = add_retry delay text ∷ (ack_and_del (ids (suc n)) ∷ []) in
      let moves = add_to_stream text ∷ (remove_retry text ∷ []) in
      let same = apart.members (suc job.attempt) error in
      round-continued q succeeds handlers ids n (law.written job) l
      ∙ ap (continued q succeeds handlers ids n l) (
          process_more (with_handlers q (handlers n)) (law_with q law (handlers n)) job
            (ids (suc n)) error fails more)
      ∙ ap (rounds q succeeds handlers ids n text) (
          ap (λ cs. book succeeds (ids n) cs (book succeeds (ids n) commands l))
            (move_one succeeds text works)
          ∙ ap (book succeeds (ids n) moves) (book-effects succeeds (ids n) commands l works)
          ∙ book-effects succeeds (ids n) moves (effects (ids n) commands l) works
          ∙ ap
              (λ s. record others {
                stream = s ++ ((ids n, text) ∷ []);
                retries = without text (text ∷ without text others.retries);
              })
              (without_id-last (ids (suc n)) (law.written job) others.stream
                (apart.messages (suc n)))
          ∙ ap (λ r. record others { stream = others.stream ++ ((ids n, text) ∷ []); retries = r })
              (ap (λ r. without text (text ∷ r)) same ∙ without-first text others.retries same))
