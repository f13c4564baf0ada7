-- ===== src/JobQueue/Moves.antt =====
-- internal/infra/jobqueue/redis.go: jobs that move back to the stream, from the retries and from the
-- dead-letter stream.
use concrnt.Prelude.{
  ℕ, suc, ◌≡◌, refl, String, Bool, true, List, [], ◌∷◌, some, inl, inr, ◌⊎◌, Bool-cases, false,
  if◌then◌else◌,
}
use concrnt.JobQueue.{
  Job, Command, add_to_stream, remove_retry, remove_dead, Queue, move_due_retries, Reinjection,
}

-- a command is one of a list
abbrev pub Issued : Command → List Command → Type 0
Issued c [] = ⊥
Issued c (d ∷ ds) = (c ≡ d) ⊎ Issued c ds

-- Every retry that is removed was added to the stream before, and that write returned without an
-- error; `before` is what was issued so far.
abbrev pub Backed : (Command → Bool) → List Command → List Command → Type 0
Backed succeeds before [] = Unit
Backed succeeds before (remove_retry member ∷ cs) =
    ((succeeds (add_to_stream member) ≡ true) × Issued (add_to_stream member) before)
    × Backed succeeds (remove_retry member ∷ before) cs
Backed succeeds before (c ∷ cs) = Backed succeeds (c ∷ before) cs

-- moveDueRetries removes a retry only after it was added to the stream without an error, so no
-- failure between its writes loses a job.
pub move_due_retries-Backed :
    (succeeds : Command → Bool) (before : List Command) (members : List String)
    → Backed succeeds before (move_due_retries succeeds members)
unfolding move_due_retries
move_due_retries-Backed succeeds before [] = tt
move_due_retries-Backed succeeds before (member ∷ members) =
    elim (Bool-cases (succeeds (add_to_stream member))) [
      | inl added ↦ rw (added) (
        (added, inl refl),
        move_due_retries-Backed succeeds (remove_retry member ∷ (add_to_stream member ∷ before))
            members,
      )
      | inr failed ↦
          rw (failed) (move_due_retries-Backed succeeds (add_to_stream member ∷ before) members)
    ]

-- an entry is one of a list
abbrev pub Listed : String × String → List (String × String) → Type 0
Listed x [] = ⊥
Listed x (y ∷ ys) = (x ≡ y) ⊎ Listed x ys

-- The text is that of the job of a dead letter, with no attempts and no error.
abbrev pub IsAnew : Queue → List (String × String) → String → String → Type 0
IsAnew q letters letter text =
    (raw : String) × (job : Job) × Listed (letter, raw) letters
    × (q.decode raw ≡ some job)
    × (q.encode (record job { attempt = 0; last_error = "" }) ≡ some text)

-- What is issued for dead letters: each job is put back anew and, if that returns without an error,
-- the removal of its letter comes next; a failure to put one back is the last command.
abbrev pub Moved : Queue → (Command → Bool) → List (String × String) → List Command → Type 0
Moved q succeeds letters [] = Unit
Moved q succeeds letters (add_to_stream text ∷ []) = succeeds (add_to_stream text) ≡ false
Moved q succeeds letters (add_to_stream text ∷ (remove_dead letter ∷ cs)) =
    ((succeeds (add_to_stream text) ≡ true) × IsAnew q letters letter text)
    × Moved q succeeds letters cs
Moved q succeeds letters _ = ⊥

-- how many jobs are put back without an error
abbrev pub added : (Command → Bool) → List Command → ℕ
added succeeds [] = 0
added succeeds (add_to_stream text ∷ cs) =
    if succeeds (add_to_stream text) then suc (added succeeds cs) else added succeeds cs
added succeeds (c ∷ cs) = added succeeds cs

-- What ReinjectDLQ answers for.
abbrev pub IsReinjection : Queue → (Command → Bool) → List (String × String) → Reinjection → Type 0
IsReinjection q succeeds letters r =
    Moved q succeeds letters r.commands × (r.count ≡ added succeeds r.commands)
