-- ===== src/JobQueue/Backoff.antt =====
-- internal/infra/jobqueue/redis.go: backoffDuration.
use native.Mathlib.Nat.{mod-eq_of_lt, mul_assoc, pow-succ'}
use concrnt.Prelude.{
  ℕ, zero, suc, ◌+◌, ◌-◌, ◌*◌, ◌%◌, ◌^◌, ◌≤◌, ◌<◌, ◌≡◌, sym, ◌∙◌, ap, ltb, arith, if◌then◌else◌,
  inl, inr, Bool-cases, ltb→lt,
}
use concrnt.JobQueue.{less_int64, backoff_rounds, backoff_duration}

-- the smaller of two numbers
abbrev pub min : ℕ → ℕ → ℕ
min a b = if ltb a b then a else b

-- Below 2 ^ 63, an int64 is compared as the number that it stands for.
less_int64-small : (a b : ℕ) → a < 2 ^ 63 → b < 2 ^ 63 → less_int64 a b ≡ ltb a b
less_int64-small a b ha hb =
    let ea : (a + 2 ^ 63) % 2 ^ 64 ≡ a + 2 ^ 63 = mod-eq_of_lt (omega (arith)) in
    let eb : (b + 2 ^ 63) % 2 ^ 64 ≡ b + 2 ^ 63 = mod-eq_of_lt (omega (arith)) in
    rw (ea, eb) (ground arith)

pow_pos : (n : ℕ) → 1 ≤ 3 ^ n
pow_pos zero = omega (arith)
pow_pos (suc n) = omega (arith, pow_pos n)

le_mul_pow : (d n : ℕ) → d ≤ d * 3 ^ n
le_mul_pow zero n = omega (arith)
le_mul_pow (suc d) n = omega (arith, le_mul_pow d n, pow_pos n)

backoff_rounds-min :
    (n d limit : ℕ)
    → 3 * limit < 2 ^ 63
    → d < 2 ^ 63
    → backoff_rounds n d limit ≡ min (d * 3 ^ n) limit
unfolding backoff_rounds
backoff_rounds-min zero d limit small bound =
    let e = less_int64-small limit d (omega (arith)) bound in rw (e) (ground arith)
backoff_rounds-min (suc n) d limit small bound =
    let e = less_int64-small d limit bound (omega (arith)) in
    elim (Bool-cases (ltb d limit)) [
      | inl small_d ↦
          let wraps : d * 3 % 2 ^ 64 ≡ d * 3 =
            mod-eq_of_lt (omega (arith, ltb→lt d limit small_d)) in
          let rest =
            backoff_rounds-min n (d * 3) limit small (omega (arith, ltb→lt d limit small_d)) in
          rw (e, small_d, wraps)
            (rest
              ∙ ap (λ m. min m limit)
                  (mul_assoc d 3 (3 ^ n) ∙ ap (λ m. d * m) (sym (pow-succ' 3 n))))
      | inr large ↦ rw (e, large) (ground (arith, le_mul_pow d (suc n)))
    ]

-- Where three times the cap fits in an int64, backoffDuration is base * 3 ^ (attempt - 1), or the
-- cap if that is less, for every attempt: no product of the loop overflows.
pub backoff_duration-min :
    (attempt base limit : ℕ)
    → 3 * limit < 2 ^ 63
    → base < 2 ^ 63
    → backoff_duration attempt base limit ≡ min (base * 3 ^ (attempt - 1)) limit
unfolding backoff_duration
backoff_duration-min zero base limit small bound = backoff_rounds-min 0 base limit small bound
backoff_duration-min (suc n) base limit small bound =
    let same : n ≡ suc n - 1 = omega (arith) in
    backoff_rounds-min n base limit small bound ∙ ap (λ k. min (base * 3 ^ k) limit) same
