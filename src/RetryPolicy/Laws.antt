-- ===== src/RetryPolicy/Laws.antt =====
-- When the policy of src/retry-policy.ts retries, and how its delays grow.
use native.Mathlib.Nat.{mul-le-mul_left, mul_assoc, pow-suc}
use the_bureau.Prelude.{
  ◌*◌, ◌<◌, Option, String, ◌^◌, arith, false, get_or, suc, true, ℕ, ◌↔◌, ◌≡◌, ◌≤◌, Bool-cases, inl,
  inr, leb, leb→le, min, ◌⊎◌,
}
use the_bureau.RetryPolicy.{RetryPolicy, has_code, mentions, should_retry, next_backoff_ms}

-- A failure is retried exactly while retries are left, for an exit code of the policy, and if the
-- log shows none of its patterns; a null exit code is 1.
should_retry_iff :
    (p : RetryPolicy) (exit_code : Option ℕ) (retry_count : ℕ) (log : String)
    → (should_retry p exit_code retry_count log ≡ true) ↔ (
        (retry_count < p.max_retries)
        × (has_code (get_or exit_code 1) p.retryable_exit_codes ≡ true)
        × (mentions log p.non_retryable ≡ false))
unfolding should_retry
should_retry_iff p exit_code retry_count log =
    (λ h. (ground arith, ground arith, ground arith), λ h. ground arith)

le-mul_self : (x m : ℕ) → 1 ≤ m → x ≤ x * m
le-mul_self x m h = omega (arith, mul-le-mul_left x h)

min_of_le : (x m : ℕ) → x ≤ m → min x m ≡ x
min_of_le x m h = omega arith

-- One step of the growth, for a delay `x` before the cap `most` is applied.
capped_step :
    (x m most : ℕ)
    → x ≤ x * m
    → (min x most ≤ min (x * m) most)
      × (min (x * m) most ≤ most)
      × ((min (x * m) most ≡ most) ⊎ (min (x * m) most ≡ min x most * m))
capped_step x m most h = (
  omega arith,
  omega arith,
  elim (Bool-cases (leb most (x * m))) [
    | inl cap ↦ inl (omega (arith, leb→le most (x * m) cap))
    | inr below ↦ inr (rw (min_of_le x most (ground arith)) (ground arith))
  ],
)

-- For a multiplier of at least 1 successive delays never shrink and never pass the cap, and each
-- is the one before it times the multiplier unless it is the cap itself.
next_backoff_ms_grows :
    (p : RetryPolicy) (n : ℕ)
    → 1 ≤ p.backoff_multiplier
    → (next_backoff_ms p n ≤ next_backoff_ms p (suc n))
      × (next_backoff_ms p (suc n) ≤ p.max_backoff_ms)
      × ((next_backoff_ms p (suc n) ≡ p.max_backoff_ms)
          ⊎ (next_backoff_ms p (suc n) ≡ next_backoff_ms p n * p.backoff_multiplier))
unfolding next_backoff_ms
next_backoff_ms_grows p n h = rw (pow-suc p.backoff_multiplier n) (
    rw (← mul_assoc p.backoff_ms (p.backoff_multiplier ^ n) p.backoff_multiplier) (
      capped_step (p.backoff_ms * p.backoff_multiplier ^ n) p.backoff_multiplier p.max_backoff_ms
        (le-mul_self (p.backoff_ms * p.backoff_multiplier ^ n) p.backoff_multiplier h)))
