-- ===== src/RetryPolicy.antt =====
-- Retry policy and retry storms (src/retry-policy.ts). Numbers are natural: delays in whole
-- milliseconds, and a whole backoff multiplier.
pub mod Laws
pub mod Storm
use the_bureau.Prelude.{
  ◌*◌, ◌==◌, Bool, List, Option, String, [], ◌^◌, if◌then◌else◌, false, get_or, is_some, leb, min,
  none, not, true, ◌||◌, ℕ, ◌∷◌,
}
use text.Mathlib.Text.{find?}

pub record RetryPolicyConfig : Type 0 where
  pub max_retries : Option ℕ
  pub backoff_ms : Option ℕ
  pub backoff_multiplier : Option ℕ
  pub max_backoff_ms : Option ℕ
  pub retryable_exit_codes : Option (List ℕ)
  pub non_retryable : Option (List String)

abbrev default_non_retryable : List String
default_non_retryable =
    "API key invalid" ∷ "Invalid API key" ∷ "authentication failed" ∷ "Permission denied" ∷ "EACCES"
    ∷ "EPERM" ∷ "--strict-mcp-config" ∷ []

pub record RetryPolicy : Type 0 where
  pub max_retries : ℕ
  pub backoff_ms : ℕ
  pub backoff_multiplier : ℕ
  pub max_backoff_ms : ℕ
  pub retryable_exit_codes : List ℕ
  pub non_retryable : List String

-- The constructor.
unfoldable pub new_policy : RetryPolicyConfig → RetryPolicy
new_policy config = record {
  max_retries = get_or config.max_retries 3;
  backoff_ms = get_or config.backoff_ms 5000;
  backoff_multiplier = get_or config.backoff_multiplier 2;
  max_backoff_ms = get_or config.max_backoff_ms 60_000;
  retryable_exit_codes = get_or config.retryable_exit_codes (1 ∷ []);
  non_retryable = get_or config.non_retryable default_non_retryable;
}

-- `new RetryPolicy()`
abbrev pub default_retry_policy : RetryPolicy
unfolding new_policy
default_retry_policy = new_policy (record {
  max_retries = none;
  backoff_ms = none;
  backoff_multiplier = none;
  max_backoff_ms = none;
  retryable_exit_codes = none;
  non_retryable = none;
})

-- `s.includes(pattern)`
abbrev pub includes : String → String → Bool
includes s pattern = is_some (find? s pattern)

-- `set.has(code)` on numbers
pub has_code : ℕ → List ℕ → Bool
has_code code [] = false
has_code code (c ∷ cs) = c == code || has_code code cs

-- The loop over the patterns of failures that are not retried.
pub mentions : String → List String → Bool
mentions log [] = false
mentions log (p ∷ ps) = includes log p || mentions log ps

-- An exit code of null counts as 1.
pub should_retry : RetryPolicy → Option ℕ → ℕ → String → Bool
unfolding has_code mentions
should_retry p exit_code retry_count log_tail =
    if leb p.max_retries retry_count
    then false
    else if not (has_code (get_or exit_code 1) p.retryable_exit_codes)
    then false
    else if mentions log_tail p.non_retryable
    then false
    else true

unfoldable pub next_backoff_ms : RetryPolicy → ℕ → ℕ
next_backoff_ms p retry_count =
    min (p.backoff_ms * p.backoff_multiplier ^ retry_count) p.max_backoff_ms
