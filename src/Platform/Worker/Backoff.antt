-- ===== src/Platform/Worker/Backoff.antt =====
-- The pause before a job is tried again: `retryBackoff` of internal/platform/service/outbox.go.
use avito_kitchen.Base.{ℕ, ◌*◌, ◌≤◌, arith, zero, suc}
use avito_kitchen.Platform.Worker.{second, retry_backoff}

-- With a jitter of at most a quarter, the pause before a new attempt lies between one and forty
-- seconds.
pub retry_backoff_bounds :
    (attempt : ℕ) (jitter : ℕ → ℕ)
    → ((base : ℕ) → 4 * jitter base ≤ base)
    → (second ≤ retry_backoff attempt jitter) × (retry_backoff attempt jitter ≤ 40 * second)
unfolding retry_backoff
retry_backoff_bounds zero jitter quarter = ground (arith, quarter second)
retry_backoff_bounds (suc zero) jitter quarter = ground (arith, quarter second)
retry_backoff_bounds (suc (suc zero)) jitter quarter = ground (arith, quarter (2 * second))
retry_backoff_bounds (suc (suc (suc zero))) jitter quarter = ground (arith, quarter (4 * second))
retry_backoff_bounds (suc (suc (suc (suc zero)))) jitter quarter =
    ground (arith, quarter (8 * second))
retry_backoff_bounds (suc (suc (suc (suc (suc zero))))) jitter quarter =
    ground (arith, quarter (16 * second))
retry_backoff_bounds (suc (suc (suc (suc (suc (suc n)))))) jitter quarter =
    ground (arith, quarter (32 * second))
