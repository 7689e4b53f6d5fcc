-- ===== src/Tests/RateLimiter.antt =====
-- The rate limiter at a small window.
use tea_tax_product.Prelude.{ℕ, ◌≤◌, ◌≡◌, refl, true, false, [], ◌∷◌, length, arith}
use tea_tax_product.Prelude.Enum.{◌===◌, string_eq, Distinct}
use tea_tax_product.RateLimiter.{RateLimiter, get_timestamps, active, check, consume, cleanup}
use tea_tax_product.RateLimiter.Window.{consume-within}
use tea_tax_product.RateLimiter.Cleanup.{cleanup-check}

abbrev limiter : RateLimiter
limiter = record {
  window_ms = 100;
  max_requests = 2;
  store = ("a", 10 ∷ 950 ∷ []) ∷ ("b", 20 ∷ []) ∷ [];
}

limiter_allows : (check false 1000 limiter "a").allowed ≡ true
unfolding check tea_tax_product.Prelude.filter
limiter_allows = refl

limiter_refuses : (check false 1010 (consume false 1000 limiter "a") "a").allowed ≡ false
unfolding check tea_tax_product.Prelude.filter consume
limiter_refuses = refl

consume-within_example :
    length (active 100 1010 (get_timestamps "a" (consume false 1000 limiter "a").store)) ≤ 2
consume-within_example = consume-within 1000 1010 limiter "a" limiter_allows

cleanup-check_example : check false 1010 (cleanup 1000 limiter) "a" ≡ check false 1010 limiter "a"
unfolding tea_tax_product.Prelude.Enum.includes
cleanup-check_example = cleanup-check false 1000 1010 limiter "a" (omega arith) (refl, (refl, tt))
