-- ===== src/RateLimiter.antt =====
-- apps/server/src/security/rate-limiter.ts: the sliding window of one limiter. Times are milliseconds;
-- `ts > now - windowMs` is written `now < ts + windowMs`. `disabled` is RATE_LIMIT_DISABLED === 'true'.
pub mod Window
pub mod Cleanup
pub mod Keys
use tea_tax_product.Prelude.{
  ℕ, ◌+◌, ◌-◌, ◌/◌, String, Bool, true, false, List, [], ◌∷◌, ◌++◌, filter, length, is_empty,
  if◌then◌else◌, ltb,
}
use tea_tax_product.Prelude.Enum.{◌===◌, string_eq}

pub record RateLimitResult : Type 0 where
  pub allowed : Bool
  pub limit : ℕ
  pub remaining : ℕ
  pub reset_at : ℕ

-- The Map from keys to timestamps, in order of insertion.
abbrev pub Store : Type 0
Store = List (String × List ℕ)

pub record RateLimiter : Type 0 where
  pub window_ms : ℕ
  pub max_requests : ℕ
  pub store : Store

-- this.store.get(key) ?? []
unfoldable pub get_timestamps : String → Store → List ℕ
get_timestamps key [] = []
get_timestamps key ((k, timestamps) ∷ rest) =
    let later = get_timestamps key rest in if k === key then timestamps else later

-- this.store.set(key, timestamps)
unfoldable pub set_timestamps : String → List ℕ → Store → Store
set_timestamps key timestamps [] = (key, timestamps) ∷ []
set_timestamps key timestamps ((k, old) ∷ rest) =
    let later = set_timestamps key timestamps rest in
    if k === key then (k, timestamps) ∷ rest else (k, old) ∷ later

-- .filter((ts) => ts > windowStart)
unfoldable pub active : ℕ → ℕ → List ℕ → List ℕ
active window_ms now timestamps = filter (λ ts. ltb now (ts + window_ms)) timestamps

-- timestamps[0] ?? now
abbrev pub oldest : ℕ → List ℕ → ℕ
oldest now [] = now
oldest now (ts ∷ rest) = ts

-- Subtraction stops at 0, which is the Math.max of the source.
unfoldable pub check : Bool → ℕ → RateLimiter → String → RateLimitResult
unfolding get_timestamps active
check disabled now l key =
    if disabled
    then record { allowed = true; limit = l.max_requests; remaining = l.max_requests; reset_at = 0 }
    else let timestamps = active l.window_ms now (get_timestamps key l.store) in
      let allowed = ltb (length timestamps) l.max_requests in
      record {
        allowed = allowed;
        limit = l.max_requests;
        remaining = l.max_requests - length timestamps - (if allowed then 1 else 0);
        reset_at = (oldest now timestamps + l.window_ms + 999) / 1000;
      }

unfoldable pub consume : Bool → ℕ → RateLimiter → String → RateLimiter
unfolding get_timestamps set_timestamps active
consume disabled now l key = if disabled then l else record l {
  store =
      set_timestamps key (active l.window_ms now (get_timestamps key l.store) ++ now ∷ []) l.store;
}

unfoldable pub clean : ℕ → ℕ → Store → Store
unfolding active
clean window_ms now [] = []
clean window_ms now ((key, timestamps) ∷ rest) =
    let later = clean window_ms now rest in
    let kept = active window_ms now timestamps in
    if is_empty kept then later else (key, kept) ∷ later

unfoldable pub cleanup : ℕ → RateLimiter → RateLimiter
unfolding clean
cleanup now l = record l { store = clean l.window_ms now l.store }

unfoldable pub reset : RateLimiter → RateLimiter
reset l = record l { store = [] }

abbrev new_limiter : ℕ → ℕ → RateLimiter
new_limiter window_ms max_requests = record {
  window_ms = window_ms;
  max_requests = max_requests;
  store = [];
}

-- The limiters that the server keeps.
abbrev pub global_limiter : RateLimiter
global_limiter = new_limiter 60000 100

abbrev pub login_ip_limiter : RateLimiter
login_ip_limiter = new_limiter 900000 10

abbrev pub login_user_limiter : RateLimiter
login_user_limiter = new_limiter 900000 10

abbrev pub register_ip_limiter : RateLimiter
register_ip_limiter = new_limiter 3600000 5

abbrev pub forgot_password_ip_limiter : RateLimiter
forgot_password_ip_limiter = new_limiter 900000 3

abbrev pub forgot_password_email_limiter : RateLimiter
forgot_password_email_limiter = new_limiter 3600000 3

abbrev pub reset_password_ip_limiter : RateLimiter
reset_password_ip_limiter = new_limiter 900000 5
