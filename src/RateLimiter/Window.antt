-- ===== src/RateLimiter/Window.antt =====
-- The limit that `check` and `consume` keep.
use tea_tax_product.Prelude.{
  ℕ, ◌≤◌, ◌<◌, String, ◌≡◌, refl, inl, inr, true, false, List, [], ◌∷◌, ◌++◌, arith, filter, length,
  length-append, Bool-cases,
}
use tea_tax_product.Prelude.Enum.{◌===◌, string_eq}
use tea_tax_product.RateLimiter.{
  RateLimiter, Store, get_timestamps, set_timestamps, active, check, consume,
}

get-set :
    (key : String) (timestamps : List ℕ) (store : Store)
    → get_timestamps key (set_timestamps key timestamps store) ≡ timestamps
unfolding get_timestamps set_timestamps
get-set key timestamps [] = ground (arith, string_eq.test_iff key key)
get-set key timestamps ((k, old) ∷ rest) = elim (Bool-cases (k === key)) [
  | inl h ↦ rw h (rw h refl)
  | inr h ↦ rw h (rw h (get-set key timestamps rest))
]

get-set-other :
    (key other : String) (timestamps : List ℕ) (store : Store)
    → (key === other) ≡ false
    → get_timestamps other (set_timestamps key timestamps store) ≡ get_timestamps other store
unfolding get_timestamps set_timestamps
get-set-other key other timestamps [] h = rw h refl
get-set-other key other timestamps ((k, old) ∷ rest) h = elim (Bool-cases (k === key)) [
  | inl here ↦
      let apart : (k === other) ≡ false =
        (let same : k ≡ key = (string_eq.test_iff k key).0 here in rw same h) in
      rw here (rw apart refl)
  | inr there ↦ rw there (elim (Bool-cases (k === other)) [
    | inl e ↦ rw e refl
    | inr e ↦ rw e (get-set-other key other timestamps rest h)
  ])
]

active-length :
    (window now : ℕ) (timestamps : List ℕ)
    → length (active window now timestamps) ≤ length timestamps
unfolding active filter
active-length window now [] = omega arith
active-length window now (ts ∷ rest) = ground (arith, active-length window now rest)

-- While limits are enabled, a request that is recorded at the time of a check that allowed it leaves at
-- most max_requests timestamps in the window of its key, at any time from then on.
pub consume-within :
    (now later : ℕ) (l : RateLimiter) (key : String)
    → (check false now l key).allowed ≡ true
    → length (active l.window_ms later (get_timestamps key (consume false now l key).store))
      ≤ l.max_requests
unfolding check consume
consume-within now later l key allowed =
    let kept = active l.window_ms now (get_timestamps key l.store) in
    let room : length kept < l.max_requests = ground arith in
    rw (get-set key (kept ++ now ∷ []) l.store) (
      omega
        (arith, active-length l.window_ms later (kept ++ now ∷ []), length-append kept (now ∷ [])))

-- While limits are enabled, a recorded request does not change what other keys are told.
pub consume-other :
    (now later : ℕ) (l : RateLimiter) (key other : String)
    → (key === other) ≡ false
    → check false later (consume false now l key) other ≡ check false later l other
unfolding check consume
consume-other now later l key other h =
    rw
      (get-set-other key other (active l.window_ms now (get_timestamps key l.store) ++ now ∷ [])
        l.store h)
      refl
