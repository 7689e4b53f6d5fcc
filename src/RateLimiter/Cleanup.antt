-- ===== src/RateLimiter/Cleanup.antt =====
-- The periodic cleanup cannot be observed.
use tea_tax_product.Prelude.{
  ℕ, ◌+◌, ◌≤◌, String, ◌≡◌, refl, inl, inr, Bool, true, false, List, [], ◌∷◌, map, arith, filter,
  is_empty, Bool-cases, ltb, ◌∙◌, sym,
}
use tea_tax_product.Prelude.Enum.{◌===◌, string_eq, Distinct, includes, includes-cons}
use tea_tax_product.RateLimiter.{RateLimiter, Store, get_timestamps, active, clean, check, cleanup}

abbrev pub keys_of : Store → List String
keys_of store = map (λ entry. entry.0) store

active-in :
    (window now ts : ℕ) (rest : List ℕ)
    → ltb now (ts + window) ≡ true
    → active window now (ts ∷ rest) ≡ ts ∷ active window now rest
unfolding active filter
active-in window now ts rest e = rw e refl

active-out :
    (window now ts : ℕ) (rest : List ℕ)
    → ltb now (ts + window) ≡ false
    → active window now (ts ∷ rest) ≡ active window now rest
unfolding active filter
active-out window now ts rest e = rw e refl

-- What has left the window stays out of it.
active-active :
    (window now later : ℕ) (timestamps : List ℕ)
    → now ≤ later
    → active window later (active window now timestamps) ≡ active window later timestamps
active-active window now later [] h = unfold active filter in refl
active-active window now later (ts ∷ rest) h = elim (Bool-cases (ltb now (ts + window))) [
  | inl e ↦ rw (active-in window now ts rest e) (elim (Bool-cases (ltb later (ts + window))) [
    | inl f ↦
        rw
          (
            active-in window later ts (active window now rest) f,
            active-in window later ts rest f,
            active-active window now later rest h,
          )
          refl
    | inr f ↦
        rw
          (active-out window later ts (active window now rest) f, active-out window later ts rest f)
          (active-active window now later rest h)
  ])
  | inr e ↦
      let f : ltb later (ts + window) ≡ false = ground arith in
      rw (active-out window now ts rest e, active-out window later ts rest f)
        (active-active window now later rest h)
]

get-absent :
    (key : String) (store : Store)
    → includes (keys_of store) key ≡ false
    → get_timestamps key store ≡ []
unfolding get_timestamps
get-absent key [] h = refl
get-absent key ((k, ts) ∷ rest) h =
    ground (arith, includes-cons k (keys_of rest) key, get-absent key rest)

get-hit :
    (key k : String) (ts : List ℕ) (rest : Store)
    → (k === key) ≡ true
    → get_timestamps key ((k, ts) ∷ rest) ≡ ts
unfolding get_timestamps
get-hit key k ts rest e = rw e refl

get-miss :
    (key k : String) (ts : List ℕ) (rest : Store)
    → (k === key) ≡ false
    → get_timestamps key ((k, ts) ∷ rest) ≡ get_timestamps key rest
unfolding get_timestamps
get-miss key k ts rest e = rw e refl

pub clean-dropped :
    (window now : ℕ) (k : String) (ts : List ℕ) (rest : Store)
    → is_empty (active window now ts) ≡ true
    → clean window now ((k, ts) ∷ rest) ≡ clean window now rest
unfolding clean
clean-dropped window now k ts rest e = rw e refl

pub clean-kept :
    (window now : ℕ) (k : String) (ts : List ℕ) (rest : Store)
    → is_empty (active window now ts) ≡ false
    → clean window now ((k, ts) ∷ rest) ≡ (k, active window now ts) ∷ clean window now rest
unfolding clean
clean-kept window now k ts rest e = rw e refl

pub clean-absent :
    (window now : ℕ) (key : String) (store : Store)
    → includes (keys_of store) key ≡ false
    → includes (keys_of (clean window now store)) key ≡ false
clean-absent window now key [] h = unfold clean in h
clean-absent window now key ((k, ts) ∷ rest) h =
    let below : includes (keys_of rest) key ≡ false =
      ground (arith, includes-cons k (keys_of rest) key) in
    elim (Bool-cases (is_empty (active window now ts))) [
      | inl e ↦ rw (clean-dropped window now k ts rest e) (clean-absent window now key rest below)
      | inr e ↦ rw (clean-kept window now k ts rest e) (
          ground (
            arith,
            includes-cons k (keys_of rest) key,
            includes-cons k (keys_of (clean window now rest)) key,
            clean-absent window now key rest below,
          ))
    ]

active-nil : (window now : ℕ) → active window now [] ≡ []
unfolding active filter
active-nil window now = refl

active-empty : (window now : ℕ) (ts : List ℕ) → is_empty ts ≡ true → active window now ts ≡ []
active-empty window now [] e = active-nil window now
active-empty window now (x ∷ xs) e = cc

empty-active :
    (window now later : ℕ) (ts : List ℕ)
    → now ≤ later
    → is_empty (active window now ts) ≡ true
    → active window later ts ≡ []
empty-active window now later ts h e =
    sym (active-active window now later ts h) ∙ active-empty window later (active window now ts) e

clean-active :
    (window now later : ℕ) (key : String) (store : Store)
    → now ≤ later
    → Distinct (keys_of store)
    → active window later (get_timestamps key (clean window now store))
      ≡ active window later (get_timestamps key store)
clean-active window now later key [] h d = unfold clean in refl
clean-active window now later key ((k, ts) ∷ rest) h d =
    elim (Bool-cases (is_empty (active window now ts))) [
      | inl e ↦ rw (clean-dropped window now k ts rest e) (elim (Bool-cases (k === key)) [
        | inl hit ↦
            let same : k ≡ key = (string_eq.test_iff k key).0 hit in
            rw
              (
                get-hit key k ts rest hit,
                get-absent key (clean window now rest)
                    (clean-absent window now key rest (rw (← same) d.0)),
                empty-active window now later ts h e,
              )
              (active-nil window later)
        | inr miss ↦ rw (get-miss key k ts rest miss) (clean-active window now later key rest h d.1)
      ])
      | inr e ↦ rw (clean-kept window now k ts rest e) (elim (Bool-cases (k === key)) [
        | inl hit ↦
            rw
              (
                get-hit key k (active window now ts) (clean window now rest) hit,
                get-hit key k ts rest hit,
              )
              (active-active window now later ts h)
        | inr miss ↦
            rw
              (
                get-miss key k (active window now ts) (clean window now rest) miss,
                get-miss key k ts rest miss,
              )
              (clean-active window now later key rest h d.1)
      ])
    ]

-- A cleanup of a Map, whose keys are distinct, changes no later check: it only drops timestamps that have
-- left the window.
pub cleanup-check :
    (disabled : Bool) (now later : ℕ) (l : RateLimiter) (key : String)
    → now ≤ later
    → Distinct (keys_of l.store)
    → check disabled later (cleanup now l) key ≡ check disabled later l key
unfolding check cleanup
cleanup-check disabled now later l key h d =
    rw (clean-active l.window_ms now later key l.store h d) refl
