-- ===== src/RateLimiter/Keys.antt =====
-- The keys of the Map stay distinct.
use tea_tax_product.Prelude.{
  ℕ, String, ◌≡◌, refl, inl, inr, Bool, true, false, List, [], ◌∷◌, ◌++◌, arith, is_empty,
  Bool-cases,
}
use tea_tax_product.Prelude.Enum.{◌===◌, string_eq, Distinct, includes, includes-cons, includes-nil}
use tea_tax_product.RateLimiter.{
  RateLimiter, Store, get_timestamps, set_timestamps, active, clean, consume, cleanup,
}
use tea_tax_product.RateLimiter.Cleanup.{keys_of, clean-dropped, clean-kept, clean-absent}

set-here :
    (key k : String) (new old : List ℕ) (rest : Store)
    → (k === key) ≡ true
    → set_timestamps key new ((k, old) ∷ rest) ≡ (k, new) ∷ rest
unfolding set_timestamps
set-here key k new old rest h = rw h refl

set-later :
    (key k : String) (new old : List ℕ) (rest : Store)
    → (k === key) ≡ false
    → set_timestamps key new ((k, old) ∷ rest) ≡ (k, old) ∷ set_timestamps key new rest
unfolding set_timestamps
set-later key k new old rest h = rw h refl

-- A key that is not there is added only as the one that is set.
set-absent :
    (key k : String) (new : List ℕ) (store : Store)
    → (key === k) ≡ false
    → includes (keys_of store) k ≡ false
    → includes (keys_of (set_timestamps key new store)) k ≡ false
set-absent key k new [] h d =
    unfold set_timestamps in ground (arith, includes-cons key [] k, includes-nil k)
set-absent key k new ((j, old) ∷ rest) h d = elim (Bool-cases (j === key)) [
  | inl here ↦ rw (set-here key j new old rest here) d
  | inr there ↦ rw (set-later key j new old rest there) (
      ground (
        arith,
        includes-cons j (keys_of rest) k,
        includes-cons j (keys_of (set_timestamps key new rest)) k,
        set-absent key k new rest h,
      ))
]

set-Distinct :
    (key : String) (new : List ℕ) (store : Store)
    → Distinct (keys_of store)
    → Distinct (keys_of (set_timestamps key new store))
set-Distinct key new [] d = unfold set_timestamps in (includes-nil key, tt)
set-Distinct key new ((k, old) ∷ rest) d = elim (Bool-cases (k === key)) [
  | inl here ↦ rw (set-here key k new old rest here) d
  | inr there ↦ rw (set-later key k new old rest there) (
    set-absent key k new rest (ground (arith, string_eq.test_iff k key, string_eq.test_iff key k))
        d.0,
    set-Distinct key new rest d.1,
  )
]

clean-Distinct :
    (window now : ℕ) (store : Store)
    → Distinct (keys_of store)
    → Distinct (keys_of (clean window now store))
clean-Distinct window now [] d = unfold clean in tt
clean-Distinct window now ((k, ts) ∷ rest) d = elim (Bool-cases (is_empty (active window now ts))) [
  | inl e ↦ rw (clean-dropped window now k ts rest e) (clean-Distinct window now rest d.1)
  | inr e ↦
      rw (clean-kept window now k ts rest e)
        (clean-absent window now k rest d.0, clean-Distinct window now rest d.1)
]

-- Recording a request and cleaning up both keep the keys of the Map distinct.
pub consume-cleanup-Distinct :
    (disabled : Bool) (now : ℕ) (l : RateLimiter) (key : String)
    → Distinct (keys_of l.store)
    → Distinct (keys_of (consume disabled now l key).store)
      × Distinct (keys_of (cleanup now l).store)
unfolding consume cleanup
consume-cleanup-Distinct true now l key d = (d, clean-Distinct l.window_ms now l.store d)
consume-cleanup-Distinct false now l key d = (
  set-Distinct key (active l.window_ms now (get_timestamps key l.store) ++ now ∷ []) l.store d,
  clean-Distinct l.window_ms now l.store d,
)
