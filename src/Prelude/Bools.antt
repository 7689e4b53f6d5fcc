-- ===== src/Prelude/Bools.antt =====
-- Equations of Boolean tests for simp.
use mathlib.Core.Path.{◌≡◌}
use mathlib.Core.Bool.{Bool, true, false, ◌&&◌, ◌||◌}
use native.Mathlib.Omega.{arith}

pub and-true : (b : Bool) → (b && true) ≡ b
and-true b = ground arith

pub and-false : (b : Bool) → (b && false) ≡ false
and-false b = ground arith

pub or-false : (b : Bool) → (b || false) ≡ b
or-false b = ground arith

pub or_assoc : (a b c : Bool) → ((a || b) || c) ≡ (a || (b || c))
or_assoc a b c = ground arith

pub ruleset bool_laws = (and-true, and-false, or-false)
