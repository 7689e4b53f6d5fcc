-- ===== src/Prelude/Number.antt =====
-- JavaScript numbers, as multiples of 2^-16: `pos n` is n / 65536. Such numbers and their sums are
-- exact in double precision while they stay below 2^37.
use tea_tax_product.Prelude.{ℕ, ◌*◌, Bool, not, List, [], ◌∷◌}
use tea_tax_product.Prelude.Int.{ℤ, pos, ◌+ℤ◌, ltb_ℤ}

abbrev pub Number : Type 0
Number = ℤ

abbrev pub scale : ℕ
scale = 65536

-- The whole number n.
abbrev pub whole : ℕ → Number
whole n = pos (n * 65536)

-- a > b, a >= b
abbrev pub gt : Number → Number → Bool
gt a b = ltb_ℤ b a

abbrev pub ge : Number → Number → Bool
ge a b = not (ltb_ℤ a b)

-- xs.reduce((acc, x) => acc + x, 0)
unfoldable pub sum_from : Number → List Number → Number
sum_from acc [] = acc
sum_from acc (x ∷ xs) = sum_from (acc +ℤ x) xs
