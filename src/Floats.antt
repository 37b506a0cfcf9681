-- ===== src/Floats.antt =====
-- Python's arithmetic on `float`, which the code uses and does not implement. A float is given by its
-- 64-bit pattern, as in Json, so 0 is the float 0.0.
use coolproof.Base.{ℕ, ℤ, pos, negsuc, Bool, List, if◌then◌else◌}

-- `add`, `sub`, `mul`, `div` are `+ - * /`, `lt` and `le` are `<` and `<=`, `round` is `round(x, n)`,
-- `total` is `sum`, `of_int` is the conversion of an `int` and `truncate` is `int(x)`.
pub record Floats : Type 0 where
  pub add : ℕ → ℕ → ℕ
  pub sub : ℕ → ℕ → ℕ
  pub mul : ℕ → ℕ → ℕ
  pub div : ℕ → ℕ → ℕ
  pub lt : ℕ → ℕ → Bool
  pub le : ℕ → ℕ → Bool
  pub negate : ℕ → ℕ
  pub magnitude : ℕ → ℕ
  pub square_root : ℕ → ℕ
  pub is_finite : ℕ → Bool
  pub round : ℕ → ℕ → ℕ
  pub total : List ℕ → ℕ
  pub of_int : ℤ → ℕ
  pub truncate : ℕ → ℤ

-- `max(0.0, x)`: the first of its arguments that no other exceeds.
abbrev pub at_least_zero : Floats → ℕ → ℕ
at_least_zero f x = if f.lt 0 x then x else 0

-- `max(0, n)` on an `int`.
abbrev pub natural : ℤ → ℕ
natural (pos n) = n
natural (negsuc n) = 0
