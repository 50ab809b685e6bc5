-- ===== src/Router/Price.antt =====
-- The output of a constant-product swap, as arithmetic on the natural numbers.
use nyx_dirty_and_develop.Base.{ℕ, ◌+◌, ◌-◌, ◌*◌, ◌/◌, ◌≤◌, ◌<◌, ◌≡◌, arith}
use native.Mathlib.Nat.{div-mul-le_self, div-lt_iff_lt-mul}

-- `(reserve_out * amount_in) // (reserve_in + amount_in)`
abbrev pub price : ℕ → ℕ → ℕ → ℕ
price reserve_in reserve_out amount_in = (reserve_out * amount_in) / (reserve_in + amount_in)

pub price_bound : (a b x : ℕ) → price a b x * (a + x) ≤ b * x
price_bound a b x = div-mul-le_self (b * x) (a + x)

-- The pool is never emptied.
pub price_lt : (a b x : ℕ) → 0 < a → 0 < b → price a b x < b
price_lt a b x ha hb = grind (arith, price_bound a b x)

product_of_parts : (a x d r : ℕ) → d * (a + x) ≤ (d + r) * x → a * (d + r) ≤ (a + x) * r
product_of_parts a x d r h = omega arith

-- The product of the reserves does not fall.
pub price_product : (a b x : ℕ) → 0 < a → 0 < b → a * b ≤ (a + x) * (b - price a b x)
price_product a b x ha hb =
    let d = price a b x in
    let e : b ≡ d + (b - d) = omega (arith, price_lt a b x ha hb) in
    rw (← e) at (product_of_parts a x d (b - d) (rw (← e) (price_bound a b x)))

div-le_of : (n k x : ℕ) → 0 < k → n ≤ x * k → n / k ≤ x
div-le_of n k x hk h = omega (arith, (div-lt_iff_lt-mul {x = n} {y = x + 1} hk).1 (omega arith))

-- Swapping the output back at once returns no more than was put in.
pub price_round_trip :
    (a b x : ℕ) → 0 < a → 0 < b → price (b - price a b x) (a + x) (price a b x) ≤ x
price_round_trip a b x ha hb =
    let d = price a b x in
    let e : b - d + d ≡ b = omega (arith, price_lt a b x ha hb) in
    rw e (div-le_of ((a + x) * d) b x hb (omega (arith, price_bound a b x)))
