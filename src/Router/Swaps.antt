-- ===== src/Router/Swaps.antt =====
-- What a successful swap does to its pool.
use nyx_dirty_and_develop.Base.{
  ℕ, ◌+◌, ◌*◌, ◌≤◌, ◌<◌, ◌≡◌, refl, Bool, true, false, arith, String, if◌then◌else◌, ok, >>=-eq-ok,
}
use nyx_dirty_and_develop.Base.Int.{ℤ, pos, negsuc, pos_part, ◌≤ℤ◌}
use nyx_dirty_and_develop.Dex.{PoolState}
use nyx_dirty_and_develop.Router.Price.{price, price_lt, price_product}
use nyx_dirty_and_develop.Router.Kernel.{
  max_reserve, check_below, check_reserve, side, quote, moved, swap_pool,
}

pub check_below-ok :
    (bound : ℕ) (v : ℤ) (name : String) (n : ℕ)
    → check_below bound v name ≡ ok n
    → (v ≡ pos n) × (n ≤ bound)
check_below-ok bound (negsuc _) name n h = cc
check_below-ok bound (pos k) name n h = ground arith

-- What the guards on a swap's output let through.
pub record IsQuoted (reserve_in reserve_out amount_in min_out out : ℕ) : Type 0 where
  pub priced : out ≡ price reserve_in reserve_out amount_in
  pub in_pos : 0 < reserve_in
  pub out_pos : 0 < reserve_out
  pub in_bounded : reserve_in + amount_in ≤ max_reserve
  pub paid : 0 < out
  pub enough : min_out ≤ out
  pub kept : out < reserve_out

pub quote-IsQuoted : (i o x m out : ℕ) → quote i o x m ≡ ok out → IsQuoted i o x m out
unfolding quote
quote-IsQuoted i o x m out h = ground (arith, price_lt i o x)

-- The last guard of the output can never fail.
pub quote_lem :
    (i o x m : ℕ)
    → 0 < i
    → 0 < o
    → i + x ≤ max_reserve
    → 0 < price i o x
    → m ≤ price i o x
    → quote i o x m ≡ ok (price i o x)
unfolding quote
quote_lem i o x m hi ho hb hp hm = ground (arith, price_lt i o x)

-- The numbers of a swap: the pool before and after, what was asked and what was paid.
pub record Fill : Type 0 where
  pub before : PoolState
  pub after : PoolState
  pub amount_in : ℕ
  pub min_out : ℕ
  pub in_is_a : Bool
  pub a : ℕ
  pub b : ℕ
  pub out : ℕ

abbrev pub reserve_in : Fill → ℕ
reserve_in f = if f.in_is_a then f.a else f.b

abbrev pub reserve_out : Fill → ℕ
reserve_out f = if f.in_is_a then f.b else f.a

-- One reserve grows by what is paid in, the other falls by the priced output.
pub record IsSwapped (f : Fill) : Type 0 where
  pub was_a : f.before.reserve_a ≡ pos f.a
  pub was_b : f.before.reserve_b ≡ pos f.b
  pub a_bounded : f.a ≤ max_reserve
  pub b_bounded : f.b ≤ max_reserve
  pub becomes : f.after ≡ moved f.before f.in_is_a f.a f.b f.amount_in f.out
  pub quoted : IsQuoted (reserve_in f) (reserve_out f) f.amount_in f.min_out f.out

pub swap_pool-IsSwapped :
    (p : PoolState) (asset : String) (x m : ℕ) (q : PoolState)
    → swap_pool p asset x m ≡ ok q
    → (f : Fill) × (f.before ≡ p)
      × (f.after ≡ q)
      × (f.amount_in ≡ x)
      × (f.min_out ≡ m)
      × (side p asset ≡ ok f.in_is_a)
      × IsSwapped f
unfolding swap_pool
swap_pool-IsSwapped p asset x m q h =
    let (a, ea, h₁) = >>=-eq-ok (check_reserve p.reserve_a "reserve_a") _ h in
    let (b, eb, h₂) = >>=-eq-ok (check_reserve p.reserve_b "reserve_b") _ h₁ in
    let (_, _, h₃) = >>=-eq-ok (check_reserve p.total_lp "total_lp") _ h₂ in
    let (s, es, h₄) = >>=-eq-ok (side p asset) _ h₃ in
    let (out, eo, h₅) = >>=-eq-ok (quote (if s then a else b) (if s then b else a) x m) _ h₄ in
    let r = moved p s a b x out in
    let (_, _, h₆) = >>=-eq-ok (check_reserve r.reserve_a "reserve_a") _ h₅ in
    let (_, _, h₇) = >>=-eq-ok (check_reserve r.reserve_b "reserve_b") _ h₆ in
    let (ra, ba) = check_below-ok max_reserve p.reserve_a "reserve_a" a ea in
    let (rb, bb) = check_below-ok max_reserve p.reserve_b "reserve_b" b eb in
    (
      record {
        before = p;
        after = q;
        amount_in = x;
        min_out = m;
        in_is_a = s;
        a = a;
        b = b;
        out = out;
      },
      refl,
      refl,
      refl,
      refl,
      es,
      record {
        was_a = ra;
        was_b = rb;
        a_bounded = ba;
        b_bounded = bb;
        becomes = cc;
        quoted = quote-IsQuoted _ _ x m out eo;
      },
    )

-- The product of the reserves.
abbrev pub product : PoolState → ℕ
product p = pos_part p.reserve_a * pos_part p.reserve_b

moved_product :
    (p : PoolState) (s : Bool) (a b x : ℕ)
    → 0 < (if s then a else b)
    → 0 < (if s then b else a)
    → a * b ≤ product (moved p s a b x (price (if s then a else b) (if s then b else a) x))
moved_product p true a b x hi ho = price_product a b x hi ho
moved_product p false a b x hi ho = omega (arith, price_product b a x hi ho)

moved_kept :
    (p : PoolState) (s : Bool) (a b x out : ℕ)
    → 0 < (if s then a else b)
    → out < (if s then b else a)
    → ((moved p s a b x out).pool_id ≡ p.pool_id)
      × ((moved p s a b x out).total_lp ≡ p.total_lp)
      × (pos 1 ≤ℤ (moved p s a b x out).reserve_a)
      × (pos 1 ≤ℤ (moved p s a b x out).reserve_b)
moved_kept p true a b x out hi ho = (refl, refl, omega arith, omega arith)
moved_kept p false a b x out hi ho = (refl, refl, omega arith, omega arith)

pub IsSwapped-product : (f : Fill) → IsSwapped f → product f.before ≤ product f.after
IsSwapped-product f h =
    rw (h.was_a, h.was_b, h.becomes, h.quoted.priced)
      (moved_product f.before f.in_is_a f.a f.b f.amount_in h.quoted.in_pos h.quoted.out_pos)

-- The name of the pool stays, and both of its reserves stay positive.
pub IsSwapped-kept :
    (f : Fill)
    → IsSwapped f
    → (f.after.pool_id ≡ f.before.pool_id)
      × (f.after.total_lp ≡ f.before.total_lp)
      × (pos 1 ≤ℤ f.after.reserve_a)
      × (pos 1 ≤ℤ f.after.reserve_b)
IsSwapped-kept f h =
    rw h.becomes
      (moved_kept f.before f.in_is_a f.a f.b f.amount_in f.out h.quoted.in_pos h.quoted.kept)
