-- ===== src/Fees/Laws.antt =====
-- What a fee comes to, and what is accepted as its payment.
use nyx_dirty_and_develop.Base.{
  ℕ, ◌+◌, ◌*◌, ◌/◌, ◌≤◌, ◌≡◌, refl, true, not, arith, List, [], ◌∷◌, String, text_eq, ok, >>=-eq-ok,
  raise_if, Bytes,
}
use nyx_dirty_and_develop.Base.Int.{ℤ, pos, negsuc}
use nyx_dirty_and_develop.Fees.Vector.{
  FeeComponentId, base, bytes, compute, same_component, Components, FeeVector, total,
  same_components, same_vector,
}
use nyx_dirty_and_develop.Fees.Action.{require_text, require_bytes32}
use nyx_dirty_and_develop.Fees.Engine.{enforce}
use nyx_dirty_and_develop.Fees.Platform.{
  PlatformFeeQuote, PlatformFeeReceipt, exact, check_receipt, enforce_platform_fee,
}
use nyx_dirty_and_develop.Fees.Route.{Payload, first_positive, payload_amount, platform_fee_amount}

same_component-eq : (c d : FeeComponentId) → same_component c d ≡ true → c ≡ d
same_component-eq base base h = refl
same_component-eq bytes bytes h = refl
same_component-eq compute compute h = refl
same_component-eq base bytes h = cc
same_component-eq base compute h = cc
same_component-eq bytes base h = cc
same_component-eq bytes compute h = cc
same_component-eq compute base h = cc
same_component-eq compute bytes h = cc

same_components-eq : (xs ys : Components) → same_components xs ys ≡ true → xs ≡ ys
same_components-eq [] [] h = refl
same_components-eq [] (y ∷ ys) h = cc
same_components-eq (x ∷ xs) [] h = cc
same_components-eq ((c, n) ∷ xs) ((d, m) ∷ ys) h =
    ground (arith, same_component-eq c d, same_components-eq xs ys)

pub same_components_refl : (xs : Components) → same_components xs xs ≡ true
same_components_refl [] = refl
same_components_refl ((base, n) ∷ xs) = ground (arith, same_components_refl xs)
same_components_refl ((bytes, n) ∷ xs) = ground (arith, same_components_refl xs)
same_components_refl ((compute, n) ∷ xs) = ground (arith, same_components_refl xs)

first_positive_pos : (p : Payload) (keys : List String) → 1 ≤ first_positive p keys
unfolding first_positive
first_positive_pos p [] = omega arith
first_positive_pos p (key ∷ keys) = ground (arith, first_positive_pos p keys)

share : (n bps : ℕ) → bps ≤ 10_000 → n * bps / 10_000 ≤ n
share n bps h = let b : n * bps ≤ n * 10_000 = grind arith in omega (arith, b)

-- With basis points between 1 and 10,000 the platform fee is at least 1, and no more than the
-- amount of the payload.
pub platform_fee_amount_bounds :
    (bps : ℕ) (p : Payload)
    → 1 ≤ bps
    → bps ≤ 10_000
    → (1 ≤ platform_fee_amount bps p) × (platform_fee_amount bps p ≤ payload_amount p)
unfolding platform_fee_amount
platform_fee_amount_bounds bps p low high = ground (
  arith,
  share (payload_amount p) bps high,
  first_positive_pos p ("amount" ∷ "price" ∷ "qty" ∷ []),
)

-- The record of a payment that was accepted.
pub record IsPaid (q : PlatformFeeQuote) (v : FeeVector) (amount : ℤ) (payer : String)
    (r : PlatformFeeReceipt) : Type 0 where
  pub by_payer : payer ≡ q.payer
  pub vector : v.components ≡ q.protocol_quote.fee_vector.components
  pub platform : amount ≡ pos q.platform_fee_amount
  pub in_full : r.total_paid ≡ q.total_due
  pub sum : r.total_paid ≡ total v + r.platform_fee_amount

exact-ok : (a : ℤ) (m n : ℕ) → exact a m ≡ ok n → (a ≡ pos m) × (n ≡ m)
exact-ok (negsuc k) m n h = cc
exact-ok (pos k) m n h = ground arith

module _ (sha256 : Bytes → Bytes) (quote_text : Bytes → FeeVector → String → Bytes)
    (receipt_text : Bytes → Bytes → String → FeeVector → Bytes) where
  -- `enforce_platform_fee` accepts only the payer, the vector and the platform fee of the quote, and
  -- the total that is paid is then the total that is due.
  pub enforce_platform_fee-ok :
      (q : PlatformFeeQuote) (v : FeeVector) (amount : ℤ) (payer : String) (r : PlatformFeeReceipt)
      → enforce_platform_fee sha256 quote_text receipt_text q v amount payer ≡ ok r
      → IsPaid q v amount payer r
  unfolding enforce_platform_fee check_receipt same_vector
  enforce_platform_fee-ok q v amount payer r h =
      let (u₁, e₁, h₁) = >>=-eq-ok (raise_if (not (text_eq payer q.payer)) "payer mismatch") _ h in
      let (u₂, e₂, h₂) =
        >>=-eq-ok
          (raise_if (not (same_vector v q.protocol_quote.fee_vector))
            "paid_protocol_vector mismatch")
          _ h₁ in
      let (a, e₃, h₃) = >>=-eq-ok (exact amount q.platform_fee_amount) _ h₂ in
      let (u₄, e₄, h₄) = >>=-eq-ok (require_text q.payer "payer") _ h₃ in
      let (u₅, e₅, h₅) =
        >>=-eq-ok (require_bytes32 q.protocol_quote.quote_hash "quote_hash") _ h₄ in
      let (receipt, e₆, h₆) =
        >>=-eq-ok (enforce sha256 quote_text receipt_text q.protocol_quote _) _ h₅ in
      let (same, _) = exact-ok amount q.platform_fee_amount a e₃ in
      record {
        by_payer = ground (arith, e₁);
        vector =
            same_components-eq v.components q.protocol_quote.fee_vector.components
              (ground (arith, e₂));
        platform = same;
        in_full = ground (arith, h₆);
        sum = ground (arith, h₆);
      }
