-- ===== src/Fees/Charges.antt =====
-- What a call of the gateway's `route_fee` comes to.
use nyx_dirty_and_develop.Base.{
  ℕ, ◌+◌, ◌≡◌, refl, ◌≢◌, ◌⊎◌, inl, inr, arith, [], ◌∷◌, String, text_ne, text_discrete, length, ok,
  err, ◌>>=◌, ◌>>◌, compare_digest_iff, Bytes,
}
use nyx_dirty_and_develop.Base.Int.{pos}
use nyx_dirty_and_develop.Fees.Vector.{
  Outcome, state_mutation, base, bytes, compute, FeeVector, new_vector, for_action,
  check_components, is_seen, insert_component, sort_components, total, same_vector,
}
use nyx_dirty_and_develop.Fees.Canonical.{Value}
use nyx_dirty_and_develop.Fees.Action.{
  ActionDescriptor, require_text, require_bytes32, check_action, canonical_bytes, framed_preimage,
}
use nyx_dirty_and_develop.Fees.Engine.{
  FeeQuote, FeePayment, calculate_fee_vector, create_quote, create_receipt, quote, enforce,
}
use nyx_dirty_and_develop.Fees.Platform.{
  PlatformFeeQuote, PlatformFeeReceipt, check_quote, check_receipt, quote_platform_fee,
  enforce_platform_fee,
}
use nyx_dirty_and_develop.Fees.Route.{fields_of, platform_fee_amount, described, route_fee}
use nyx_dirty_and_develop.Fees.Laws.{enforce_platform_fee-ok}

payer_named : ◌≢◌ {A = String} "testnet-payer" ""
unfolding text_discrete
payer_named = text_ne _ _ refl

Outcome-cases : {A : Type 0} (r : Outcome A) → ((a : A) × (r ≡ ok a)) ⊎ ((e : String) × (r ≡ err e))
Outcome-cases (ok a) = inl (a, refl)
Outcome-cases (err e) = inr (e, refl)

-- The vector of a mutation
abbrev mutation_vector : ℕ → FeeVector
mutation_vector size = record { components = (base, 1) ∷ (bytes, size) ∷ (compute, 0) ∷ [] }

calculate_fee_vector_lem :
    (json_text : Value → Bytes) (a : ActionDescriptor) (canonical : Bytes)
    → a.kind ≡ state_mutation
    → canonical_bytes json_text a ≡ ok canonical
    → calculate_fee_vector json_text a ≡ ok (mutation_vector (length canonical))
unfolding calculate_fee_vector for_action new_vector check_components is_seen sort_components
    insert_component
calculate_fee_vector_lem json_text a canonical h e = rw (e, h) (ground arith)

calculate_fee_vector-err :
    (json_text : Value → Bytes) (a : ActionDescriptor) (e : String)
    → canonical_bytes json_text a ≡ err e
    → calculate_fee_vector json_text a ≡ err e
unfolding calculate_fee_vector
calculate_fee_vector-err json_text a e h = rw h refl

module _ (sha256 : Bytes → Bytes) (quote_text : Bytes → FeeVector → String → Bytes)
    (receipt_text : Bytes → Bytes → String → FeeVector → Bytes) where
  -- The only fact on SHA-256 that the fees rest on: a digest has 32 bytes.
  abbrev pub HasDigests : Type 0
  HasDigests = (bs : Bytes) → length (sha256 bs) ≡ 32

  create_quote_lem :
      (ah : Bytes) (v : FeeVector) (payer : String)
      → HasDigests
      → length ah ≡ 32
      → payer ≢ ""
      → create_quote sha256 quote_text receipt_text ah v payer
        ≡ ok (record {
          action_hash = ah;
          fee_vector = v;
          payer = payer;
          quote_hash = sha256 (quote_text ah v payer);
        })
  unfolding create_quote require_bytes32 require_text
  create_quote_lem ah v payer digests size named =
      let hash = sha256 (quote_text ah v payer) in
      ground
        (arith, digests (quote_text ah v payer), size, named, (compare_digest_iff hash hash).1 refl)

  create_receipt_lem :
      (q : FeeQuote) (p : FeePayment)
      → HasDigests
      → length q.quote_hash ≡ 32
      → length q.action_hash ≡ 32
      → p.payer ≢ ""
      → create_receipt sha256 quote_text receipt_text q p
        ≡ ok (record {
          quote_hash = q.quote_hash;
          action_hash = q.action_hash;
          payer = p.payer;
          paid_vector = p.paid_vector;
          receipt_hash = sha256 (receipt_text q.quote_hash q.action_hash p.payer p.paid_vector);
        })
  unfolding create_receipt require_bytes32 require_text
  create_receipt_lem q p digests size size' named = ground (
    arith,
    digests (receipt_text q.quote_hash q.action_hash p.payer p.paid_vector),
    size,
    size',
    named,
  )

  -- The quote of a mutation by the length of its bytes and by its hash, and the platform's quote
  abbrev quoted : ℕ → Bytes → String → FeeQuote
  quoted size action_hash payer =
      let v = mutation_vector size in
      record {
        action_hash = action_hash;
        fee_vector = v;
        payer = payer;
        quote_hash = sha256 (quote_text action_hash v payer);
      }

  abbrev platform_quoted : ℕ → Bytes → String → ℕ → PlatformFeeQuote
  platform_quoted size action_hash payer amount = record {
    protocol_quote = quoted size action_hash payer;
    platform_fee_amount = amount;
    total_due = total (mutation_vector size) + amount;
    payer = payer;
  }

  enforce_platform_fee_lem :
      (size : ℕ) (ah : Bytes) (payer : String) (amount : ℕ)
      → HasDigests
      → length ah ≡ 32
      → payer ≢ ""
      → (r : PlatformFeeReceipt) × (enforce_platform_fee sha256 quote_text receipt_text
            (platform_quoted size ah payer amount)
            (mutation_vector size)
            (pos amount)
            payer
          ≡ ok r)
  unfolding enforce_platform_fee enforce check_receipt same_vector require_text require_bytes32
  enforce_platform_fee_lem size ah payer amount digests long named =
      let q = quoted size ah payer in
      let p : FeePayment = record {
        payer = payer;
        quote_hash = q.quote_hash;
        paid_vector = q.fee_vector;
      } in
      let hash = q.quote_hash in
      (
        record {
          quote_hash = hash;
          protocol_receipt = record {
            quote_hash = hash;
            action_hash = ah;
            payer = payer;
            paid_vector = q.fee_vector;
            receipt_hash = sha256 (receipt_text hash ah payer q.fee_vector);
          };
          platform_fee_amount = amount;
          total_paid = total q.fee_vector + amount;
          payer = payer;
        },
        rw (create_receipt_lem q p digests (digests _) long named) (
            ground (
              arith,
              named,
              digests (quote_text ah q.fee_vector payer),
              (compare_digest_iff hash hash).1 refl,
            )),
      )

  module _ (digests : HasDigests) (utf8 : String → Bytes) (json_text : Value → Bytes) where
    -- A quote of a mutation raises what its two encodings raise.
    quote_platform_fee_lem :
        (a : ActionDescriptor) (payer : String) (amount : ℕ)
        → a.kind ≡ state_mutation
        → payer ≢ ""
        → quote_platform_fee sha256 quote_text receipt_text utf8 json_text a payer (pos amount) ≡ (
            canonical_bytes json_text a >>= λ canonical.
            framed_preimage utf8 json_text a >>= λ preimage.
            ok (platform_quoted (length canonical) (sha256 preimage) payer amount))
    unfolding quote_platform_fee quote check_quote require_text
    quote_platform_fee_lem a payer amount mutation named =
        elim (Outcome-cases (canonical_bytes json_text a)) [
          | inr (e, h) ↦ rw (calculate_fee_vector-err json_text a e h, h) (ground (arith, named))
          | inl (canonical, h) ↦ elim (Outcome-cases (framed_preimage utf8 json_text a)) [
            | inr (e, k) ↦
                rw (calculate_fee_vector_lem json_text a canonical mutation h, h, k)
                  (ground (arith, named))
            | inl (preimage, k) ↦
                rw
                  (
                    calculate_fee_vector_lem json_text a canonical mutation h,
                    h,
                    k,
                    create_quote_lem (sha256 preimage) (mutation_vector (length canonical)) payer
                        digests (digests preimage) named,
                  )
                  (ground (arith, named))
          ]
        ]

    -- For every payload and every action, `route_fee` raises exactly what the checks of the action
    -- descriptor and its two encodings raise, in this order. Otherwise it returns the record whose
    -- protocol fee is 1 and the length of the action's canonical bytes, whose platform fee is that
    -- of the payload, and whose total is their sum. Digests are taken to have 32 bytes.
    pub route_fee_lem :
        (fee_id : String → String) (fee_address : String) (bps : ℕ) (module_name action : String)
        (payload : Value) (run_id : String)
        → route_fee sha256 quote_text receipt_text fee_id fee_address bps utf8 json_text module_name
            action payload run_id
          ≡ (check_action json_text (described module_name action payload)
              >> (canonical_bytes json_text (described module_name action payload) >>= λ canonical.
                  framed_preimage utf8 json_text (described module_name action payload)
                  >>= λ preimage. ok (record {
                    fee_id = fee_id run_id;
                    module_name = module_name;
                    action = action;
                    protocol_fee_total = 1 + length canonical;
                    platform_fee_amount = platform_fee_amount bps (fields_of payload);
                    total_paid = 1 + length canonical + platform_fee_amount bps (fields_of payload);
                    fee_address = fee_address;
                    run_id = run_id;
                  })))
    unfolding route_fee
    route_fee_lem fee_id fee_address bps module_name action payload run_id =
        let a = described module_name action payload in
        let amount = platform_fee_amount bps (fields_of payload) in
        let quoting = quote_platform_fee_lem a "testnet-payer" amount refl payer_named in
        elim (Outcome-cases (canonical_bytes json_text a)) [
          | inr (e, h) ↦ rw (quoting, h) (ground arith)
          | inl (canonical, h) ↦ elim (Outcome-cases (framed_preimage utf8 json_text a)) [
            | inr (e, k) ↦ rw (quoting, h, k) (ground arith)
            | inl (preimage, k) ↦
                let size = length canonical in
                let ah = sha256 preimage in
                let (r, paid) =
                  enforce_platform_fee_lem size ah "testnet-payer" amount digests (digests preimage)
                    payer_named in
                let full =
                  enforce_platform_fee-ok sha256 quote_text receipt_text
                    (platform_quoted size ah "testnet-payer" amount) (mutation_vector size)
                    (pos amount) "testnet-payer" r paid in
                rw (quoting, h, k, paid) (ground (arith, full.in_full))
          ]
        ]
