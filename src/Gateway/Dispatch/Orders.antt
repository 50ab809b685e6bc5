-- ===== src/Gateway/Dispatch/Orders.antt =====
-- What the requests of the exchange leave: an order that is refused, a cancellation that returns.
use nyx_dirty_and_develop.Base.{
  ℕ, ◌<◌, ◌≡◌, ◌≢◌, refl, sym, ◌∙◌, Bool-cases, inl, inr, true, not, arith, String, text_eq,
  text_discrete, ok, err, some, raise_if, raise_if-ok, or_raise, or_raise-ok, Option, Option-cases,
  if◌then◌else◌, List,
}
use nyx_dirty_and_develop.Fees.{Payload}
use nyx_dirty_and_develop.Gateway.Monad.{gateway, follow-check, follow-eq-ok, fail_if, fail_if-ok}
use nyx_dirty_and_develop.Gateway.Validate.{Checked}
use nyx_dirty_and_develop.Gateway.Fields.{Value, Fields, integers}
use nyx_dirty_and_develop.Gateway.Tables.{select_one, insert_or_replace, update_where}
use nyx_dirty_and_develop.Gateway.Tables.Laws.{select_one-update_where}
use nyx_dirty_and_develop.Gateway.Wallet.{balance_of, supply}
use nyx_dirty_and_develop.Gateway.Wallet.Evaluate.{IsKey, get_valid}
use nyx_dirty_and_develop.Gateway.Transfers.{apply_wallet_transfer}
use nyx_dirty_and_develop.Gateway.Transfers.Laws.{
  apply_wallet_transfer-ok, apply_wallet_transfer_to_treasury,
}
use nyx_dirty_and_develop.Gateway.Orders.{order_key, update_order_status}
use nyx_dirty_and_develop.Gateway.Exchange.{cancel_order}
use nyx_dirty_and_develop.Gateway.Inserts.{insert_fee_ledger, insert_evidence_run, insert_receipt}
use nyx_dirty_and_develop.Gateway.Inserts.Laws.{
  both, insert_fee_ledger-ok, insert_evidence_run-ok, insert_receipt-ok,
}
use nyx_dirty_and_develop.Gateway.Evidence.{Evidence, EvidenceOutcome, run_and_record, reraise}
use nyx_dirty_and_develop.Gateway.Marketplace.{
  check_caller, check_balance, require_balance, nyxt_transfer,
}
use nyx_dirty_and_develop.Gateway.Marketplace.Sales.{fee_key, committing-ok}
use nyx_dirty_and_develop.Gateway.Store.{
  Db, Conn, FeeLedger, OrderRow, EvidenceRun, Receipt, is_open, cancelled, request, request-ok,
  committing,
}
use nyx_dirty_and_develop.Gateway.Dispatch.Defs.{
  OrderRequest, validate_exchange_payload, validate_cancel, as_gateway, is_open_row, load_order,
  check_owner, check_cancel, no_integers, required_nyxt, pay_fee, fill_and_pay, execute_place_order,
  cancel_and_pay, execute_cancel_order,
}

-- `c'` is what a run that has been recorded leaves of `c`: the evidence alone is new.
abbrev Recorded : Conn → Conn → Type 0
Recorded c c' =
    c'
    ≡ both (record c.working {
      evidence_runs = c'.working.evidence_runs;
      receipts = c'.working.receipts;
    })

run_and_record-ok :
    (make_id : String → String → String) (seed : ℕ) (run_id module_name action : String)
    (e : Evidence) (c c' : Conn) (o : EvidenceOutcome)
    → run_and_record make_id seed run_id module_name action e c ≡ (ok o, c')
    → Recorded c c'
unfolding run_and_record
run_and_record-ok make_id seed run_id module_name action e c c' o h =
    let (x, e₁, h₁) = follow-check (reraise e) c _ h in
    let r : EvidenceRun = record {
      run_id = run_id;
      module_name = module_name;
      action = action;
      seed = seed;
      state_hash = x.state_hash;
      receipt_hashes = x.receipt_hashes;
      replay_ok = x.replay_ok;
    } in
    let (u₂, c₂, e₂, h₂) = follow-eq-ok (insert_evidence_run r c) _ h₁ in
    let ec₂ = insert_evidence_run-ok r c c₂ u₂ e₂ in
    let t : Receipt = record {
      receipt_id = make_id "receipt" run_id;
      module_name = module_name;
      action = action;
      state_hash = x.state_hash;
      receipt_hashes = x.receipt_hashes;
      replay_ok = x.replay_ok;
      run_id = run_id;
    } in
    let (u₃, c₃, e₃, h₃) = follow-eq-ok (insert_receipt t c₂) _ h₂ in
    let ec₃ = insert_receipt-ok t c₂ c₃ u₃ e₃ in ground (arith, ec₂, ec₃)

-- A balance that is too small.
require_balance_short :
    (a s : String) (n : ℕ) (m : String) (c : Conn)
    → IsKey a s
    → balance_of a s c.working.accounts < n
    → ((require_balance a s n m c).0 ≡ err (gateway m))
      × ((require_balance a s n m c).1.committed ≡ c.committed)
unfolding require_balance
require_balance_short a s n m c k short = ground (arith, get_valid a s c.working.accounts k, short)

check_balance_short :
    (a : String) (n : ℕ) (m : String) (c : Conn)
    → a ≢ ""
    → IsKey a "NYXT"
    → balance_of a "NYXT" c.working.accounts < n
    → ((check_balance a n m c).0 ≡ err (gateway m))
      × ((check_balance a n m c).1.committed ≡ c.committed)
unfolding check_balance
check_balance_short a n m c named k short = elim (text_discrete a "") [
  | yes e ↦ absurd (named e)
  | no _ ↦ ground (arith, require_balance_short a "NYXT" n m c k short)
]

module _ (str : Value → String) (upper : String → String)
    (route_fee : String → String → Payload → String → Checked FeeLedger)
    (make_id : String → String → String) (fee_address : String)
    (trade_id : String → String → ℕ → String) where
  fill_and_pay_short :
      (run_id : String) (v : OrderRequest) (caller : String) (fee : FeeLedger) (c : Conn)
      → caller ≢ ""
      → IsKey caller "NYXT"
      → balance_of caller "NYXT" c.working.accounts < required_nyxt v fee
      → ((fill_and_pay str upper route_fee make_id fee_address trade_id run_id v caller fee c).0
          ≡ err (gateway "insufficient NYXT balance for amount + fee"))
        × ((fill_and_pay str upper route_fee make_id fee_address trade_id run_id v caller fee
              c).1.committed
            ≡ c.committed)
  unfolding fill_and_pay
  fill_and_pay_short run_id v caller fee c named k short =
      let (e, t) =
        check_balance_short caller (required_nyxt v fee)
          "insufficient NYXT balance for amount + fee" c named k short in
      ground (arith, e, t)

  -- An order of a caller whose NYXT does not cover the fee, and the amount if it is paid in NYXT,
  -- is refused once its run and its fee have been recorded: the request raises, the balances, the
  -- transfers and the orders are as before, and the table of fees has the record of the fee.
  pub execute_place_order_short :
      (seed : ℕ) (run_id : String) (p : Fields) (caller : String) (evidence : Evidence) (d : Db)
      (v : OrderRequest) (o : EvidenceOutcome) (fee : FeeLedger) (c₁ c₂ : Conn)
      → validate_exchange_payload str upper p ≡ ok v
      → check_caller caller v.owner_address "owner_address mismatch" ≡ ok tt
      → run_and_record make_id seed run_id "exchange" "place_order" evidence (both d) ≡ (ok o, c₁)
      → route_fee "exchange" "place_order" (integers v.fields) run_id ≡ ok fee
      → insert_fee_ledger fee c₁ ≡ (ok tt, c₂)
      → caller ≢ ""
      → IsKey caller "NYXT"
      → balance_of caller "NYXT" d.accounts < required_nyxt v fee
      → (db' : Db) × (request
            (execute_place_order str upper route_fee make_id fee_address trade_id seed run_id p
              caller
              (ok tt)
              evidence)
            d
          ≡ (err (gateway "insufficient NYXT balance for amount + fee"), db'))
        × (db'.accounts ≡ d.accounts)
        × (db'.transfers ≡ d.transfers)
        × (db'.orders ≡ d.orders)
        × (db'.fees ≡ insert_or_replace fee_key fee d.fees)
  unfolding execute_place_order
  execute_place_order_short seed run_id p caller evidence d v o fee c₁ c₂ asked owner run routed
        charged named k short =
      let recorded =
        run_and_record-ok make_id seed run_id "exchange" "place_order" evidence (both d) c₁ o run in
      let kept = insert_fee_ledger-ok fee c₁ c₂ tt charged in
      let (raised, left) =
        fill_and_pay_short run_id v caller fee c₂ named k (ground (arith, kept, recorded, short)) in
      (
        c₂.committed,
        ground (arith, asked, owner, run, routed, charged, raised, left),
        ground (arith, kept, recorded),
        ground (arith, kept, recorded),
        ground (arith, kept, recorded),
        ground (arith, kept, recorded),
      )

  load_order-ok :
      (id : String) (c c' : Conn) (o : Option OrderRow)
      → load_order id c ≡ (ok o, c')
      → (c' ≡ c) × (o ≡ select_one order_key id c.working.orders)
  unfolding load_order
  load_order-ok id c c' o h = ground arith

  -- The order of a cancellation that its caller may make.
  check_owner-ok :
      (caller id : String) (c c' : Conn) (u : Unit {0})
      → check_owner caller id c ≡ (ok u, c')
      → (c' ≡ c)
        × ((r : OrderRow) × (select_one order_key id c.working.orders ≡ some r)
            × (r.owner_address ≡ caller)
            × (r.status ≡ is_open))
  unfolding check_owner
  check_owner-ok caller id c c' u h =
      let (o, c₁, e₁, h₁) = follow-eq-ok (load_order id c) _ h in
      let (ec₁, eo) = load_order-ok id c c₁ o e₁ in
      let (r, e₂, h₂) = follow-check (or_raise o (gateway "order_id not found")) c₁ _ h₁ in
      let (u₃, e₃, h₃) =
        follow-check
          (raise_if (not (text_eq r.owner_address caller)) (gateway "order_id ownership mismatch"))
          c₁ _ h₂ in
      (
        ground (arith, ec₁),
        (
          r,
          sym eo ∙ or_raise-ok o _ r e₂,
          ground (arith, raise_if-ok _ _ u₃ e₃),
          open_of r (ground arith),
        ),
      )
    where
      open_of : (r : OrderRow) → is_open_row r ≡ true → r.status ≡ is_open
      open_of r h = ground arith

  cancel_order-ok :
      (id : String) (c c' : Conn) (u : Unit {0})
      → as_gateway (cancel_order id c) ≡ (ok u, c')
      → c'
        ≡ both (record c.working {
          orders =
              update_where order_key id (λ r. record r { status = cancelled }) c.working.orders;
        })
  unfolding cancel_order update_order_status
  cancel_order-ok id c c' u h = ground arith

  check_cancel-ok :
      (caller id : String) (c c' : Conn) (u : Unit {0})
      → caller ≢ ""
      → check_cancel caller id c ≡ (ok u, c')
      → (c' ≡ c)
        × ((r : OrderRow) × (select_one order_key id c.working.orders ≡ some r)
            × (r.owner_address ≡ caller)
            × (r.status ≡ is_open))
  unfolding check_cancel
  check_cancel-ok caller id c c' u named h = elim (Bool-cases (text_eq caller "")) [
    | inl e ↦ absurd (named (ground (arith, e)))
    | inr e ↦ check_owner-ok caller id c c' u (rw e at h)
  ]

  cancelled_row :
      (r : OrderRow) (id j : String) (xs ys : List OrderRow)
      → select_one order_key id xs ≡ some r
      → ys ≡ update_where order_key id (λ q. record q { status = cancelled }) xs
      → select_one order_key j ys ≡ (
          if text_eq id j
          then some (record r { status = cancelled })
          else select_one order_key j xs)
  cancelled_row r id j xs ys found e =
      let after =
        select_one-update_where order_key id j (λ q. record q { status = cancelled }) xs
          (λ q. refl) in
      elim (text_discrete id j) [
        | yes same ↦ rw e (ground (arith, same, found, after))
        | no other ↦ rw e (ground (arith, other, Option-cases (select_one order_key j xs), after))
      ]

  -- The fee moves from the caller to the treasury.
  pay_fee-ok :
      (run_id caller : String) (fee : FeeLedger) (c c' : Conn) (u : Unit {0})
      → pay_fee str upper route_fee make_id fee_address trade_id run_id caller fee c ≡ (ok u, c')
      → (c'
          ≡ both (record c.working {
            accounts = c'.working.accounts;
            transfers = c'.working.transfers;
          }))
        × (supply "NYXT" c'.working.accounts ≡ supply "NYXT" c.working.accounts)
  unfolding pay_fee
  pay_fee-ok run_id caller fee c c' u h =
      let t = nyxt_transfer (make_id "fee" run_id) caller fee.fee_address 0 fee run_id in
      let (u₁, c₁, e₁, h₁) =
        follow-eq-ok (fail_if (text_eq caller "") (gateway "auth required") c) _ h in
      let (_, ec₁) = fail_if-ok (text_eq caller "") (gateway "auth required") c e₁ in
      let (b, c₂, e₂, h₂) = follow-eq-ok (committing (apply_wallet_transfer t) c₁) _ h₁ in
      let (e₃, ec₂) = committing-ok (apply_wallet_transfer t) c₁ c₂ b e₂ in
      let (amt, f, w) = apply_wallet_transfer-ok t c₁.working c₂.working b e₃ in
      let kept = apply_wallet_transfer_to_treasury t 0 c₁.working c₂.working b refl refl refl e₃ in
      (ground (arith, ec₁, ec₂, w.recorded), ground (arith, ec₁, kept))

  cancel_and_pay-ok :
      (run_id id caller : String) (fee : FeeLedger) (c c' : Conn) (u : Unit {0})
      → caller ≢ ""
      → cancel_and_pay str upper route_fee make_id fee_address trade_id run_id id caller fee c
        ≡ (ok u, c')
      → (r : OrderRow) × (select_one order_key id c.working.orders ≡ some r)
        × (r.owner_address ≡ caller)
        × (r.status ≡ is_open)
        × (c'.committed.orders
            ≡ update_where order_key id (λ r. record r { status = cancelled }) c.working.orders)
        × (supply "NYXT" c'.committed.accounts ≡ supply "NYXT" c.working.accounts)
  unfolding cancel_and_pay
  cancel_and_pay-ok run_id id caller fee c c' u named h =
      let (u₁, c₁, e₁, h₁) = follow-eq-ok (check_cancel caller id c) _ h in
      let (ec₁, (r, found, owned, is_live)) = check_cancel-ok caller id c c₁ u₁ named e₁ in
      let (u₂, c₂, e₂, h₂) = follow-eq-ok (as_gateway (cancel_order id c₁)) _ h₁ in
      let ec₂ = cancel_order-ok id c₁ c₂ u₂ e₂ in
      let (ec₃, kept) = pay_fee-ok run_id caller fee c₂ c' u h₂ in
      (r, found, owned, is_live, ground (arith, ec₁, ec₂, ec₃), ground (arith, ec₁, ec₂, ec₃, kept))

  -- A cancellation that returns to a caller with an address cancels an open order of that caller:
  -- no other order has changed, and the supply of NYXT is as before.
  pub execute_cancel_order-cancels :
      (seed : ℕ) (run_id : String) (p : Fields) (caller : String) (clearance : Checked (Unit {0}))
      (evidence : Evidence) (d db' : Db) (o : EvidenceOutcome)
      → caller ≢ ""
      → request
          (execute_cancel_order str upper route_fee make_id fee_address trade_id seed run_id p
            caller clearance evidence)
          d
        ≡ (ok o, db')
      → (id : String) × (r : OrderRow) × (validate_cancel p ≡ ok id)
        × (select_one order_key id d.orders ≡ some r)
        × (r.owner_address ≡ caller)
        × (r.status ≡ is_open)
        × ((j : String)
            → select_one order_key j db'.orders ≡ (
                if text_eq id j
                then some (record r { status = cancelled })
                else select_one order_key j d.orders))
        × (supply "NYXT" db'.accounts ≡ supply "NYXT" d.accounts)
  unfolding execute_cancel_order
  execute_cancel_order-cancels seed run_id p caller clearance evidence d db' o named h =
      let (c', e, ed) =
        request-ok
          (execute_cancel_order str upper route_fee make_id fee_address trade_id seed run_id p
            caller clearance evidence)
          d db' o h in
      let (id, e₁, h₁) = follow-check (validate_cancel p) (both d) _ e in
      let (_, _, h₂) = follow-check clearance (both d) _ h₁ in
      let (x, c₃, e₃, h₃) =
        follow-eq-ok
          (run_and_record make_id seed run_id "exchange" "cancel_order" evidence (both d)) _ h₂ in
      let ec₃ =
        run_and_record-ok make_id seed run_id "exchange" "cancel_order" evidence (both d) c₃ x e₃ in
      let (fee, e₄, h₄) =
        follow-check (route_fee "exchange" "cancel_order" no_integers run_id) c₃ _ h₃ in
      let (u₅, c₅, e₅, h₅) = follow-eq-ok (insert_fee_ledger fee c₃) _ h₄ in
      let ec₅ = insert_fee_ledger-ok fee c₃ c₅ u₅ e₅ in
      let (u₆, c₆, e₆, h₆) =
        follow-eq-ok
          (cancel_and_pay str upper route_fee make_id fee_address trade_id run_id id caller fee c₅)
          _ h₅ in
      let (r, found, owned, is_live, orders, kept) =
        cancel_and_pay-ok run_id id caller fee c₅ c₆ u₆ named e₆ in
      let found' : select_one order_key id d.orders ≡ some r = ground (arith, found, ec₅, ec₃) in
      let orders' : db'.orders
          ≡ update_where order_key id (λ q. record q { status = cancelled }) d.orders =
        ground (arith, orders, ec₅, ec₃, ed, h₆) in
      (
        id,
        r,
        e₁,
        found',
        owned,
        is_live,
        λ j. cancelled_row r id j d.orders db'.orders found' orders',
        ground (arith, kept, ec₅, ec₃, ed, h₆),
      )
