-- ===== src/Gateway/Inserts/Laws.antt =====
-- What the insertions of Inserts.antt leave in the tables when they return.
use nyx_dirty_and_develop.Base.{◌≡◌, ok, arith}
use nyx_dirty_and_develop.Gateway.Tables.{insert_or_replace}
use nyx_dirty_and_develop.Gateway.Store.{
  Db, Conn, FeeLedger, Listing, Purchase, FaucetClaim, AirdropClaim, MessageEvent, EvidenceRun,
  Receipt,
}
use nyx_dirty_and_develop.Gateway.Inserts.{
  insert_fee_ledger, insert_listing, insert_purchase, insert_message_event, insert_faucet_claim,
  insert_airdrop_claim, replace_claim, insert_evidence_run, insert_receipt,
}

-- Both sides of a connection after a call that has committed.
abbrev pub both : Db → Conn
both db = record { committed = db; working = db }

pub insert_evidence_run-ok :
    (r : EvidenceRun) (c c' : Conn) (u : Unit {0})
    → insert_evidence_run r c ≡ (ok u, c')
    → c'
      ≡ both (record c.working {
        evidence_runs = insert_or_replace (λ (e : EvidenceRun). e.run_id) r c.working.evidence_runs;
      })
unfolding insert_evidence_run
insert_evidence_run-ok r c c' u h = ground arith

pub insert_receipt-ok :
    (r : Receipt) (c c' : Conn) (u : Unit {0})
    → insert_receipt r c ≡ (ok u, c')
    → c'
      ≡ both (record c.working {
        receipts = insert_or_replace (λ (e : Receipt). e.receipt_id) r c.working.receipts;
      })
unfolding insert_receipt
insert_receipt-ok r c c' u h = ground arith

pub insert_fee_ledger-ok :
    (r : FeeLedger) (c c' : Conn) (u : Unit {0})
    → insert_fee_ledger r c ≡ (ok u, c')
    → c'
      ≡ both (record c.working {
        fees = insert_or_replace (λ (e : FeeLedger). e.fee_id) r c.working.fees;
      })
unfolding insert_fee_ledger
insert_fee_ledger-ok r c c' u h = ground arith

pub insert_listing-ok :
    (r : Listing) (c c' : Conn) (u : Unit {0})
    → insert_listing r c ≡ (ok u, c')
    → c'
      ≡ both (record c.working {
        listings = insert_or_replace (λ (e : Listing). e.listing_id) r c.working.listings;
      })
unfolding insert_listing
insert_listing-ok r c c' u h = ground arith

pub insert_purchase-ok :
    (r : Purchase) (c c' : Conn) (u : Unit {0})
    → insert_purchase r c ≡ (ok u, c')
    → c'
      ≡ both (record c.working {
        purchases = insert_or_replace (λ (e : Purchase). e.purchase_id) r c.working.purchases;
      })
unfolding insert_purchase
insert_purchase-ok r c c' u h = ground arith

pub insert_message_event-ok :
    (r : MessageEvent) (c c' : Conn) (u : Unit {0})
    → insert_message_event r c ≡ (ok u, c')
    → c'
      ≡ both (record c.working {
        messages = insert_or_replace (λ (e : MessageEvent). e.message_id) r c.working.messages;
      })
unfolding insert_message_event
insert_message_event-ok r c c' u h = ground arith

pub insert_faucet_claim-ok :
    (r : FaucetClaim) (db db' : Db) (u : Unit {0})
    → insert_faucet_claim r db ≡ (ok u, db')
    → db' ≡ record db {
      faucet_claims = insert_or_replace (λ (e : FaucetClaim). e.claim_id) r db.faucet_claims;
    }
unfolding insert_faucet_claim
insert_faucet_claim-ok r db db' u h = ground arith

pub insert_airdrop_claim-ok :
    (r : AirdropClaim) (db db' : Db) (u : Unit {0})
    → insert_airdrop_claim r db ≡ (ok u, db')
    → db' ≡ record db { airdrop_claims = replace_claim r db.airdrop_claims }
unfolding insert_airdrop_claim
insert_airdrop_claim-ok r db db' u h = ground arith
