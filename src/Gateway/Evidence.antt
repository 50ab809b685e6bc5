-- ===== src/Gateway/Evidence.antt =====
-- evidence_adapter.py: what a request records of its run. The run itself, `run_evidence` of the
-- backend, writes files; its outcome, or its message when it raises, is an argument.
use nyx_dirty_and_develop.Base.{ℕ, String, Bool, List, Result, ok, err}
use nyx_dirty_and_develop.Gateway.Monad.{M, gateway, pure, check, ◌>>=◌, ◌>>◌}
use nyx_dirty_and_develop.Gateway.Validate.{Checked}
use nyx_dirty_and_develop.Gateway.Inserts.{insert_evidence_run, insert_receipt}
use nyx_dirty_and_develop.Gateway.Store.{Conn}

pub record EvidenceOutcome : Type 0 where
  pub state_hash : String
  pub receipt_hashes : List String
  pub replay_ok : Bool

abbrev pub Evidence : Type 0
Evidence = Result String EvidenceOutcome

-- `except EvidenceError as exc: raise GatewayError(str(exc))`
abbrev pub reraise : Evidence → Checked EvidenceOutcome
reraise (ok e) = ok e
reraise (err m) = err (gateway m)

module _ (make_id : String → String → String) where
  unfoldable pub run_and_record : ℕ → String → String → String → Evidence → M Conn EvidenceOutcome
  run_and_record seed run_id module_name action evidence = do
    e ← check (reraise evidence)
    insert_evidence_run (record {
      run_id = run_id;
      module_name = module_name;
      action = action;
      seed = seed;
      state_hash = e.state_hash;
      receipt_hashes = e.receipt_hashes;
      replay_ok = e.replay_ok;
    })
    insert_receipt (record {
      receipt_id = make_id "receipt" run_id;
      module_name = module_name;
      action = action;
      state_hash = e.state_hash;
      receipt_hashes = e.receipt_hashes;
      replay_ok = e.replay_ok;
      run_id = run_id;
    })
    pure e
