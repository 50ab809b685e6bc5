-- ===== src/Private/Replay.antt =====
-- The traces that `replay_and_verify` accepts.
use nyx_dirty_and_develop.Base.{
  ◌≡◌, refl, ap, ◌∙◌, true, arith, List, [], ◌∷◌, map, String, length, All, ok, >>=-eq-ok,
  compare_digest, compare_digest_iff, Bytes,
}
use nyx_dirty_and_develop.Private.Ledger.{
  LedgerState, LedgerAction, LedgerTraceEntry, LedgerTrace, ensure_bytes32, apply_action,
  recompute_root, run_actions, run_actions_with_trace, replay_entries, replay_and_verify,
}

abbrev pub actions_of : List LedgerTraceEntry → List LedgerAction
actions_of entries = map (λ (e : LedgerTraceEntry). e.action) entries

ensure_bytes32-ok :
    (v w : Bytes) (message : String) → ensure_bytes32 v message ≡ ok w → (w ≡ v) × (length v ≡ 32)
unfolding ensure_bytes32
ensure_bytes32-ok v w message h = ground arith

module _ (sha256 : Bytes → Bytes) where
  replay_step :
      (s next : LedgerState) (action : LedgerAction) (root : Bytes) (rest : List LedgerTraceEntry)
      → apply_action s action ≡ ok next
      → recompute_root sha256 next ≡ ok root
      → replay_entries sha256 next rest ≡ ok true
      → replay_entries sha256 s (record { action = action; after_root = root } ∷ rest) ≡ ok true
  unfolding replay_entries
  replay_step s next action root rest e₁ e₂ h =
      let equal : compare_digest root root ≡ true = (compare_digest_iff root root).1 refl in
      rw (e₁, e₂, equal) h

  run_step :
      (s next final : LedgerState) (action : LedgerAction) (root : Bytes)
      (actions : List LedgerAction) (entries : List LedgerTraceEntry)
      → apply_action s action ≡ ok next
      → recompute_root sha256 next ≡ ok root
      → length root ≡ 32
      → run_actions sha256 next actions ≡ ok (final, entries)
      → run_actions sha256 s (action ∷ actions)
        ≡ ok (final, record { action = action; after_root = root } ∷ entries)
  unfolding run_actions ensure_bytes32
  run_step s next final action root actions entries e₁ e₂ size h = rw (e₁, e₂, size, h) refl

  run_entries :
      (s final : LedgerState) (actions : List LedgerAction) (entries : List LedgerTraceEntry)
      → run_actions sha256 s actions ≡ ok (final, entries)
      → (replay_entries sha256 s entries ≡ ok true) × (actions_of entries ≡ actions)
  unfolding run_actions replay_entries
  run_entries s final [] entries h = let e : entries ≡ [] = ground arith in rw e (refl, refl)
  run_entries s final (action ∷ actions) entries h =
      let (next, e₁, h₁) = >>=-eq-ok (apply_action s action) _ h in
      let (root, e₂, h₂) = >>=-eq-ok (recompute_root sha256 next) _ h₁ in
      let (after, e₃, h₃) = >>=-eq-ok (ensure_bytes32 root "after_root must be 32 bytes") _ h₂ in
      let ((fin, rest), e₄, h₄) = >>=-eq-ok (run_actions sha256 next actions) _ h₃ in
      let (same, _) = ensure_bytes32-ok root after _ e₃ in
      let (replayed, acts) = run_entries next fin actions rest e₄ in
      let e : entries ≡ record { action = action; after_root = root } ∷ rest = ground arith in
      rw e (replay_step s next action root rest e₁ e₂ replayed, ap (λ w. action ∷ w) acts)

  -- The trace of a run that returns is accepted from the state that the run started in, and its
  -- entries are the actions of the run, in order.
  pub replay-run_actions :
      (s final : LedgerState) (actions : List LedgerAction) (trace : LedgerTrace)
      → run_actions_with_trace sha256 s actions ≡ ok (final, trace)
      → (replay_and_verify sha256 s trace ≡ ok true) × (actions_of trace.entries ≡ actions)
  unfolding run_actions_with_trace replay_and_verify
  replay-run_actions s final actions trace h =
      let ((fin, entries), e, h₁) = >>=-eq-ok (run_actions sha256 s actions) _ h in
      let same : trace.entries ≡ entries = ground arith in
      rw same (run_entries s fin actions entries e)

  entries_run :
      (s : LedgerState) (entries : List LedgerTraceEntry)
      → All (λ (e : LedgerTraceEntry). length e.after_root ≡ 32) entries
      → replay_entries sha256 s entries ≡ ok true
      → (final : LedgerState) × (run_actions sha256 s (actions_of entries) ≡ ok (final, entries))
  unfolding run_actions replay_entries
  entries_run s [] sizes h = (s, refl)
  entries_run s (entry ∷ entries) (size, sizes) h =
      let (next, e₁, h₁) = >>=-eq-ok (apply_action s entry.action) _ h in
      let (root, e₂, h₂) = >>=-eq-ok (recompute_root sha256 next) _ h₁ in
      let equal : compare_digest root entry.after_root ≡ true = ground (arith, h₂) in
      let same : root ≡ entry.after_root = (compare_digest_iff root entry.after_root).0 equal in
      let (final, rest) = entries_run next entries sizes (ground (arith, h₂)) in
      (
        final,
        run_step s next final entry.action entry.after_root _ _ e₁ (e₂ ∙ ap ok same) size rest,
      )

  -- A trace that is accepted is the trace of the run of its actions: the run returns, and gives
  -- back the entries of the trace, roots included. Entries hold roots of 32 bytes.
  pub run_actions-replay :
      (s : LedgerState) (trace : LedgerTrace)
      → All (λ (e : LedgerTraceEntry). length e.after_root ≡ 32) trace.entries
      → replay_and_verify sha256 s trace ≡ ok true
      → (final : LedgerState) × (run_actions_with_trace sha256 s (actions_of trace.entries)
          ≡ ok (final, record { entries = trace.entries; final_state = final }))
  unfolding run_actions_with_trace replay_and_verify
  run_actions-replay s trace sizes h =
      let (final, e) = entries_run s trace.entries sizes h in (final, rw e refl)
