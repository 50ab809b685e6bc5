-- ===== src/Private/Ledger.antt =====
-- The private ledger: two sets of 32-byte values, its root, its actions, and traces. The SHA-256 of
-- hashlib is a parameter; a frozenset is the list of its elements, in the order of their insertion.
use nyx_dirty_and_develop.Base.{
  Bool, true, false, not, ◌&&◌, ◌||◌, List, [], ◌∷◌, ◌++◌, String, ltb, ◌==◌, length, if◌then◌else◌,
  Result, ok, err, ◌>>=◌, ◌>>◌, raise_if, compare_digest, Bytes, be32,
}

-- The exceptions, by class and message; `overflow` is the OverflowError of `to_bytes`.
pub data LedgerError : Type 0 where
  validation ledger double_spend : String → LedgerError
  overflow : LedgerError

abbrev pub Outcome : Type 0 → Type 0
Outcome A = Result LedgerError A

pub record LedgerState : Type 0 where
  pub commitments : List Bytes
  pub nullifiers : List Bytes

abbrev pub empty_state : LedgerState
empty_state = record { commitments = []; nullifiers = [] }

-- `LedgerAction`, with the payload of its kind
pub data LedgerAction : Type 0 where
  private_mint : (commitment : Bytes) → LedgerAction
  private_spend : (nullifier : Bytes) → LedgerAction

unfoldable pub ensure_bytes32 : Bytes → String → Outcome Bytes
ensure_bytes32 value message = if length value == 32 then ok value else err (validation message)

-- `framed`
unfoldable pub framed : List Bytes → Outcome Bytes
framed [] = ok []
framed (part ∷ parts) = do
  raise_if (not (ltb (length part) 4294967296)) overflow
  rest ← framed parts
  ok (be32 (length part) ++ (part ++ rest))

-- Whether a byte string is not after another in Python's order
abbrev pub not_after : Bytes → Bytes → Bool
not_after [] bs = true
not_after (a ∷ as') [] = false
not_after (a ∷ as') (b ∷ bs) = ltb a b || (a == b && not_after as' bs)

abbrev pub insert_bytes : Bytes → List Bytes → List Bytes
insert_bytes x [] = x ∷ []
insert_bytes x (y ∷ ys) = if not_after x y then x ∷ y ∷ ys else y ∷ insert_bytes x ys

-- `_sorted_bytes`
abbrev pub sorted_bytes : List Bytes → List Bytes
sorted_bytes [] = []
sorted_bytes (x ∷ xs) = insert_bytes x (sorted_bytes xs)

-- `value in values`
unfoldable pub is_in : Bytes → List Bytes → Bool
is_in value [] = false
is_in value (x ∷ xs) = compare_digest x value || is_in value xs

unfoldable pub apply_action : LedgerState → LedgerAction → Outcome LedgerState
apply_action s (private_mint commitment) = do
  c ← ensure_bytes32 commitment "commitment must be 32 bytes"
  raise_if (is_in c s.commitments) (ledger "commitment already exists")
  ok (record s { commitments = s.commitments ++ (c ∷ []) })
apply_action s (private_spend nullifier) = do
  n ← ensure_bytes32 nullifier "nullifier must be 32 bytes"
  raise_if (is_in n s.nullifiers) (double_spend "nullifier already spent")
  ok (record s { nullifiers = s.nullifiers ++ (n ∷ []) })

pub record LedgerTraceEntry : Type 0 where
  pub action : LedgerAction
  pub after_root : Bytes

pub record LedgerTrace : Type 0 where
  pub entries : List LedgerTraceEntry
  pub final_state : LedgerState

-- The ASCII bytes of b"NYX:PL:C:v0", b"NYX:PL:N:v0" and b"NYX:PL:ROOT:v0"
abbrev pub commitments_tag : Bytes
commitments_tag = 78 ∷ 89 ∷ 88 ∷ 58 ∷ 80 ∷ 76 ∷ 58 ∷ 67 ∷ 58 ∷ 118 ∷ 48 ∷ []

abbrev pub nullifiers_tag : Bytes
nullifiers_tag = 78 ∷ 89 ∷ 88 ∷ 58 ∷ 80 ∷ 76 ∷ 58 ∷ 78 ∷ 58 ∷ 118 ∷ 48 ∷ []

abbrev pub root_tag : Bytes
root_tag = 78 ∷ 89 ∷ 88 ∷ 58 ∷ 80 ∷ 76 ∷ 58 ∷ 82 ∷ 79 ∷ 79 ∷ 84 ∷ 58 ∷ 118 ∷ 48 ∷ []

module _ (sha256 : Bytes → Bytes) where
  unfoldable pub recompute_root : LedgerState → Outcome Bytes
  recompute_root s = do
    commitments ← framed (commitments_tag ∷ sorted_bytes s.commitments)
    nullifiers ← framed (nullifiers_tag ∷ sorted_bytes s.nullifiers)
    root ← framed (root_tag ∷ sha256 commitments ∷ sha256 nullifiers ∷ [])
    ok (sha256 root)

  -- The loop of `run_actions_with_trace`: the state it ends in, and the entries. An entry checks
  -- the length of its root.
  unfoldable pub run_actions :
      LedgerState → List LedgerAction → Outcome (LedgerState × List LedgerTraceEntry)
  run_actions s [] = ok (s, [])
  run_actions s (action ∷ actions) = do
    next ← apply_action s action
    root ← recompute_root next
    after_root ← ensure_bytes32 root "after_root must be 32 bytes"
    (final, entries) ← run_actions next actions
    ok (final, record { action = action; after_root = after_root } ∷ entries)

  unfoldable pub run_actions_with_trace :
      LedgerState → List LedgerAction → Outcome (LedgerState × LedgerTrace)
  run_actions_with_trace s actions = do
    (final, entries) ← run_actions s actions
    ok (final, record { entries = entries; final_state = final })

  unfoldable pub replay_entries : LedgerState → List LedgerTraceEntry → Outcome Bool
  replay_entries s [] = ok true
  replay_entries s (entry ∷ entries) = do
    next ← apply_action s entry.action
    expected_root ← recompute_root next
    (if not (compare_digest expected_root entry.after_root)
        then ok false
        else replay_entries next entries)

  unfoldable pub replay_and_verify : LedgerState → LedgerTrace → Outcome Bool
  replay_and_verify s trace = replay_entries s trace.entries
