-- ===== src/Reputation/Events.antt =====
-- Events of reputation and the state that they add up to. The SHA-256 of hashlib and the decimal
-- digits of Python's `str` are parameters. A ValidationError is its message; the OverflowError of
-- `to_bytes` is "int too big to convert".
use nyx_dirty_and_develop.Base.{
  Bool, true, false, not, ◌&&◌, ◌||◌, List, [], ◌∷◌, ◌++◌, map, String, codes, text_append, ltb,
  ◌==◌, length, if◌then◌else◌, Result, ok, ◌>>=◌, ◌>>◌, raise_if, compare_digest, Bytes, be32,
}
use nyx_dirty_and_develop.Base.Int.{ℤ, pos, ◌+ℤ◌, ◌-ℤ◌, leb_ℤ}

abbrev pub Outcome : Type 0 → Type 0
Outcome A = Result String A

pub data RepEventKind : Type 0 where
  earn spend slash : RepEventKind

-- `kind.value`, encoded
abbrev pub kind_bytes : RepEventKind → Bytes
kind_bytes earn = codes "EARN"
kind_bytes spend = codes "SPEND"
kind_bytes slash = codes "SLASH"

pub record RepEvent : Type 0 where
  pub context_id : Bytes
  pub pseudonym_id : Bytes
  pub kind : RepEventKind
  pub amount : ℤ
  pub nonce : Bytes
  pub event_id : Bytes

pub record RepState : Type 0 where
  pub context_id : Bytes
  pub pseudonym_id : Bytes
  pub events : List RepEvent
  pub score : ℤ
  pub root : Bytes

unfoldable pub ensure_bytes32 : Bytes → String → Outcome (Unit {0})
ensure_bytes32 value name =
    raise_if (not (length value == 32)) (text_append name " must be 32 bytes")

unfoldable pub framed : List Bytes → Outcome Bytes
framed [] = ok []
framed (part ∷ parts) = do
  raise_if (not (ltb (length part) 4294967296)) "int too big to convert"
  rest ← framed parts
  ok (be32 (length part) ++ (part ++ rest))

-- Whether a byte string is not after another in Python's order
abbrev pub not_after : Bytes → Bytes → Bool
not_after [] bs = true
not_after (a ∷ as') [] = false
not_after (a ∷ as') (b ∷ bs) = ltb a b || (a == b && not_after as' bs)

abbrev pub insert_id : Bytes → List Bytes → List Bytes
insert_id x [] = x ∷ []
insert_id x (y ∷ ys) = if not_after x y then x ∷ y ∷ ys else y ∷ insert_id x ys

abbrev pub sorted_ids : List Bytes → List Bytes
sorted_ids [] = []
sorted_ids (x ∷ xs) = insert_id x (sorted_ids xs)

-- The loop of `RepState.__post_init__` over the events
unfoldable pub check_events : Bytes → Bytes → List RepEvent → Outcome (Unit {0})
check_events context pseudonym [] = ok tt
check_events context pseudonym (e ∷ es) = do
  raise_if (not (compare_digest e.context_id context)) "event context mismatch"
  raise_if (not (compare_digest e.pseudonym_id pseudonym)) "event pseudonym mismatch"
  check_events context pseudonym es

-- The score after an event
abbrev pub scored : ℤ → RepEvent → ℤ
scored score e = elim e.kind [
  | earn ↦ score +ℤ e.amount
  | spend ↦ score -ℤ e.amount
  | slash ↦ score -ℤ e.amount
]

module _ (sha256 : Bytes → Bytes) (decimal : ℤ → Bytes) where
  unfoldable pub compute_event_id : Bytes → Bytes → RepEventKind → ℤ → Bytes → Outcome Bytes
  compute_event_id context_id pseudonym_id kind amount nonce = do
    ensure_bytes32 context_id "context_id"
    ensure_bytes32 pseudonym_id "pseudonym_id"
    raise_if (leb_ℤ amount (pos 0)) "amount must be > 0"
    ensure_bytes32 nonce "nonce"
    preimage ← framed (
        codes "NYX:REP:EVENT:v1"
        ∷ context_id
        ∷ pseudonym_id
        ∷ kind_bytes kind
        ∷ decimal amount
        ∷ nonce
        ∷ [])
    ensure_bytes32 (sha256 preimage) "event_id"
    ok (sha256 preimage)

  -- `RepEvent.__post_init__`
  unfoldable pub check_event : RepEvent → Outcome RepEvent
  check_event e = do
    ensure_bytes32 e.context_id "context_id"
    ensure_bytes32 e.pseudonym_id "pseudonym_id"
    raise_if (leb_ℤ e.amount (pos 0)) "amount must be > 0"
    ensure_bytes32 e.nonce "nonce"
    ensure_bytes32 e.event_id "event_id"
    expected ← compute_event_id e.context_id e.pseudonym_id e.kind e.amount e.nonce
    raise_if (not (compare_digest e.event_id expected)) "event_id mismatch"
    ok e

  unfoldable pub new_event : Bytes → Bytes → RepEventKind → ℤ → Bytes → Outcome RepEvent
  new_event context_id pseudonym_id kind amount nonce = do
    event_id ← compute_event_id context_id pseudonym_id kind amount nonce
    check_event (record {
      context_id = context_id;
      pseudonym_id = pseudonym_id;
      kind = kind;
      amount = amount;
      nonce = nonce;
      event_id = event_id;
    })

  unfoldable pub new_pseudonym : Bytes → Bytes → Outcome Bytes
  new_pseudonym secret_commitment context_id = do
    ensure_bytes32 context_id "context_id"
    ensure_bytes32 secret_commitment "secret_commitment"
    preimage ← framed (codes "NYX:REP:PSEUDONYM:v1" ∷ context_id ∷ secret_commitment ∷ [])
    ensure_bytes32 (sha256 preimage) "pseudonym_id"
    ok (sha256 preimage)

  -- `_compute_root`
  unfoldable pub compute_root : Bytes → Bytes → List RepEvent → ℤ → Outcome Bytes
  compute_root context_id pseudonym_id events score = do
    ensure_bytes32 context_id "context_id"
    ensure_bytes32 pseudonym_id "pseudonym_id"
    preimage ← framed (
        codes "NYX:REP:ROOT:v1"
        ∷ context_id
        ∷ pseudonym_id
        ∷ decimal score
        ∷ sorted_ids (map (λ (e : RepEvent). e.event_id) events))
    ensure_bytes32 (sha256 preimage) "root"
    ok (sha256 preimage)

  abbrev pub recompute_root : RepState → Outcome Bytes
  recompute_root s = compute_root s.context_id s.pseudonym_id s.events s.score

  -- `RepState.__post_init__`
  unfoldable pub check_state : RepState → Outcome RepState
  check_state s = do
    ensure_bytes32 s.context_id "context_id"
    ensure_bytes32 s.pseudonym_id "pseudonym_id"
    check_events s.context_id s.pseudonym_id s.events
    ensure_bytes32 s.root "root"
    expected ← recompute_root s
    raise_if (not (compare_digest s.root expected)) "root mismatch"
    ok s

  unfoldable pub empty_state : Bytes → Bytes → Outcome RepState
  empty_state context_id pseudonym_id = do
    ensure_bytes32 context_id "context_id"
    ensure_bytes32 pseudonym_id "pseudonym_id"
    root ← compute_root context_id pseudonym_id [] (pos 0)
    check_state (record {
      context_id = context_id;
      pseudonym_id = pseudonym_id;
      events = [];
      score = pos 0;
      root = root;
    })

  unfoldable pub apply_event : RepState → RepEvent → Outcome RepState
  apply_event s e = do
    raise_if (not (compare_digest s.context_id e.context_id)) "context mismatch"
    raise_if (not (compare_digest s.pseudonym_id e.pseudonym_id)) "pseudonym mismatch"
    root ← compute_root s.context_id s.pseudonym_id (s.events ++ (e ∷ [])) (scored s.score e)
    check_state (record {
      context_id = s.context_id;
      pseudonym_id = s.pseudonym_id;
      events = s.events ++ (e ∷ []);
      score = scored s.score e;
      root = root;
    })
