-- ===== src/Router/State.antt =====
-- The types of packages/l3-router: actions.py, receipts.py, state.py; and the receipt of
-- packages/l3-dex (receipts.py). A hash is a list of bytes.
use nyx_dirty_and_develop.Base.{ℕ, List, String}
use nyx_dirty_and_develop.Dex.{DexState, Swap}

abbrev pub Bytes : Type 0
Bytes = List ℕ

pub data ActionKind : Type 0 where
  create_pool_kind add_liquidity_kind remove_liquidity_kind swap_kind : ActionKind

pub record DexReceipt : Type 0 where
  pub action : ActionKind
  pub pool_id : String
  pub state_hash : Bytes

pub record RouterState : Type 0 where
  pub dex_state : DexState

-- `RouterActionKind`, or any other object in its place.
pub data RouterActionKind : Type 0 where
  route_swap : RouterActionKind
  unsupported : RouterActionKind

pub record RouteSwap : Type 0 where
  pub steps : List Swap

pub record RouterAction : Type 0 where
  pub kind : RouterActionKind
  pub payload : RouteSwap

pub record RouterReceipt : Type 0 where
  pub action : RouterActionKind
  pub state_hash : Bytes
  pub steps : List Swap
  pub step_receipts : List DexReceipt
