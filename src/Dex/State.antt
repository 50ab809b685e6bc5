-- ===== src/Dex/State.antt =====
-- The types of packages/l3-dex: state.py, actions.py.
use nyx_dirty_and_develop.Base.{List, String}
use nyx_dirty_and_develop.Base.Int.{ℤ}

pub record PoolState : Type 0 where
  pub pool_id : String
  pub asset_a : String
  pub asset_b : String
  pub reserve_a : ℤ
  pub reserve_b : ℤ
  pub total_lp : ℤ

pub record DexState : Type 0 where
  pub pools : List PoolState

pub record CreatePool : Type 0 where
  pub pool_id : String
  pub asset_a : String
  pub asset_b : String

pub record AddLiquidity : Type 0 where
  pub pool_id : String
  pub amount_a : ℤ
  pub amount_b : ℤ

pub record RemoveLiquidity : Type 0 where
  pub pool_id : String
  pub lp_amount : ℤ

pub record Swap : Type 0 where
  pub pool_id : String
  pub amount_in : ℤ
  pub min_out : ℤ
  pub asset_in : String

-- What `apply_action` is called with: one of the four classes, or any other object.
pub data Action : Type 0 where
  create_pool : CreatePool → Action
  add_liquidity : AddLiquidity → Action
  remove_liquidity : RemoveLiquidity → Action
  swap : Swap → Action
  other : Action
