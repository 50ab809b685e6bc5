-- ===== src/Gateway/Risk/Engine.antt =====
-- `RiskEngine`: its counters, `check` and `record_failure`. A dictionary is a table by its keys, and
-- a window is `int(time.time()) // seconds`, of a time that is an argument.
use nyx_dirty_and_develop.Base.{
  ℕ, ◌+◌, ◌/◌, ◌==◌, Bool, true, false, ltb, leb, Option, none, some, String, text_eq, text_append,
  Result, ok, err, if◌then◌else◌, List, [], ◌∷◌,
}
use nyx_dirty_and_develop.Base.Int.{ℤ, pos_part}
use nyx_dirty_and_develop.Gateway.Monad.{Error, M, api, pure, gets, modify, fail_if, ◌>>=◌, ◌>>◌}
use nyx_dirty_and_develop.Gateway.Tables.{select_one, insert_or_replace}

pub record RiskLimit : Type 0 where
  pub max_count : Option ℕ
  pub max_amount : Option ℕ
  pub window_seconds : ℕ

pub data RiskMode : Type 0 where
  off monitor enforce : RiskMode

pub record RiskConfig : Type 0 where
  pub mode : RiskMode
  pub global_paused : Bool
  pub global_limit : RiskLimit
  pub account_limit : RiskLimit
  pub ip_limit : RiskLimit
  pub action_limits : String → Option RiskLimit
  pub breaker_errors_per_min : ℕ
  pub breaker_window_seconds : ℕ

pub record Counter : Type 0 where
  pub key : String
  pub count : ℕ
  pub total_amount : ℕ
  pub window : ℕ

pub record ErrorCounter : Type 0 where
  pub action : String
  pub count : ℕ
  pub window : ℕ

pub record Breaker : Type 0 where
  pub action : String
  pub window : ℕ

pub record RiskEngine : Type 0 where
  pub counters : List Counter
  pub error_counters : List ErrorCounter
  pub breaker_windows : List Breaker

abbrev pub counter_key : Counter → String
counter_key r = r.key

abbrev breaker_key : Breaker → String
breaker_key r = r.action

abbrev error_key : ErrorCounter → String
error_key r = r.action

-- The counter after one request more in a window; `max(amount, 0)` is the positive part.
unfoldable pub bumped : ℕ → String → ℤ → Option Counter → Counter
bumped w key amount none = record {
  key = key;
  count = 1;
  total_amount = pos_part amount;
  window = w;
}
bumped w key amount (some r) =
    if r.window == w
    then record {
      key = key;
      count = r.count + 1;
      total_amount = r.total_amount + pos_part amount;
      window = w;
    }
    else record { key = key; count = 1; total_amount = pos_part amount; window = w }

-- `_bump_counter`
unfoldable pub bump_counter : ℕ → String → RiskLimit → ℤ → M RiskEngine Counter
bump_counter now key limit amount = do
  old ← gets (λ s. select_one counter_key key s.counters)
  let r = bumped (now / limit.window_seconds) key amount old
  modify (λ s. record s { counters = insert_or_replace counter_key r s.counters })
  pure r

abbrev pub exceeds : Option ℕ → ℕ → Bool
exceeds none n = false
exceeds (some m) n = ltb m n

abbrev pub has_limit : RiskLimit → Bool
has_limit l = elim l.max_count [
  | some _ ↦ true
  | none ↦ elim l.max_amount [ some _ ↦ true | none ↦ false ]
]

-- `if mode == "off": return`
abbrev pub unless_off : RiskMode → M RiskEngine (Unit {0}) → M RiskEngine (Unit {0})
unless_off off m = pure tt
unless_off monitor m = m
unless_off enforce m = m

module _ (config : RiskConfig) where
  -- `_deny`: in the mode `monitor` it writes to the log alone. The text and the details of the error
  -- are not kept.
  unfoldable pub deny : M RiskEngine (Unit {0})
  deny = elim config.mode [ monitor ↦ pure tt | _ ↦ fail_if true (api "RISK_LIMIT") ]

  -- `if c: self._deny(…)`
  unfoldable pub deny_if : Bool → M RiskEngine (Unit {0})
  deny_if true = deny
  deny_if false = pure tt

  -- `_check_limit`, from `_bump_counter` on
  unfoldable pub count_request : ℕ → String → RiskLimit → ℤ → M RiskEngine (Unit {0})
  count_request now key limit amount = do
    r ← bump_counter now key limit amount
    deny_if (exceeds limit.max_count r.count)
    deny_if (exceeds limit.max_amount r.total_amount)

  -- `_check_limit`
  unfoldable pub check_limit : ℕ → String → RiskLimit → ℤ → M RiskEngine (Unit {0})
  check_limit now key limit amount =
      if has_limit limit then count_request now key limit amount else pure tt

  -- `_breaker_open`
  unfoldable pub breaker_open : ℕ → String → RiskEngine → Bool
  breaker_open now action s = elim (select_one breaker_key action s.breaker_windows) [
    | none ↦ false
    | some r ↦ r.window == now / config.breaker_window_seconds
  ]

  -- `if who: self._check_limit(…)`; nobody is the empty text
  unfoldable pub check_who : ℕ → String → String → String → RiskLimit → ℤ → M RiskEngine (Unit {0})
  check_who now kind who action limit amount =
      if text_eq who ""
      then pure tt
      else check_limit now (text_append kind (text_append who (text_append ":" action))) limit
          amount

  unfoldable pub check_action : ℕ → String → ℤ → M RiskEngine (Unit {0})
  check_action now action amount = elim (config.action_limits action) [
    | none ↦ pure tt
    | some limit ↦ check_limit now (text_append "action:" action) limit amount
  ]

  -- `check`, in a mode that is not `off`
  unfoldable pub check_on : ℕ → String → String → String → ℤ → M RiskEngine (Unit {0})
  check_on now action account_id client_ip amount = do
    deny_if config.global_paused
    is_open ← gets (breaker_open now action)
    deny_if is_open
    check_limit now (text_append "global:" action) config.global_limit amount
    check_who now "account:" account_id action config.account_limit amount
    check_who now "ip:" client_ip action config.ip_limit amount
    check_action now action amount

  unfoldable pub check : ℕ → String → String → String → ℤ → M RiskEngine (Unit {0})
  check now action account_id client_ip amount =
      unless_off config.mode (check_on now action account_id client_ip amount)

  -- The count of failures in a window, with one more
  unfoldable pub failures : ℕ → Option ErrorCounter → ℕ
  failures w none = 1
  failures w (some r) = if r.window == w then r.count + 1 else 1

  unfoldable pub record_failure : ℕ → String → RiskEngine → RiskEngine
  record_failure now action s =
      let w = now / config.breaker_window_seconds in
      let n = failures w (select_one error_key action s.error_counters) in
      let t = record s {
        error_counters =
            insert_or_replace error_key (record { action = action; count = n; window = w })
              s.error_counters;
      } in
      if config.breaker_errors_per_min == 0
      then s
      else if leb config.breaker_errors_per_min n
      then record t {
        breaker_windows =
            insert_or_replace breaker_key (record { action = action; window = w })
              s.breaker_windows;
      }
      else t

-- A request for an action, as `check` is told of it.
pub record Attempt : Type 0 where
  pub now : ℕ
  pub account_id : String
  pub client_ip : String
  pub amount : ℤ

abbrev pub passed : Result Error (Unit {0}) → Bool
passed (ok _) = true
passed (err _) = false

-- How many of the requests pass, one after the other.
module _ (config : RiskConfig) (action : String) where
  unfoldable pub attempt : Attempt → M RiskEngine (Unit {0})
  attempt q = check config q.now action q.account_id q.client_ip q.amount

  unfoldable pub passes : List Attempt → RiskEngine → ℕ
  passes [] s = 0
  passes (q ∷ qs) s =
      let rest = passes qs (attempt q s).1 in if passed (attempt q s).0 then rest + 1 else rest
