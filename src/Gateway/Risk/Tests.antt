-- ===== src/Gateway/Risk/Tests.antt =====
-- The limits of the risk engine at concrete requests.
use nyx_dirty_and_develop.Base.{◌≤◌, false, refl, none, some, List, [], ◌∷◌}
use nyx_dirty_and_develop.Base.Int.{pos}
use nyx_dirty_and_develop.Gateway.Risk.Engine.{
  RiskLimit, enforce, RiskConfig, RiskEngine, Attempt, passes,
}
use nyx_dirty_and_develop.Gateway.Risk.Bounds.{passes_bound}

abbrev no_limit : RiskLimit
no_limit = record { max_count = none; max_amount = none; window_seconds = 60 }

abbrev one_a_minute : RiskConfig
one_a_minute = record {
  mode = enforce;
  global_paused = false;
  global_limit = record { max_count = some 1; max_amount = none; window_seconds = 60 };
  account_limit = no_limit;
  ip_limit = no_limit;
  action_limits = λ a. none;
  breaker_errors_per_min = 0;
  breaker_window_seconds = 60;
}

abbrev started : RiskEngine
started = record { counters = []; error_counters = []; breaker_windows = [] }

abbrev two_attempts : List Attempt
two_attempts =
    record { now = 120; account_id = "a"; client_ip = ""; amount = pos 5 }
    ∷ record { now = 179; account_id = "b"; client_ip = ""; amount = pos 7 }
    ∷ []

passes_bound_example : passes one_a_minute "wallet_transfer" two_attempts started ≤ 1
passes_bound_example =
    passes_bound one_a_minute refl 1 refl "wallet_transfer" 2 two_attempts started
      (refl, (refl, tt))
