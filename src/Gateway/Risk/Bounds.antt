-- ===== src/Gateway/Risk/Bounds.antt =====
-- How many requests pass in one window.
use nyx_dirty_and_develop.Base.{
  ℕ, ◌+◌, ◌-◌, ◌/◌, ◌==◌, ◌≤◌, ◌≡◌, ◌≢◌, refl, sym, ap, ◌∙◌, Bool, true, false, arith, String,
  text_eq, text_discrete, text_append, List, [], ◌∷◌, All, Result, ok, err, none, some, Option,
  Option-cases, Bool-cases, inl, inr, if◌then◌else◌,
}
use nyx_dirty_and_develop.Base.Int.{ℤ}
use nyx_dirty_and_develop.Gateway.Monad.{Error, M, follow-eq-ok, ◌>>◌}
use nyx_dirty_and_develop.Gateway.Keeps.{Keeps, follow-Keeps}
use nyx_dirty_and_develop.Gateway.Tables.{select_one, insert_or_replace}
use nyx_dirty_and_develop.Gateway.Tables.Laws.{select_one-insert_or_replace}
use nyx_dirty_and_develop.Gateway.Risk.Engine.{
  RiskLimit, enforce, unless_off, RiskConfig, Counter, RiskEngine, counter_key, bumped,
  bump_counter, deny, deny_if, count_request, check_limit, breaker_open, check_who, check_action,
  check_on, check, Attempt, passed, attempt, passes, exceeds, has_limit,
}
use Prim.Native.Char.{Char, code}
use text.Mathlib.TextLemmas.{cons-append}

-- How many requests the counter of a key has for a window.
abbrev pub counted : ℕ → Option Counter → ℕ
counted w none = 0
counted w (some r) = if r.window == w then r.count else 0

abbrev pub used : ℕ → String → RiskEngine → ℕ
used w key s = counted w (select_one counter_key key s.counters)

bumped_key : (w : ℕ) (k : String) (n : ℤ) (o : Option Counter) → (bumped w k n o).key ≡ k
unfolding bumped
bumped_key w k n o = ground arith

module _ (config : RiskConfig) (enforced : config.mode ≡ enforce) (w u : ℕ) (key : String) where
  abbrev Used : RiskEngine → Type 0
  Used s = used w key s ≡ u

  deny_if-Keeps : (b : Bool) → Keeps Used (deny_if config b)
  unfolding deny_if deny
  deny_if-Keeps true s h = ground (arith, enforced)
  deny_if-Keeps false s h = h

  bump-Keeps :
      (now : ℕ) (k : String) (limit : RiskLimit) (amount : ℤ)
      → k ≢ key
      → Keeps Used (bump_counter now k limit amount)
  unfolding bump_counter
  bump-Keeps now k limit amount ne s h =
      let r = bumped (now / limit.window_seconds) k amount (select_one counter_key k s.counters) in
      ground (
        arith,
        h,
        bumped_key (now / limit.window_seconds) k amount (select_one counter_key k s.counters),
        select_one-insert_or_replace counter_key key r s.counters,
        text_discrete r.key key,
        ne,
      )

  count-Keeps :
      (now : ℕ) (k : String) (limit : RiskLimit) (amount : ℤ)
      → k ≢ key
      → Keeps Used (count_request config now k limit amount)
  unfolding count_request
  count-Keeps now k limit amount ne s h =
      follow-Keeps Used (bump_counter now k limit amount s) _ (bump-Keeps now k limit amount ne s h)
        λ r s₁ h₁.
          follow-Keeps Used (deny_if config (exceeds limit.max_count r.count) s₁) _
            (deny_if-Keeps (exceeds limit.max_count r.count) s₁ h₁)
            λ _ s₂ h₂. deny_if-Keeps (exceeds limit.max_amount r.total_amount) s₂ h₂

  limit-Keeps :
      (now : ℕ) (k : String) (limit : RiskLimit) (amount : ℤ)
      → k ≢ key
      → Keeps Used (check_limit config now k limit amount)
  unfolding check_limit
  limit-Keeps now k limit amount ne s h = elim (Bool-cases (has_limit limit)) [
    | inr e ↦ rw e h
    | inl e ↦ rw e (count-Keeps now k limit amount ne s h)
  ]

-- The first character of a text.
head_code : String → Option ℕ
head_code String.[] = none
head_code (String.◌∷◌ c s) = some (code c)

head_code-append :
    (c : Char) (s t : String) → head_code (text_append (String.◌∷◌ c s) t) ≡ some (code c)
unfolding head_code
head_code-append c s t = ap head_code (cons-append c s t)

-- Texts that differ in their first characters.
kinds_apart :
    (c d : Char) (s t a b : String)
    → code c ≢ code d
    → text_append (String.◌∷◌ c s) a ≢ text_append (String.◌∷◌ d t) b
kinds_apart c d s t a b ne e =
    let h : some (code c) ≡ some (code d) =
      sym (head_code-append c s a) ∙ ap head_code e ∙ head_code-append d t b in
    ground (arith, h, ne)

account_kind : (a b : String) → text_append "account:" a ≢ text_append "global:" b
account_kind a b = kinds_apart "a" "g" "ccount:" "lobal:" a b (λ e. ground (arith, e))

ip_kind : (a b : String) → text_append "ip:" a ≢ text_append "global:" b
ip_kind a b = kinds_apart "i" "g" "p:" "lobal:" a b (λ e. ground (arith, e))

action_kind : (a b : String) → text_append "action:" a ≢ text_append "global:" b
action_kind a b = kinds_apart "a" "g" "ction:" "lobal:" a b (λ e. ground (arith, e))

module _ (config : RiskConfig) (enforced : config.mode ≡ enforce) (w u : ℕ) (action : String) where
  abbrev Counted : RiskEngine → Type 0
  Counted s = used w (text_append "global:" action) s ≡ u

  who-Keeps :
      (now : ℕ) (kind who : String) (limit : RiskLimit) (amount : ℤ)
      → ((a : String) → text_append kind a ≢ text_append "global:" action)
      → Keeps Counted (check_who config now kind who action limit amount)
  unfolding check_who
  who-Keeps now kind who limit amount apart s h = elim (Bool-cases (text_eq who "")) [
    | inl e ↦ rw e h
    | inr e ↦ rw e (
        limit-Keeps config enforced w u (text_append "global:" action) now _ limit amount (apart _)
          s h)
  ]

  action-Keeps : (now : ℕ) (amount : ℤ) → Keeps Counted (check_action config now action amount)
  unfolding check_action
  action-Keeps now amount s h = elim (Option-cases (config.action_limits action)) [
    | inl e ↦ rw (check_action, e) h
    | inr (limit, e) ↦
        rw (check_action, e)
          (limit-Keeps config enforced w u (text_append "global:" action) now _ limit amount
            (action_kind action action) s h)
  ]

  -- The limits that are checked after the global one.
  abbrev rest_of_check : ℕ → String → String → ℤ → M RiskEngine (Unit {0})
  rest_of_check now account ip amount = do
    check_who config now "account:" account action config.account_limit amount
    check_who config now "ip:" ip action config.ip_limit amount
    check_action config now action amount

  rest-Keeps :
      (now : ℕ) (account ip : String) (amount : ℤ)
      → Keeps Counted (rest_of_check now account ip amount)
  rest-Keeps now account ip amount s h =
      follow-Keeps Counted
        (check_who config now "account:" account action config.account_limit amount s) _
        (who-Keeps now "account:" account config.account_limit amount (λ a. account_kind a action) s
          h)
        λ _ s₁ h₁.
          follow-Keeps Counted (check_who config now "ip:" ip action config.ip_limit amount s₁) _
            (who-Keeps now "ip:" ip config.ip_limit amount (λ a. ip_kind a action) s₁ h₁)
            λ _ s₂ h₂. action-Keeps now amount s₂ h₂

-- A request counted against a limit: one more in its window; it passes within the limit.
module _ (config : RiskConfig) (enforced : config.mode ≡ enforce) where
  deny_if-state : (b : Bool) (s : RiskEngine) → (deny_if config b s).1 ≡ s
  unfolding deny_if deny
  deny_if-state true s = ground (arith, enforced)
  deny_if-state false s = refl

  deny_if-ok :
      (b : Bool) (s s' : RiskEngine) (u : Unit {0}) → deny_if config b s ≡ (ok u, s') → b ≡ false
  unfolding deny_if deny
  deny_if-ok true s s' u h = ground (arith, enforced)
  deny_if-ok false s s' u h = refl

  counted-bumped :
      (w : ℕ) (k : String) (n : ℤ) (o : Option Counter)
      → (counted w (some (bumped w k n o)) ≡ counted w o + 1)
        × ((bumped w k n o).count ≡ counted w o + 1)
  unfolding bumped
  counted-bumped w k n o = ground arith

  bump-used :
      (now : ℕ) (k : String) (limit : RiskLimit) (n : ℤ) (s : RiskEngine)
      → used (now / limit.window_seconds) k (bump_counter now k limit n s).1
        ≡ used (now / limit.window_seconds) k s + 1
  unfolding bump_counter
  bump-used now k limit n s =
      let w = now / limit.window_seconds in
      let o = select_one counter_key k s.counters in
      let r = bumped w k n o in
      ground (
        arith,
        bumped_key w k n o,
        counted-bumped w k n o,
        select_one-insert_or_replace counter_key k r s.counters,
        text_discrete r.key k,
      )

  -- A request that is counted within a limit on the number.
  count-ok :
      (now : ℕ) (k : String) (limit : RiskLimit) (n : ℤ) (m : ℕ) (s s' : RiskEngine) (u : Unit {0})
      → limit.max_count ≡ some m
      → count_request config now k limit n s ≡ (ok u, s')
      → used (now / limit.window_seconds) k s + 1 ≤ m
  unfolding count_request bump_counter
  count-ok now k limit n m s s' u e h =
      let w = now / limit.window_seconds in
      let o = select_one counter_key k s.counters in
      let r = bumped w k n o in
      let t : RiskEngine = record s { counters = insert_or_replace counter_key r s.counters } in
      let (u₁, s₁, e₁, h₁) =
        follow-eq-ok (deny_if config (exceeds limit.max_count r.count) t) _ h in
      let within = deny_if-ok (exceeds limit.max_count r.count) t s₁ u₁ e₁ in
      let within' : exceeds (some m) r.count ≡ false = rw e at within in
      ground (arith, within', counted-bumped w k n o)

  count-used :
      (now : ℕ) (k : String) (limit : RiskLimit) (n : ℤ) (s : RiskEngine)
      → used (now / limit.window_seconds) k (count_request config now k limit n s).1
        ≡ used (now / limit.window_seconds) k s + 1
  unfolding count_request
  count-used now k limit n s =
      let w = now / limit.window_seconds in
      follow-Keeps (Used config enforced w (used w k s + 1) k) (bump_counter now k limit n s) _
        (bump-used now k limit n s)
        λ r s₁ h₁.
          follow-Keeps (Used config enforced w (used w k s + 1) k)
            (deny_if config (exceeds limit.max_count r.count) s₁) _
            (deny_if-Keeps config enforced w (used w k s + 1) k _ s₁ h₁)
            λ _ s₂ h₂. deny_if-Keeps config enforced w (used w k s + 1) k _ s₂ h₂

  module _ (m : ℕ) (capped : config.global_limit.max_count ≡ some m) (action : String) where
    abbrev global_key : String
    global_key = text_append "global:" action

    -- The requests of the action that are counted in the window of a time.
    abbrev pub global_used : ℕ → RiskEngine → ℕ
    global_used now s = used (now / config.global_limit.window_seconds) global_key s

    global-counts :
        (now : ℕ) (n : ℤ)
        → check_limit config now global_key config.global_limit n
          ≡ count_request config now global_key config.global_limit n
    unfolding check_limit
    global-counts now n = rw capped

    -- The count never falls.
    check_on-grows :
        (now : ℕ) (account ip : String) (n : ℤ) (s : RiskEngine)
        → global_used now s ≤ global_used now (check_on config now action account ip n s).1
    unfolding check_on
    check_on-grows now account ip n s =
        let P : RiskEngine → Type 0 = λ t. global_used now s ≤ global_used now t in
        follow-Keeps P (deny_if config config.global_paused s) _
          (rw (deny_if-state config.global_paused s) (omega arith))
          λ _ s₁ h₁.
            follow-Keeps P (deny_if config (breaker_open config now action s₁) s₁) _
              (rw (deny_if-state (breaker_open config now action s₁) s₁) h₁)
              λ _ s₂ h₂.
                follow-Keeps P (check_limit config now global_key config.global_limit n s₂) _
                  (rw (global-counts now n)
                    (omega (arith, h₂, count-used now global_key config.global_limit n s₂)))
                  λ _ s₃ h₃. omega (
                    arith,
                    h₃,
                    rest-Keeps config enforced _ (global_used now s₃) action now account ip n s₃
                        refl,
                  )

    deny_if-same :
        (b : Bool) (s s' : RiskEngine) (u : Unit {0}) → deny_if config b s ≡ (ok u, s') → s' ≡ s
    deny_if-same b s s' u h = ground (arith, h, deny_if-state b s)

    global-ok :
        (now : ℕ) (n : ℤ) (s s' : RiskEngine) (u : Unit {0})
        → check_limit config now global_key config.global_limit n s ≡ (ok u, s')
        → (global_used now s' ≡ global_used now s + 1) × (global_used now s' ≤ m)
    global-ok now n s s' u h =
        let e : count_request config now global_key config.global_limit n s ≡ (ok u, s') =
          rw (global-counts now n) at h in
        let more = count-used now global_key config.global_limit n s in
        let within = count-ok now global_key config.global_limit n m s s' u capped e in
        let same : global_used now s' ≡ global_used now s + 1 =
          sym (ap (λ (x : Result Error (Unit {0}) × RiskEngine). global_used now x.1) e) ∙ more in
        (same, omega (arith, same, within))

    -- A request that passes is counted, within the limit.
    check_on-ok :
        (now : ℕ) (account ip : String) (n : ℤ) (s s' : RiskEngine) (u : Unit {0})
        → check_on config now action account ip n s ≡ (ok u, s')
        → (global_used now s + 1 ≡ global_used now s') × (global_used now s' ≤ m)
    unfolding check_on
    check_on-ok now account ip n s s' u h =
        let (u₁, s₁, e₁, h₁) = follow-eq-ok (deny_if config config.global_paused s) _ h in
        let (u₂, s₂, e₂, h₂) =
          follow-eq-ok (deny_if config (breaker_open config now action s₁) s₁) _ h₁ in
        let (u₃, s₃, e₃, h₃) =
          follow-eq-ok (check_limit config now global_key config.global_limit n s₂) _ h₂ in
        let (more, within) = global-ok now n s₂ s₃ u₃ e₃ in
        let kept =
          rest-Keeps config enforced (now / config.global_limit.window_seconds) (global_used now s₃)
            action now account ip n s₃ refl in
        let last : global_used now s' ≡ global_used now s₃ =
          sym (ap (λ (x : Result Error (Unit {0}) × RiskEngine). global_used now x.1) h₃) ∙ kept in
        let first : global_used now s₂ ≡ global_used now s =
          ap (global_used now) (deny_if-same (breaker_open config now action s₁) s₁ s₂ u₂ e₂)
          ∙ ap (global_used now) (deny_if-same config.global_paused s s₁ u₁ e₁) in
        (omega (arith, more, last, first), omega (arith, within, last))

    attempt-check_on :
        (q : Attempt)
        → attempt config action q ≡ check_on config q.now action q.account_id q.client_ip q.amount
    unfolding attempt check
    attempt-check_on q =
        ap
          (λ mode. unless_off mode (check_on config q.now action q.account_id q.client_ip q.amount))
          enforced

    attempt-grows :
        (q : Attempt) (w : ℕ) (s : RiskEngine)
        → q.now / config.global_limit.window_seconds ≡ w
        → used w global_key s ≤ used w global_key (attempt config action q s).1
    attempt-grows q w s e =
        rw (← e, attempt-check_on q) (check_on-grows q.now q.account_id q.client_ip q.amount s)

    attempt-ok :
        (q : Attempt) (w : ℕ) (s : RiskEngine) (o : Result Error (Unit {0}) × RiskEngine)
        → q.now / config.global_limit.window_seconds ≡ w
        → attempt config action q s ≡ o
        → passed o.0 ≡ true
        → (used w global_key s + 1 ≡ used w global_key o.1) × (used w global_key o.1 ≤ m)
    attempt-ok q w s (ok u, s') e h p = rw (← e) (
        check_on-ok q.now q.account_id q.client_ip q.amount s s' u
          (sym (ap (λ f. f s) (attempt-check_on q)) ∙ h))
    attempt-ok q w s (err x, s') e h p = ground arith

    passes-left :
        (w : ℕ) (qs : List Attempt) (s : RiskEngine)
        → All (λ q. q.now / config.global_limit.window_seconds ≡ w) qs
        → passes config action qs s ≤ m - used w global_key s
    unfolding passes
    passes-left w [] s h = omega arith
    passes-left w (q ∷ qs) s h =
        let s' = (attempt config action q s).1 in
        let ih = passes-left w qs s' h.1 in
        elim (Bool-cases (passed (attempt config action q s).0)) [
          | inl p ↦
              let (one, within) = attempt-ok q w s (attempt config action q s) h.0 refl p in
              rw p (omega (arith, ih, one, within))
          | inr p ↦ rw p (omega (arith, ih, attempt-grows q w s h.0))
        ]

    -- Of any requests of one action in one window of the global limit, whatever their callers and
    -- amounts, at most as many pass as the limit allows, in the mode that enforces the limits.
    pub passes_bound :
        (w : ℕ) (qs : List Attempt) (s : RiskEngine)
        → All (λ q. q.now / config.global_limit.window_seconds ≡ w) qs
        → passes config action qs s ≤ m
    passes_bound w qs s h = omega (arith, passes-left w qs s h)
