-- ===== src/Reputation/Scores.antt =====
-- The score of a state is that of its events.
use nyx_dirty_and_develop.Base.{
  ◌≡◌, refl, sym, ap, ◌∙◌, Bool, true, false, not, if◌then◌else◌, arith, List, [], ◌∷◌, ◌++◌, All,
  ok, >>=-eq-ok, raise_if, compare_digest, compare_digest_iff, Bytes,
}
use nyx_dirty_and_develop.Base.Int.{ℤ, pos, ◌+ℤ◌, ◌-ℤ◌, +ℤ_comm, +ℤ_assoc, int_laws}
use nyx_dirty_and_develop.Reputation.Events.{
  RepEventKind, earn, spend, slash, RepEvent, RepState, ensure_bytes32, check_events, scored,
  compute_root, recompute_root, check_state, empty_state, apply_event,
}

abbrev pub is_earn : RepEventKind → Bool
is_earn earn = true
is_earn _ = false

abbrev pub is_spend : RepEventKind → Bool
is_spend spend = true
is_spend _ = false

abbrev pub is_slash : RepEventKind → Bool
is_slash slash = true
is_slash _ = false

-- The sum of the amounts of the events of a kind.
unfoldable pub amounts : (RepEventKind → Bool) → List RepEvent → ℤ
amounts p [] = pos 0
amounts p (e ∷ es) = (if p e.kind then e.amount else pos 0) +ℤ amounts p es

-- What was earned, less what was spent and what was slashed.
abbrev pub balance_of : List RepEvent → ℤ
balance_of es = amounts is_earn es -ℤ amounts is_spend es -ℤ amounts is_slash es

amounts-append :
    (p : RepEventKind → Bool) (es : List RepEvent) (e : RepEvent)
    → amounts p (es ++ (e ∷ [])) ≡ amounts p es +ℤ (if p e.kind then e.amount else pos 0)
unfolding amounts
amounts-append p [] e = +ℤ_comm (if p e.kind then e.amount else pos 0) (pos 0)
amounts-append p (x ∷ es) e =
    let n : ℤ = if p x.kind then x.amount else pos 0 in
    let m : ℤ = if p e.kind then e.amount else pos 0 in
    ap (λ k. n +ℤ k) (amounts-append p es e) ∙ sym (+ℤ_assoc n (amounts p es) m)

add_earned : (a b c n : ℤ) → a -ℤ b -ℤ c +ℤ n ≡ a +ℤ n -ℤ (b +ℤ pos 0) -ℤ (c +ℤ pos 0)
add_earned a b c n = omega int_laws

less_spent : (a b c n : ℤ) → a -ℤ b -ℤ c -ℤ n ≡ a +ℤ pos 0 -ℤ (b +ℤ n) -ℤ (c +ℤ pos 0)
less_spent a b c n = omega int_laws

less_slashed : (a b c n : ℤ) → a -ℤ b -ℤ c -ℤ n ≡ a +ℤ pos 0 -ℤ (b +ℤ pos 0) -ℤ (c +ℤ n)
less_slashed a b c n = omega int_laws

scored-balance_of :
    (es : List RepEvent) (e : RepEvent) → scored (balance_of es) e ≡ balance_of (es ++ (e ∷ []))
scored-balance_of es e =
    rw (amounts-append is_earn es e, amounts-append is_spend es e, amounts-append is_slash es e)
      (added e.kind)
  where
    added :
        (k : RepEventKind)
        → elim k [
          | earn ↦ balance_of es +ℤ e.amount
          | spend ↦ balance_of es -ℤ e.amount
          | slash ↦ balance_of es -ℤ e.amount
        ]
          ≡ amounts is_earn es
            +ℤ (if is_earn k then e.amount else pos 0)
            -ℤ (amounts is_spend es +ℤ (if is_spend k then e.amount else pos 0))
            -ℤ (amounts is_slash es +ℤ (if is_slash k then e.amount else pos 0))
    added earn =
        add_earned (amounts is_earn es) (amounts is_spend es) (amounts is_slash es) e.amount
    added spend =
        less_spent (amounts is_earn es) (amounts is_spend es) (amounts is_slash es) e.amount
    added slash =
        less_slashed (amounts is_earn es) (amounts is_spend es) (amounts is_slash es) e.amount

-- Every event is of the given context and pseudonym.
abbrev pub AreOf : Bytes → Bytes → List RepEvent → Type 0
AreOf context pseudonym es =
    All (λ (e : RepEvent). (e.context_id ≡ context) × (e.pseudonym_id ≡ pseudonym)) es

check_events-ok :
    (context pseudonym : Bytes) (es : List RepEvent)
    → check_events context pseudonym es ≡ ok tt
    → AreOf context pseudonym es
unfolding check_events
check_events-ok context pseudonym [] h = tt
check_events-ok context pseudonym (e ∷ es) h = ground (
  arith,
  (compare_digest_iff e.context_id context).0,
  (compare_digest_iff e.pseudonym_id pseudonym).0,
  check_events-ok context pseudonym es,
)

module _ (sha256 : Bytes → Bytes) (decimal : ℤ → Bytes) where
  check_state-ok :
      (s t : RepState)
      → check_state sha256 decimal s ≡ ok t
      → (t ≡ s)
        × AreOf s.context_id s.pseudonym_id s.events
        × (recompute_root sha256 decimal s ≡ ok s.root)
  unfolding check_state
  check_state-ok s t h =
      let (u₁, _, h₁) = >>=-eq-ok (ensure_bytes32 s.context_id "context_id") _ h in
      let (u₂, _, h₂) = >>=-eq-ok (ensure_bytes32 s.pseudonym_id "pseudonym_id") _ h₁ in
      let (u₃, e₃, h₃) = >>=-eq-ok (check_events s.context_id s.pseudonym_id s.events) _ h₂ in
      let (u₄, _, h₄) = >>=-eq-ok (ensure_bytes32 s.root "root") _ h₃ in
      let (expected, e₅, h₅) = >>=-eq-ok (recompute_root sha256 decimal s) _ h₄ in
      let (u₆, e₆, h₆) =
        >>=-eq-ok (raise_if (not (compare_digest s.root expected)) "root mismatch") _ h₅ in
      let equal : compare_digest s.root expected ≡ true = ground (arith, e₆) in
      let same : s.root ≡ expected = (compare_digest_iff s.root expected).0 equal in
      (
        ground (arith, h₆),
        check_events-ok s.context_id s.pseudonym_id s.events e₃,
        e₅ ∙ ap ok (sym same),
      )

  -- The states that events reach from an empty one.
  pub data Reach (context pseudonym : Bytes) : RepState → Type 0 where
    start :
        {s : RepState}
        → empty_state sha256 decimal context pseudonym ≡ ok s
        → Reach context pseudonym s
    step :
        {s t : RepState} (e : RepEvent)
        → Reach context pseudonym s
        → apply_event sha256 decimal s e ≡ ok t
        → Reach context pseudonym t

  -- What holds of them
  pub record IsAccounted (context pseudonym : Bytes) (s : RepState) : Type 0 where
    pub of_context : s.context_id ≡ context
    pub of_pseudonym : s.pseudonym_id ≡ pseudonym
    pub score : s.score ≡ balance_of s.events
    pub events : AreOf context pseudonym s.events
    pub root : recompute_root sha256 decimal s ≡ ok s.root

  checked_IsAccounted :
      (s t : RepState) (context pseudonym : Bytes)
      → s.context_id ≡ context
      → s.pseudonym_id ≡ pseudonym
      → s.score ≡ balance_of s.events
      → check_state sha256 decimal s ≡ ok t
      → IsAccounted context pseudonym t
  checked_IsAccounted s t context pseudonym ec ep es h =
      let (e, events, root) = check_state-ok s t h in
      rw e (record {
        of_context = ec;
        of_pseudonym = ep;
        score = es;
        events = rw (← ec, ← ep) events;
        root = root;
      })

  -- Of every state that events reach from the empty state of a context and a pseudonym: the score
  -- is the sum of what was earned, less the sums of what was spent and of what was slashed; all
  -- events are of that context and pseudonym; and the root is that of the state.
  pub Reach-IsAccounted :
      (context pseudonym : Bytes) (s : RepState)
      → Reach context pseudonym s
      → IsAccounted context pseudonym s
  unfolding empty_state apply_event ◌-ℤ◌ amounts
  Reach-IsAccounted context pseudonym s (start h) =
      let (u₁, _, h₁) = >>=-eq-ok (ensure_bytes32 context "context_id") _ h in
      let (u₂, _, h₂) = >>=-eq-ok (ensure_bytes32 pseudonym "pseudonym_id") _ h₁ in
      let (root, _, h₃) =
        >>=-eq-ok (compute_root sha256 decimal context pseudonym [] (pos 0)) _ h₂ in
      checked_IsAccounted _ s context pseudonym refl refl refl h₃
  Reach-IsAccounted context pseudonym s (step {s = r} e before h) =
      let w = Reach-IsAccounted context pseudonym r before in
      let (u₁, _, h₁) =
        >>=-eq-ok (raise_if (not (compare_digest r.context_id e.context_id)) "context mismatch") _
          h in
      let (u₂, _, h₂) =
        >>=-eq-ok
          (raise_if (not (compare_digest r.pseudonym_id e.pseudonym_id)) "pseudonym mismatch") _
          h₁ in
      let (root, _, h₃) =
        >>=-eq-ok
          (compute_root sha256 decimal r.context_id r.pseudonym_id (r.events ++ (e ∷ []))
            (scored r.score e))
          _ h₂ in
      checked_IsAccounted _ s context pseudonym w.of_context w.of_pseudonym
        (ap (λ x. scored x e) w.score ∙ scored-balance_of r.events e) h₃
