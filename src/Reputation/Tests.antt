-- ===== src/Reputation/Tests.antt =====
-- The theorem on reputation at a concrete state.
use nyx_dirty_and_develop.Base.{◌≡◌, refl, [], ◌∷◌, length, ok, replicate, compare_digest, Bytes}
use nyx_dirty_and_develop.Base.Int.{ℤ, pos, ◌+ℤ◌}
use nyx_dirty_and_develop.Reputation.Events.{
  RepEvent, RepState, earn, ensure_bytes32, framed, check_events, compute_root, check_state,
  empty_state, apply_event,
}
use nyx_dirty_and_develop.Reputation.Scores.{start, step, IsAccounted, Reach-IsAccounted}

-- A digest of the length, and numbers without digits.
abbrev digest : Bytes → Bytes
digest bytes = length bytes ∷ replicate 31 0

abbrev digits : ℤ → Bytes
digits n = []

abbrev here : Bytes
here = replicate 32 1

abbrev someone : Bytes
someone = replicate 32 2

abbrev at_first : RepState
at_first = record {
  context_id = here;
  pseudonym_id = someone;
  events = [];
  score = pos 0;
  root = 95 ∷ replicate 31 0;
}

abbrev earned : RepEvent
earned = record {
  context_id = here;
  pseudonym_id = someone;
  kind = earn;
  amount = pos 4;
  nonce = here;
  event_id = replicate 32 3;
}

abbrev then_earned : RepState
then_earned = record {
  context_id = here;
  pseudonym_id = someone;
  events = earned ∷ [];
  score = pos 4;
  root = 131 ∷ replicate 31 0;
}

first_ok : empty_state digest digits here someone ≡ ok at_first
unfolding empty_state check_state check_events compute_root framed ensure_bytes32 compare_digest
first_ok = refl

earned_ok : apply_event digest digits at_first earned ≡ ok then_earned
unfolding apply_event check_state check_events compute_root framed ensure_bytes32 compare_digest
    ◌+ℤ◌
earned_ok = refl

Reach-IsAccounted_example : IsAccounted digest digits here someone then_earned
Reach-IsAccounted_example =
    Reach-IsAccounted digest digits here someone then_earned
      (step earned (start first_ok) earned_ok)
