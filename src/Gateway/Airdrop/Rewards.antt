-- ===== src/Gateway/Airdrop/Rewards.antt =====
-- How often a task is among the claims, and what the rewards of an account come to.
use nyx_dirty_and_develop.Base.{
  Bool-cases, inl, inr, ℕ, ◌+◌, ◌*◌, ◌≤◌, ◌≡◌, ◌≢◌, refl, ap, ◌&&◌, Bool, arith, String, text_eq,
  text_discrete, text_ne, List, [], ◌∷◌, ◌++◌, All, ok, none, some, Option, if◌then◌else◌,
}
use nyx_dirty_and_develop.Gateway.Fields.{Value}
use nyx_dirty_and_develop.Gateway.Tables.{delete, insert_or_replace}
use nyx_dirty_and_develop.Gateway.Inserts.{delete_claim, replace_claim}
use nyx_dirty_and_develop.Gateway.Store.{Db, AirdropClaim}
use nyx_dirty_and_develop.Gateway.Airdrop.Defs.{
  airdrop_tasks, find_task, find_claim, completion_run_id, validate_task, check_task,
}

abbrev pub claim_key : AirdropClaim → String
claim_key r = r.claim_id

abbrev is_for : String → String → AirdropClaim → Bool
is_for account task r = text_eq r.account_id account && text_eq r.task_id task

-- How many of the claims are for a task of an account.
unfoldable pub times : String → String → List AirdropClaim → ℕ
times account task [] = 0
times account task (r ∷ rs) = (if is_for account task r then 1 else 0) + times account task rs

-- The rewards of an account.
unfoldable pub rewards : String → List AirdropClaim → ℕ
rewards account [] = 0
rewards account (r ∷ rs) =
    (if text_eq r.account_id account then r.reward else 0) + rewards account rs

-- A reward of the table of tasks.
abbrev pub IsTask : AirdropClaim → Type 0
IsTask r = find_task r.task_id airdrop_tasks ≡ some r.reward

pub times-append :
    (a t : String) (xs : List AirdropClaim) (r : AirdropClaim)
    → times a t (xs ++ (r ∷ [])) ≡ times a t xs + (if is_for a t r then 1 else 0)
unfolding times
times-append a t [] r = omega arith
times-append a t (x ∷ xs) r = omega (arith, times-append a t xs r)

-- A task not found among the claims has none.
pub times-none :
    (a t : String) (xs : List AirdropClaim) → find_claim a t xs ≡ none → times a t xs ≡ 0
unfolding times find_claim
times-none a t [] h = refl
times-none a t (x ∷ xs) h = ground (arith, times-none a t xs)

-- A task not found among the claims has none to delete.
delete_claim-none :
    (a t : String) (xs : List AirdropClaim) → find_claim a t xs ≡ none → delete_claim a t xs ≡ xs
unfolding delete_claim find_claim
delete_claim-none a t [] h = refl
delete_claim-none a t (x ∷ xs) h = ground (arith, delete_claim-none a t xs)

pub replace_claim-none :
    (r : AirdropClaim) (xs : List AirdropClaim)
    → find_claim r.account_id r.task_id xs ≡ none
    → replace_claim r xs ≡ insert_or_replace claim_key r xs
unfolding replace_claim
replace_claim-none r xs h =
    ap (insert_or_replace claim_key r) (delete_claim-none r.account_id r.task_id xs h)

pub times-delete :
    (a t k : String) (xs : List AirdropClaim) → times a t (delete claim_key k xs) ≤ times a t xs
unfolding times delete
times-delete a t k [] = omega arith
times-delete a t k (x ∷ xs) = ground (arith, times-delete a t k xs)

pub delete-IsTask :
    (k : String) (xs : List AirdropClaim) → All IsTask xs → All IsTask (delete claim_key k xs)
unfolding delete
delete-IsTask k [] h = tt
delete-IsTask k (x ∷ xs) h = elim (Bool-cases (text_eq (claim_key x) k)) [
  | inl e ↦ rw e (delete-IsTask k xs h.1)
  | inr e ↦ rw e (h.0, delete-IsTask k xs h.1)
]

distinct_tasks :
    (◌≢◌ {A = String} "trade_1" "chat_1")
    × (◌≢◌ {A = String} "trade_1" "store_1")
    × (◌≢◌ {A = String} "chat_1" "store_1")
unfolding text_discrete
distinct_tasks = (text_ne _ _ refl, text_ne _ _ refl, text_ne _ _ refl)

pub rewards-times :
    (a : String) (xs : List AirdropClaim)
    → All IsTask xs
    → rewards a xs
      ≡ 250 * times a "trade_1" xs + 100 * times a "chat_1" xs + 200 * times a "store_1" xs
unfolding rewards times find_task
rewards-times a [] h = omega arith
rewards-times a (x ∷ xs) h =
    let ih = rewards-times a xs h.1 in ground (arith, ih, h.0, distinct_tasks)

pub check_task-ok :
    (a w t run : String) (d : Db)
    → check_task a w t d ≡ ok run
    → (find_claim a t d.airdrop_claims ≡ none) × (completion_run_id a w t d ≡ some run)
unfolding check_task
check_task-ok a w t run d h = ground arith

pub validate_task-ok :
    (v : Option Value) (task : String) (reward : ℕ)
    → validate_task v ≡ ok (task, reward)
    → find_task task airdrop_tasks ≡ some reward
unfolding validate_task
validate_task-ok v task reward h = ground arith
