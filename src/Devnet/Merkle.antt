-- ===== src/Devnet/Merkle.antt =====
-- The loop of `compute_merkle_root` ends, and which lists of transactions it does not tell apart.
use nyx_dirty_and_develop.Base.{
  ℕ, zero, suc, ◌+◌, ◌*◌, ◌%◌, ◌≤◌, ◌≡◌, refl, sym, ap, ◌∙◌, arith, List, [], ◌∷◌, ◌++◌, length,
  length-append, Bytes,
}
use nyx_dirty_and_develop.Devnet.Chain.{
  make_even, require_all, pair_up, levels, compute_merkle_root,
}

-- A round does not lengthen a level, and shortens one of two hashes or more.
length-pair_up :
    (sha256 : Bytes → Bytes) (xs : List Bytes)
    → length (pair_up sha256 (make_even xs)) * 2 ≤ length xs + 1
unfolding pair_up make_even
length-pair_up sha256 [] = omega arith
length-pair_up sha256 (x ∷ []) = omega arith
length-pair_up sha256 (x ∷ y ∷ rest) = omega (arith, length-pair_up sha256 rest)

-- The loop ends: with fuel for the length of the level, more fuel changes nothing.
pub levels_enough :
    (sha256 : Bytes → Bytes) (fuel more : ℕ) (xs : List Bytes)
    → length xs ≤ fuel
    → levels sha256 (fuel + more) xs ≡ levels sha256 fuel xs
unfolding levels
levels_enough sha256 fuel more [] h = refl
levels_enough sha256 fuel more (x ∷ []) h = refl
levels_enough sha256 zero more (x ∷ y ∷ rest) h = absurd (omega (arith, h))
levels_enough sha256 (suc fuel) more (x ∷ y ∷ rest) h =
    let round = pair_up sha256 (make_even (x ∷ y ∷ rest)) in
    let one_more : suc fuel + more ≡ suc (fuel + more) = omega arith in
    ap (λ n. levels sha256 n (x ∷ y ∷ rest)) one_more
    ∙ levels_enough sha256 fuel more round (omega (arith, h, length-pair_up sha256 (x ∷ y ∷ rest)))

-- A list of odd length, and the same list with its last hash twice, make the same first round.
same_round :
    (xs : List Bytes) (x : Bytes)
    → length xs % 2 ≡ 0
    → make_even (xs ++ (x ∷ [])) ≡ make_even (xs ++ (x ∷ x ∷ []))
unfolding make_even
same_round [] x h = refl
same_round (y ∷ []) x h = absurd (omega (arith, h))
same_round (y ∷ z ∷ rest) x h = ap (λ w. y ∷ z ∷ w) (same_round rest x (omega (arith, h)))

require_twice :
    (xs : List Bytes) (x : Bytes) → require_all (xs ++ (x ∷ [])) ≡ require_all (xs ++ (x ∷ x ∷ []))
unfolding require_all
require_twice [] x = ground arith
require_twice (y ∷ ys) x = ground (arith, require_twice ys x)

-- The Merkle root does not tell a list of transactions of odd length from the same list with its
-- last transaction twice, from three transactions on.
pub compute_merkle_root_twice :
    (sha256 : Bytes → Bytes) (y z : Bytes) (xs : List Bytes) (x : Bytes)
    → length xs % 2 ≡ 0
    → compute_merkle_root sha256 (y ∷ z ∷ (xs ++ (x ∷ [])))
      ≡ compute_merkle_root sha256 (y ∷ z ∷ (xs ++ (x ∷ x ∷ [])))
unfolding compute_merkle_root levels
compute_merkle_root_twice sha256 y z xs x even =
    let once = y ∷ z ∷ (xs ++ (x ∷ [])) in
    let twice = y ∷ z ∷ (xs ++ (x ∷ x ∷ [])) in
    let same : make_even once ≡ make_even twice = same_round (y ∷ z ∷ xs) x (omega (arith, even)) in
    let n = length once in
    let one_more : n + 1 ≡ suc n = omega arith in
    let longer : length twice ≡ suc n =
      omega (arith, length-append xs (x ∷ []), length-append xs (x ∷ x ∷ [])) in
    let roots : levels sha256 n once ≡ levels sha256 (length twice) twice =
      sym (levels_enough sha256 n 1 once (omega arith))
      ∙ ap (λ k. levels sha256 k once) one_more
      ∙ ap (λ l. levels sha256 n (pair_up sha256 l)) same
      ∙ ap (λ k. levels sha256 k twice) (sym longer) in
    rw (require_twice (y ∷ z ∷ xs) x, roots) refl
