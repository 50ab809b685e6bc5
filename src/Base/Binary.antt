-- ===== src/Base/Binary.antt =====
-- Byte strings, as lists of numbers below 256, and their four-byte big-endian lengths.
use nyx_dirty_and_develop.Base.Lists.{length, take, drop}
use Prim.Native.Nat.{ℕ, ◌+◌, ◌*◌, ◌/◌, ◌%◌, ◌<◌}
use mathlib.Core.Path.{◌≡◌, refl, ap}
use mathlib.Core.List.{List, [], ◌∷◌, ◌++◌}
use native.Mathlib.Omega.{arith}

abbrev pub Bytes : Type 0
Bytes = List ℕ

-- `n.to_bytes(4, "big")`, for `n` below 2 ^ 32
abbrev pub be32 : ℕ → Bytes
be32 n = n / 16777216 % 256 ∷ n / 65536 % 256 ∷ n / 256 % 256 ∷ n % 256 ∷ []

-- `int.from_bytes(bs, "big")`, onto what was read before
abbrev pub from_be : ℕ → Bytes → ℕ
from_be acc [] = acc
from_be acc (b ∷ bs) = from_be (acc * 256 + b) bs

pub from_be-be32 : (n : ℕ) → n < 4294967296 → from_be 0 (be32 n) ≡ n
from_be-be32 n h = omega arith

digits :
    (a b c d n : ℕ)
    → a < 256
    → b < 256
    → c < 256
    → d < 256
    → n ≡ ((a * 256 + b) * 256 + c) * 256 + d
    → be32 n ≡ a ∷ b ∷ c ∷ d ∷ []
digits a b c d n ha hb hc hd e =
    let e₁ : n / 16777216 % 256 ≡ a = omega arith in
    let e₂ : n / 65536 % 256 ≡ b = omega arith in
    let e₃ : n / 256 % 256 ≡ c = omega arith in
    let e₄ : n % 256 ≡ d = omega arith in rw (e₁, e₂, e₃, e₄) refl

pub be32-from_be :
    (a b c d : ℕ)
    → a < 256
    → b < 256
    → c < 256
    → d < 256
    → be32 (from_be 0 (a ∷ b ∷ c ∷ d ∷ [])) ≡ a ∷ b ∷ c ∷ d ∷ []
be32-from_be a b c d ha hb hc hd = digits a b c d _ ha hb hc hd (omega arith)

module _ {ℓ} {A : Type ℓ} where
  pub take_append : (xs ys : List A) → take (length xs) (xs ++ ys) ≡ xs
  take_append [] ys = refl
  take_append (x ∷ xs) ys = ap (λ zs. x ∷ zs) (take_append xs ys)

  pub drop_append : (xs ys : List A) → drop (length xs) (xs ++ ys) ≡ ys
  drop_append [] ys = refl
  drop_append (x ∷ xs) ys = drop_append xs ys

  pub take_all : (xs : List A) → take (length xs) xs ≡ xs
  take_all [] = refl
  take_all (x ∷ xs) = ap (λ zs. x ∷ zs) (take_all xs)
