-- ===== src/Fees/Vector.antt =====
-- fee.py: a fee is a vector of components. An exception is its message; all classes between here
-- and the gateway pass the message on.
use nyx_dirty_and_develop.Base.{
  ℕ, ◌+◌, Bool, true, false, ◌&&◌, List, [], ◌∷◌, String, leb, ◌==◌, if◌then◌else◌, Result, ok, err,
  ◌>>=◌, ◌>>◌, raise_if,
}
use nyx_dirty_and_develop.Base.Int.{ℤ, pos, negsuc}

abbrev pub Outcome : Type 0 → Type 0
Outcome A = Result String A

pub data ActionKind : Type 0 where
  read_only state_mutation : ActionKind

pub data FeeComponentId : Type 0 where
  base bytes compute : FeeComponentId

abbrev pub same_component : FeeComponentId → FeeComponentId → Bool
same_component base base = true
same_component bytes bytes = true
same_component compute compute = true
same_component _ _ = false

-- `_COMPONENT_INDEX`
abbrev pub component_index : FeeComponentId → ℕ
component_index base = 0
component_index bytes = 1
component_index compute = 2

abbrev pub Components : Type 0
Components = List (FeeComponentId × ℕ)

pub record FeeVector : Type 0 where
  pub components : Components

unfoldable pub is_seen : FeeComponentId → List FeeComponentId → Bool
is_seen c [] = false
is_seen c (x ∷ xs) = if same_component c x then true else is_seen c xs

-- The loop of `__post_init__`, with the components seen so far
unfoldable pub check_components :
    List FeeComponentId → List (FeeComponentId × ℤ) → Outcome Components
check_components seen [] = ok []
check_components seen ((c, negsuc n) ∷ rest) = err "component amount must be >= 0"
check_components seen ((c, pos n) ∷ rest) = do
  raise_if (is_seen c seen) "component id must be unique"
  others ← check_components (c ∷ seen) rest
  ok ((c, n) ∷ others)

-- `normalized.sort(key=…)`, a stable sort
unfoldable pub insert_component : FeeComponentId × ℕ → Components → Components
insert_component x [] = x ∷ []
insert_component x (y ∷ ys) =
    if leb (component_index x.0) (component_index y.0)
    then x ∷ y ∷ ys
    else y ∷ insert_component x ys

unfoldable pub sort_components : Components → Components
sort_components [] = []
sort_components (x ∷ xs) = insert_component x (sort_components xs)

-- `FeeVector(components)`
unfoldable pub new_vector : List (FeeComponentId × ℤ) → Outcome FeeVector
new_vector entries = do
  components ← check_components [] entries
  ok (record { components = sort_components components })

abbrev pub sum : Components → ℕ
sum [] = 0
sum ((_, n) ∷ rest) = n + sum rest

abbrev pub total : FeeVector → ℕ
total v = sum v.components

abbrev pub amount_of : FeeComponentId → Components → ℕ
amount_of c [] = 0
amount_of c ((x, n) ∷ rest) = if same_component x c then n else amount_of c rest

unfoldable pub for_action : ActionKind → List (FeeComponentId × ℤ) → Outcome FeeVector
for_action read_only entries = new_vector entries
for_action state_mutation entries = do
  v ← new_vector entries
  raise_if (leb (amount_of base v.components) 0) "BASE fee must be > 0 for mutations"
  raise_if (leb (total v) 0) "total fee must be > 0 for mutations"
  ok v

abbrev pub same_components : Components → Components → Bool
same_components [] [] = true
same_components ((c, n) ∷ xs) ((d, m) ∷ ys) =
    same_component c d && (n == m && same_components xs ys)
same_components _ _ = false

-- `vector == vector`
unfoldable pub same_vector : FeeVector → FeeVector → Bool
same_vector v w = same_components v.components w.components
