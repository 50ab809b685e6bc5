-- ===== src/Base/Text.antt =====
-- Texts: native strings with decidable equality, and the character classes of the source's
-- regular expressions.
use Prim.Native.Char.{Char, code}
use Prim.Native.String.{String, ◌++◌}
use text.Mathlib.Text.{◌==◌ as str_eq}
use text.Mathlib.TextEquality.{eq_iff}
use nyx_dirty_and_develop.Base.Tests.{leb, ◌==◌, if◌then◌else◌}
use nyx_dirty_and_develop.Base.Lists.{length}
use Prim.Native.Nat.{ℕ}
use mathlib.Core.Path.{◌≡◌, refl}
use mathlib.Core.Bool.{Bool, true, false, ◌&&◌, ◌||◌}
use mathlib.Core.List.{List, [], ◌∷◌}
use native.Mathlib.Omega.{arith}

ne_of_false : (s t : String) → str_eq s t ≡ false → ¬ (s ≡ t)
ne_of_false s t h = λ e. ground (arith, (eq_iff s t).1 e)

decide_by : (s t : String) (b : Bool) → str_eq s t ≡ b → Dec (s ≡ t)
decide_by s t true h = yes ((eq_iff s t).0 h)
decide_by s t false h = no (ne_of_false s t h)

unfoldable pub text_discrete : Discrete String
unfolding decide_by ne_of_false
text_discrete s t = decide_by s t (str_eq s t) refl

-- `s == t`
abbrev pub text_eq : String → String → Bool
text_eq s t = elim (text_discrete s t) [ yes _ ↦ true | no _ ↦ false ]

pub text_ne : (s t : String) → text_eq s t ≡ false → ¬ (s ≡ t)
text_ne s t h = ground arith

-- The code points of a text.
abbrev pub codes : String → List ℕ
codes String.[] = []
codes (String.◌∷◌ c s) = code c ∷ codes s

all_in : (ℕ → Bool) → List ℕ → Bool
all_in p [] = true
all_in p (c ∷ cs) = p c && all_in p cs

-- `re.fullmatch("[class]{lo,hi}", s)`
unfoldable pub fullmatch : (ℕ → Bool) → ℕ → ℕ → String → Bool
unfolding all_in
fullmatch p lo hi s = let n = length (codes s) in leb lo n && leb n hi && all_in p (codes s)

abbrev pub between : ℕ → ℕ → ℕ → Bool
between lo hi c = leb lo c && leb c hi

abbrev pub is_upper : ℕ → Bool
is_upper = between b'A' b'Z'

abbrev pub is_lower : ℕ → Bool
is_lower = between b'a' b'z'

abbrev pub is_digit : ℕ → Bool
is_digit = between b'0' b'9'

abbrev pub is_alnum : ℕ → Bool
is_alnum c = is_upper c || is_lower c || is_digit c

-- The characters that `str.strip` removes.
abbrev is_space : ℕ → Bool
is_space c =
    between 9 13 c
    || between 28 32 c
    || c == 0x85
    || c == 0xa0
    || c == 0x1680
    || between 0x2000 0x200a c
    || between 0x2028 0x2029 c
    || c == 0x202f
    || c == 0x205f
    || c == 0x3000

lstrip : String → String
lstrip String.[] = String.[]
lstrip (String.◌∷◌ c s) = if is_space (code c) then lstrip s else String.◌∷◌ c s

-- A space goes if nothing is left after it.
keep : Char → String → String
keep c String.[] = if is_space (code c) then String.[] else String.◌∷◌ c String.[]
keep c (String.◌∷◌ d s) = String.◌∷◌ c (String.◌∷◌ d s)

rstrip : String → String
rstrip String.[] = String.[]
rstrip (String.◌∷◌ c s) = keep c (rstrip s)

-- `s.strip()`
unfoldable pub strip : String → String
unfolding lstrip rstrip keep
strip s = rstrip (lstrip s)

-- `s + t`, of texts
abbrev pub text_append : String → String → String
text_append s t = s ++ t
