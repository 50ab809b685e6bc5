-- ===== src/Gateway/Monad.antt =====
-- A call of the gateway: it reads and changes a state, and returns or raises. What was written
-- before a raise stays written.
use nyx_dirty_and_develop.Base.{Bool, true, false, String, Result, ok, err, ◌≡◌, refl, arith}

-- The exceptions, by class and message: StorageError, ExchangeError, GatewayError, GatewayApiError
-- by its code, PortalError; `overflow` is the OverflowError of sqlite3 for an integer of more than
-- 64 bits, `integrity` its IntegrityError for a key that is taken.
pub data Error : Type 0 where
  storage exchange gateway api portal : String → Error
  overflow integrity : Error

abbrev pub M : Type 0 → Type 0 → Type 0
M S A = S → Result Error A × S

module _ {S A : Type 0} where
  abbrev pub pure : A → M S A
  pure a s = (ok a, s)

  abbrev pub check : Result Error A → M S A
  check r s = (r, s)

  abbrev pub gets : (S → A) → M S A
  gets f s = (ok (f s), s)

-- After a call: go on with its value, or keep its exception.
abbrev pub follow : {S A B : Type 0} → Result Error A × S → (A → M S B) → Result Error B × S
follow (ok a, s) f = f a s
follow (err e, s) f = (err e, s)

infixl 5 ◌>>=◌ ◌>>◌
abbrev pub ◌>>=◌ : {S A B : Type 0} → M S A → (A → M S B) → M S B
◌>>=◌ m f s = follow (m s) f

abbrev pub ◌>>◌ : {S A B : Type 0} → M S A → M S B → M S B
m >> k = m >>= λ _. k

abbrev pub modify : {S : Type 0} → (S → S) → M S (Unit {0})
modify f s = (ok tt, f s)

-- `if c: raise e`
abbrev pub fail_if : {S : Type 0} → Bool → Error → M S (Unit {0})
fail_if true e s = (err e, s)
fail_if false e s = (ok tt, s)

-- Inversion of a call that returns.
pub follow-eq-ok :
    {S A B : Type 0} (p : Result Error A × S) (f : A → M S B) {b : B} {t : S}
    → follow p f ≡ (ok b, t)
    → (a : A) × (u : S) × (p ≡ (ok a, u)) × (f a u ≡ (ok b, t))
follow-eq-ok (ok a, u) f h = (a, u, refl, h)
follow-eq-ok (err e, u) f h = ground arith

-- A check leaves the state as it is.
pub follow-check :
    {S A B : Type 0} (r : Result Error A) (s : S) (f : A → M S B) {b : B} {t : S}
    → follow (check r s) f ≡ (ok b, t)
    → (a : A) × (r ≡ ok a) × (f a s ≡ (ok b, t))
follow-check (ok a) s f h = (a, refl, h)
follow-check (err e) s f h = ground arith

pub fail_if-ok :
    {S : Type 0} (c : Bool) (e : Error) (s : S) {u : Unit {0}} {t : S}
    → fail_if c e s ≡ (ok u, t)
    → (c ≡ false) × (t ≡ s)
fail_if-ok true e s h = ground arith
fail_if-ok false e s h = ground arith
