-- ===== src/Gateway/Keeps.antt =====
-- Properties of the tables that a call keeps, whether it returns or raises.
use nyx_dirty_and_develop.Base.{ok, err, Result, ◌≡◌, refl}
use nyx_dirty_and_develop.Gateway.Monad.{Error, M, follow, check, pure, ◌>>◌}
use nyx_dirty_and_develop.Gateway.Store.{Db, Conn, request, commit, committing, on_working}

abbrev pub Keeps : {S A : Type 0} → (S → Type 0) → M S A → Type 0
Keeps {S = S} P m = (s : S) → P s → P (m s).1

-- Of both sides of a connection.
abbrev pub Both : (Db → Type 0) → Conn → Type 0
Both P c = P c.committed × P c.working

pub follow-Keeps :
    {S A B : Type 0} (P : S → Type 0) (p : Result Error A × S) (f : A → M S B)
    → P p.1
    → ((a : A) → Keeps P (f a))
    → P (follow p f).1
follow-Keeps P (ok a, s) f h k = k a s h
follow-Keeps P (err e, s) f h k = h

committed-Keeps :
    {A : Type 0} (P : Db → Type 0) (p : Result Error A × Db) (c : Conn)
    → P c.committed
    → P p.1
    → Both P (follow (p.0, record c { working = p.1 }) λ r. commit >> pure r).1
committed-Keeps P (ok a, db) c h k = (k, k)
committed-Keeps P (err e, db) c h k = (h, k)

pub committing-Keeps :
    {A : Type 0} (P : Db → Type 0) (m : M Db A) → Keeps P m → Keeps (Both P) (committing m)
committing-Keeps P m k c h = committed-Keeps P (m c.working) c h.0 (k c.working h.1)

pub on_working-Keeps :
    {A : Type 0} (P : Db → Type 0) (m : M Db A) → Keeps P m → Keeps (Both P) (on_working m)
on_working-Keeps P m k c h = (h.0, k c.working h.1)

pub request-Keeps :
    {A : Type 0} (P : Db → Type 0) (m : M Conn A) → Keeps (Both P) m → Keeps P (request m)
request-Keeps P m k db h = (k (record { committed = db; working = db }) (h, h)).0

-- After a check, which leaves the state as it is.
pub check-Keeps :
    {S A B : Type 0} (P : S → Type 0) (r : Result Error A) (s : S) (f : A → M S B)
    → P s
    → ((a : A) → P (f a s).1)
    → P (follow (check r s) f).1
check-Keeps P (ok a) s f h k = k a
check-Keeps P (err e) s f h k = h

-- A property of the outcome of two calls in sequence: `P` holds between them.
pub follow-ends :
    {S A B : Type 0} (P : S → Type 0) (Q : Result Error B × S → Type 0) (p : Result Error A × S)
    (f : A → M S B)
    → P p.1
    → ((e : Error) (s : S) → P s → Q (err e, s))
    → ((a : A) (s : S) → P s → Q (f a s))
    → Q (follow p f)
follow-ends P Q (ok a, s) f h raised k = k a s h
follow-ends P Q (err e, s) f h raised k = raised e s h

-- After a check: its value is known where it passes.
pub check-ends :
    {S A B : Type 0} (Q : Result Error B × S → Type 0) (r : Result Error A) (s : S) (f : A → M S B)
    → ((e : Error) → Q (err e, s))
    → ((a : A) → r ≡ ok a → Q (f a s))
    → Q (follow (check r s) f)
check-ends Q (ok a) s f raised k = k a refl
check-ends Q (err e) s f raised k = raised e
