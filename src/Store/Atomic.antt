-- ===== src/Store/Atomic.antt =====
-- Atomic requests: what ends without a value has changed nothing. A rule for each form of a step
-- that only reads lets `search` go through the guards of a request.
use logestic.Prelude.{Bool, true, false, Option, none, some, ◌≡◌, ◌≢◌, ◌⊎◌, inl, inr, refl}
use logestic.Reasons.{Reason, Fault}
use logestic.Store.Monad.{
  Outcome, ok, refused, throws, Action, ◌>>=◌, transaction, or_refuse, or_throw, refuse_if,
}
use logestic.Store.Tables.{Db}

pub data Atomic {A : Type 0} (s : Db) : Outcome A × Db → Type 0 where
  done : (a : A) (s' : Db) → Atomic s (ok a, s')
  unchanged_refused : (e : Reason) → Atomic s (refused e, s)
  unchanged_throws : (e : Fault) → Atomic s (throws e, s)

-- What ends with a value is atomic whatever it writes.
pub Atomic-ok : {A : Type 0} (s : Db) (a : A) (x : Outcome A × Db) → x.0 ≡ ok a → Atomic s x
Atomic-ok s a (o, s') h = rw h (done a s')

module _ {A B : Type 0} (s : Db) (f : A → Action B) (rest : (a : A) → Atomic s (f a s)) where
  pub Atomic-or_refuse : (o : Option A) (r : Reason) → Atomic s ((or_refuse o r >>= f) s)
  Atomic-or_refuse none r = unchanged_refused r
  Atomic-or_refuse (some a) r = rest a

  pub Atomic-or_throw : (o : Option A) (e : Fault) → Atomic s ((or_throw o e >>= f) s)
  Atomic-or_throw none e = unchanged_throws e
  Atomic-or_throw (some a) e = rest a

pub Atomic-refuse_if :
    {B : Type 0} (s : Db) (f : Unit {0} → Action B)
    → Atomic s (f tt s)
    → (b : Bool) (r : Reason) → Atomic s ((refuse_if b r >>= f) s)
Atomic-refuse_if s f rest true r = unchanged_refused r
Atomic-refuse_if s f rest false r = rest

-- What follows a step that is atomic, where the rest always succeeds.
pub Atomic-bind :
    {A B : Type 0} (s : Db) (m : Action A) (f : A → Action B)
    → Atomic s (m s)
    → ((a : A) (s' : Db) → Atomic s (f a s'))
    → Atomic s ((m >>= f) s)
Atomic-bind {A} {B} s m f h rest = go (m s) h
  where
    go : (x : Outcome A × Db) → Atomic s x → Atomic s (((λ (_ : Db). x) >>= f) s)
    go _ (done a s') = rest a s'
    go _ (unchanged_refused e) = unchanged_refused e
    go _ (unchanged_throws e) = unchanged_throws e

-- What follows a step that only reads.
pub Atomic-read :
    {A B : Type 0} (s : Db) (m : Action A) (f : A → Action B)
    → (m s).1 ≡ s
    → ((a : A) → Atomic s (f a s))
    → Atomic s ((m >>= f) s)
Atomic-read {A} {B} s m f same rest = go (m s) same
  where
    go : (x : Outcome A × Db) → x.1 ≡ s → Atomic s (((λ (_ : Db). x) >>= f) s)
    go (ok a, s') e = rw e (rest a)
    go (refused r, s') e = rw e (unchanged_refused r)
    go (throws r, s') e = rw e (unchanged_throws r)

-- A transaction whose body never refuses.
pub Atomic-transaction :
    {A : Type 0} (s : Db) (m : Action A)
    → ((e : Reason) → (m s).0 ≢ refused e)
    → Atomic s (transaction m s)
Atomic-transaction {A} s m never = go (m s) never
  where
    go :
        (x : Outcome A × Db)
        → ((e : Reason) → x.0 ≢ refused e)
        → Atomic s (transaction (λ (_ : Db). x) s)
    go (ok a, s') never = done a s'
    go (refused e, s') never = absurd (never e refl)
    go (throws e, s') never = unchanged_throws e

pub ok_or_same :
    {A : Type 0} {s : Db} (x : Outcome A × Db) → Atomic s x → ((a : A) × (x.0 ≡ ok a)) ⊎ (x.1 ≡ s)
ok_or_same _ (done a s') = inl (a, refl)
ok_or_same _ (unchanged_refused e) = inr refl
ok_or_same _ (unchanged_throws e) = inr refl

-- A request that changes nothing where it is refused and where it throws.
pub ok_or_unchanged :
    {A : Type 0} {s : Db} (x : Outcome A × Db)
    → ((r : Reason) → x.0 ≡ refused r → x.1 ≡ s)
    → ((e : Fault) → x.0 ≡ throws e → x.1 ≡ s)
    → ((a : A) × (x.0 ≡ ok a)) ⊎ (x.1 ≡ s)
ok_or_unchanged (ok a, s') f g = inl (a, refl)
ok_or_unchanged (refused r, s') f g = inr (f r refl)
ok_or_unchanged (throws e, s') f g = inr (g e refl)
