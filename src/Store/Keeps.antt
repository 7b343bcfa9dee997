-- ===== src/Store/Keeps.antt =====
-- Requests that keep a property of the database on every outcome. A rule for each form of a step
-- lets `search` go through a request up to the steps that write.
use logestic.Prelude.{Bool, true, false, Option, none, some, ◌≡◌, refl, if◌then◌else◌}
use logestic.Reasons.{Reason, Fault}
use logestic.Store.Monad.{
  Outcome, ok, refused, throws, Action, ◌>>=◌, transaction, or_refuse, or_throw, refuse_if,
}
use logestic.Store.Tables.{Db}

-- The database after a step has the property.
pub record Keeps {A : Type 0} (P : Db → Type 0) (x : Outcome A × Db) : Type 0 where
  pub after : P x.1

module _ (P : Db → Type 0) where
  pub Keeps-bind :
      {A B : Type 0} (s : Db) (m : Action A) (f : A → Action B)
      → Keeps P (m s)
      → ((a : A) (s' : Db) → P s' → Keeps P (f a s'))
      → Keeps P ((m >>= f) s)
  Keeps-bind {A} {B} s m f h rest = go (m s) h
    where
      go : (x : Outcome A × Db) → Keeps P x → Keeps P (((λ (_ : Db). x) >>= f) s)
      go (ok a, s') h = rest a s' h.after
      go (refused e, s') h = record { after = h.after }
      go (throws e, s') h = record { after = h.after }

  pub Keeps-transaction :
      {A : Type 0} (s : Db) (m : Action A) → P s → Keeps P (m s) → Keeps P (transaction m s)
  Keeps-transaction {A} s m before h = go (m s) h
    where
      go : (x : Outcome A × Db) → Keeps P x → Keeps P (transaction (λ (_ : Db). x) s)
      go (ok a, s') h = record { after = h.after }
      go (refused e, s') h = record { after = h.after }
      go (throws e, s') h = record { after = before }

  module _ {A B : Type 0} (s : Db) (before : P s) (f : A → Action B)
      (rest : (a : A) → Keeps P (f a s)) where
    pub Keeps-or_refuse : (o : Option A) (r : Reason) → Keeps P ((or_refuse o r >>= f) s)
    Keeps-or_refuse none r = record { after = before }
    Keeps-or_refuse (some a) r = rest a

    pub Keeps-or_throw : (o : Option A) (e : Fault) → Keeps P ((or_throw o e >>= f) s)
    Keeps-or_throw none e = record { after = before }
    Keeps-or_throw (some a) e = rest a

  pub Keeps-refuse_if :
      {B : Type 0} (s : Db) (before : P s) (f : Unit {0} → Action B)
      → Keeps P (f tt s)
      → (b : Bool) (r : Reason) → Keeps P ((refuse_if b r >>= f) s)
  Keeps-refuse_if s before f rest true r = record { after = before }
  Keeps-refuse_if s before f rest false r = rest

  pub Keeps-same : {A : Type 0} (x : Outcome A × Db) → P x.1 → Keeps P x
  Keeps-same x h = record { after = h }

  pub Keeps-if :
      {A : Type 0} (s : Db) (b : Bool) (m n : Action A)
      → Keeps P (m s)
      → Keeps P (n s)
      → Keeps P ((if b then m else n) s)
  Keeps-if s true m n h k = h
  Keeps-if s false m n h k = k

  -- The rules for guards, with what the guard has found.
  pub Keeps-guard :
      {B : Type 0} (s : Db) (before : P s) (f : Unit {0} → Action B) (b : Bool) (r : Reason)
      → (b ≡ false → Keeps P (f tt s))
      → Keeps P ((refuse_if b r >>= f) s)
  Keeps-guard s before f true r rest = record { after = before }
  Keeps-guard s before f false r rest = rest refl

  module _ {A B : Type 0} (s : Db) (before : P s) (f : A → Action B) (o : Option A)
      (rest : (a : A) → o ≡ some a → Keeps P (f a s)) where
    pub Keeps-found : (r : Reason) → Keeps P ((or_refuse o r >>= f) s)
    Keeps-found r = found o rest
      where
        found :
            (o : Option A)
            → ((a : A) → o ≡ some a → Keeps P (f a s))
            → Keeps P ((or_refuse o r >>= f) s)
        found none rest = record { after = before }
        found (some a) rest = rest a refl

    pub Keeps-found_or_throw : (e : Fault) → Keeps P ((or_throw o e >>= f) s)
    Keeps-found_or_throw e = found o rest
      where
        found :
            (o : Option A)
            → ((a : A) → o ≡ some a → Keeps P (f a s))
            → Keeps P ((or_throw o e >>= f) s)
        found none rest = record { after = before }
        found (some a) rest = rest a refl
