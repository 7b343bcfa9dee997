-- ===== src/Store/Ends.antt =====
-- What holds of the value and the database where a request ends with a value. A rule for each form
-- of a step lets `search` go through a request.
use logestic.Prelude.{Bool, true, false, Option, none, some, ◌≡◌, refl}
use logestic.Reasons.{Reason, Fault}
use logestic.Store.Monad.{
  Outcome, ok, refused, throws, Action, ◌>>=◌, transaction, or_refuse, or_throw, refuse_if,
}
use logestic.Store.Tables.{Db}

pub data Ends {A : Type 0} (Q : A → Db → Type 0) : Outcome A × Db → Type 0 where
  with_value : (a : A) (s : Db) → Q a s → Ends Q (ok a, s)
  by_refusal : (e : Reason) (s : Db) → Ends Q (refused e, s)
  by_throw : (e : Fault) (s : Db) → Ends Q (throws e, s)

pub at_ok :
    {A : Type 0} (Q : A → Db → Type 0) (x : Outcome A × Db) (a : A)
    → Ends Q x
    → x.0 ≡ ok a
    → Q a x.1
at_ok Q _ a (with_value b s q) e = let same : b ≡ a = cc in rw⁻¹ same q
at_ok Q _ a (by_refusal r s) e = absurd (cc)
at_ok Q _ a (by_throw r s) e = absurd (cc)

module _ {B : Type 0} (Q : B → Db → Type 0) where
  pub Ends-bind :
      {A : Type 0} (R : A → Db → Type 0) (s : Db) (m : Action A) (f : A → Action B)
      → Ends R (m s)
      → ((a : A) (s' : Db) → R a s' → Ends Q (f a s'))
      → Ends Q ((m >>= f) s)
  Ends-bind {A} R s m f h rest = go (m s) h
    where
      go : (x : Outcome A × Db) → Ends R x → Ends Q (((λ (_ : Db). x) >>= f) s)
      go _ (with_value a s' r) = rest a s' r
      go _ (by_refusal e s') = by_refusal e s'
      go _ (by_throw e s') = by_throw e s'

  pub Ends-transaction : (s : Db) (m : Action B) → Ends Q (m s) → Ends Q (transaction m s)
  Ends-transaction s m h = go (m s) h
    where
      go : (x : Outcome B × Db) → Ends Q x → Ends Q (transaction (λ (_ : Db). x) s)
      go _ (with_value a s' r) = with_value a s' r
      go _ (by_refusal e s') = by_refusal e s'
      go _ (by_throw e s') = by_throw e s

  pub Ends-guard :
      (s : Db) (f : Unit {0} → Action B) (b : Bool) (r : Reason)
      → (b ≡ false → Ends Q (f tt s))
      → Ends Q ((refuse_if b r >>= f) s)
  Ends-guard s f true r rest = by_refusal r s
  Ends-guard s f false r rest = rest refl

  pub Ends-found :
      {A : Type 0} (s : Db) (f : A → Action B) (o : Option A)
      → ((a : A) → o ≡ some a → Ends Q (f a s))
      → (r : Reason) → Ends Q ((or_refuse o r >>= f) s)
  Ends-found s f none rest r = by_refusal r s
  Ends-found s f (some a) rest r = rest a refl

  pub Ends-found_or_throw :
      {A : Type 0} (s : Db) (f : A → Action B) (o : Option A)
      → ((a : A) → o ≡ some a → Ends Q (f a s))
      → (e : Fault) → Ends Q ((or_throw o e >>= f) s)
  Ends-found_or_throw s f none rest e = by_throw e s
  Ends-found_or_throw s f (some a) rest e = rest a refl

  -- A step of which nothing is said.
  pub Ends-skip :
      {A : Type 0} (s : Db) (m : Action A) (f : A → Action B)
      → ((a : A) (s' : Db) → Ends Q (f a s'))
      → Ends Q ((m >>= f) s)
  Ends-skip {A} s m f rest = go (m s)
    where
      go : (x : Outcome A × Db) → Ends Q (((λ (_ : Db). x) >>= f) s)
      go (ok a, s') = rest a s'
      go (refused e, s') = by_refusal e s'
      go (throws e, s') = by_throw e s'
