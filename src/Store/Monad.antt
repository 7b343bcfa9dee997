-- ===== src/Store/Monad.antt =====
-- A request: it reads and writes the database, and ends with a value, with a refusal
-- `{ ok: false, reason }`, or by throwing. What was written stays written, except in
-- `prisma.$transaction`, which takes its writes back when its body throws.
use logestic.Prelude.{Bool, true, false, Option, none, some}
use logestic.Reasons.{Reason, Fault}
use logestic.Store.Tables.{Db}

pub data Outcome (A : Type 0) : Type 0 where
  ok : A → Outcome A
  refused : Reason → Outcome A
  throws : Fault → Outcome A

abbrev pub Action : Type 0 → Type 0
Action A = Db → Outcome A × Db

module _ {A : Type 0} where
  abbrev pub pure : A → Action A
  pure a s = (ok a, s)

  abbrev pub refuse : Reason → Action A
  refuse r s = (refused r, s)

  abbrev pub throw : Fault → Action A
  throw e s = (throws e, s)

  abbrev pub gets : (Db → A) → Action A
  gets f s = (ok (f s), s)

  -- `if (!row) return { ok: false, reason }`
  abbrev pub or_refuse : Option A → Reason → Action A
  or_refuse none r = refuse r
  or_refuse (some a) _ = pure a

  abbrev pub or_throw : Option A → Fault → Action A
  or_throw none e = throw e
  or_throw (some a) _ = pure a

  -- `prisma.$transaction`
  abbrev pub transaction : Action A → Action A
  transaction m s =
      let (r, s') = m s in
      elim r [ ok a ↦ (ok a, s') | refused e ↦ (refused e, s') | throws e ↦ (throws e, s) ]

infixl 5 ◌>>=◌ ◌>>◌
abbrev pub ◌>>=◌ : {A B : Type 0} → Action A → (A → Action B) → Action B
◌>>=◌ m f s =
    let (r, s') = m s in
    elim r [ ok a ↦ f a s' | refused e ↦ (refused e, s') | throws e ↦ (throws e, s') ]

abbrev pub ◌>>◌ : {A B : Type 0} → Action A → Action B → Action B
m >> k = m >>= λ _. k

abbrev pub refuse_if : Bool → Reason → Action (Unit {0})
refuse_if true r = refuse r
refuse_if false r = pure tt

abbrev pub modify : (Db → Db) → Action (Unit {0})
modify f s = (ok tt, f s)
