-- ===== src/Settlement/Close/Hourly.antt =====
-- The hourly logs in the closes: the credit of a log is looked for under a text that no posting has.
use logestic.Prelude.{ℕ, Bool, false, ◌&&◌, List, [], ◌∷◌, ◌≡◌, inl, inr, refl, arith, Option-cases}
use logestic.Prelude.Int.{pos, zero-+ℤ}
use logestic.Prelude.Table.{Table, find}
use logestic.Store.Batches.{Batch, HourlyLog}
use logestic.Store.Tables
use logestic.Store.Tables.{Db, Description, owner}
use logestic.Ledger.Post.{of_wallet, ledger_sum}
use logestic.Settlement.Period.{Period}
use logestic.Settlement.Eligible.{
  is_credit, contains_hourly_credit, is_hourly_credit, owner_credit_for_hourly, hourly_lines,
}

no_such_text : (i : ℕ) (d : Description) → contains_hourly_credit i d ≡ false
unfolding contains_hourly_credit
no_such_text i Description.split_owner = refl
no_such_text i Description.split_platform = refl
no_such_text i Description.adjustment_owner = refl
no_such_text i Description.adjustment_platform = refl
no_such_text i (Description.hourly_owner _) = refl
no_such_text i (Description.hourly_platform _) = refl
no_such_text i (Description.pool_share _) = refl
no_such_text i (Description.pool_remainder _) = refl
no_such_text i (Description.pool_remainder_coop _) = refl

and_false : (a b : Bool) → (a && b && false) ≡ false
and_false a b = ground arith

no_credit : (o i : ℕ) (ts : List Tables.Transaction) → ledger_sum (is_hourly_credit o i) ts ≡ pos 0
unfolding ledger_sum
no_credit o i [] = refl
no_credit o i (t ∷ ts) =
    let e : is_hourly_credit o i t ≡ false =
      let none_there = no_such_text i t.description in
      rw none_there (and_false (of_wallet (owner o) t) (is_credit t.type)) in
    let rest = no_credit o i ts in rw (e, rest) (zero-+ℤ (pos 0))

credit_is_zero : (i : ℕ) (s : Db) → owner_credit_for_hourly i s ≡ pos 0
unfolding owner_credit_for_hourly
credit_is_zero i s = elim (Option-cases (find i s.hourly_logs)) [
  | inl e ↦ ground arith
  | inr (l, e) ↦ ground (arith, no_credit l.fleet_owner_id i s.transactions)
]

-- No close makes a line of an hourly log, however many are approved in the period and whatever their
-- owners were credited: of every mine, period, batch and table of logs, the loop gives no line.
pub hourly_never_settled :
    (test : Batch → Bool) (mine : ℕ) (p : Period) (batch : ℕ) (s : Db) (logs : Table HourlyLog)
    → hourly_lines test mine p batch s logs ≡ []
unfolding hourly_lines
hourly_never_settled test mine p batch s [] = refl
hourly_never_settled test mine p batch s ((i, l) ∷ ls) =
    ground (arith, credit_is_zero i s, hourly_never_settled test mine p batch s ls)
