-- ===== src/Ledger/Post/Sums.antt =====
-- Sums over the ledger after a posting.
use logestic.Prelude.{Bool, ◌≡◌, if◌then◌else◌, arith}
use logestic.Prelude.Int.{ℤ, pos, ◌+ℤ◌, ◌≤ℤ◌, abs}
use logestic.Store.Tables.{Db, Transaction, credit, Wallet}
use logestic.Ledger.Post.{
  transaction_balance_delta, ledger_sum, create_transaction, find_or_create_wallet,
}

pub ledger_sum-create :
    (p : Transaction → Bool) (t : Transaction) (s : Db)
    → ledger_sum p (create_transaction t s).transactions
      ≡ (if p (record t { amount = abs t.amount })
          then transaction_balance_delta t.type (abs t.amount)
          else pos 0)
        +ℤ ledger_sum p s.transactions
unfolding ledger_sum create_transaction
ledger_sum-create p t s = ground arith

pub transactions-find_or_create :
    (w : Wallet) (s : Db) → (find_or_create_wallet w s).transactions ≡ s.transactions
unfolding find_or_create_wallet
transactions-find_or_create w s = ground arith

pub credit_of_nonneg : (a : ℤ) → pos 0 ≤ℤ a → transaction_balance_delta credit (abs a) ≡ a
credit_of_nonneg a h = ground arith
