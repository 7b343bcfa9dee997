-- ===== src/Ledger/Post.antt =====
-- walletsRepository.ts: wallets made when they are first needed, transactions, and balances.
pub mod Sums
use logestic.Prelude.{
  ℕ, Bool, true, false, Option, none, some, List, [], ◌∷◌, any, ◌==◌, if◌then◌else◌,
}
use logestic.Prelude.Int.{ℤ, pos, neg, ◌+ℤ◌, abs}
use logestic.Store.Tables.{
  Db, Wallet, owner, household, platform, Transaction, TransactionType, credit, debit,
  pool_distribution,
}

abbrev pub wallet_eq : Wallet → Wallet → Bool
wallet_eq (owner a) (owner b) = a == b
wallet_eq (household a) (household b) = a == b
wallet_eq platform platform = true
wallet_eq _ _ = false

-- `findOrCreateOwnerWallet`, `findOrCreateHouseholdWallet`, `findOrCreatePlatformWallet`
unfoldable pub find_or_create_wallet : Wallet → Db → Db
find_or_create_wallet w s =
    if any (wallet_eq w) s.wallets then s else record s { wallets = w ∷ s.wallets }

-- `createTransaction` stores the absolute value of the amount.
unfoldable pub create_transaction : Transaction → Db → Db
create_transaction t s = record s {
  transactions = (record t { amount = abs t.amount }) ∷ s.transactions;
}

abbrev pub transaction_balance_delta : TransactionType → ℤ → ℤ
transaction_balance_delta credit amount = amount
transaction_balance_delta pool_distribution amount = amount
transaction_balance_delta debit amount = neg amount

-- The sum of the signed amounts of the transactions that a test selects.
unfoldable pub ledger_sum : (Transaction → Bool) → List Transaction → ℤ
ledger_sum p [] = pos 0
ledger_sum p (t ∷ ts) =
    (if p t then transaction_balance_delta t.type t.amount else pos 0) +ℤ ledger_sum p ts

abbrev pub of_wallet : Wallet → Transaction → Bool
of_wallet w t = wallet_eq w t.wallet

-- `computeWalletLedgerSum` and `getWalletBalance`, over all mines.
unfoldable pub get_wallet_balance : Wallet → Db → ℤ
get_wallet_balance w s = ledger_sum (of_wallet w) s.transactions

abbrev pub of_mission : ℕ → Transaction → Bool
of_mission m t = elim t.mission_id [ none ↦ false | some k ↦ m == k ]
