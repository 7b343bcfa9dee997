-- ===== src/Statements/Draft.antt =====
-- services/periodStatementService.ts: createPeriodStatementDraft with aggregateMissionLines, and the
-- drafts of all cooperatives of a mine. The tracking code of a line is left out.
use logestic.Prelude.{
  ℕ, suc, ◌-◌, Bool, true, false, not, ◌&&◌, Option, none, some, List, [], ◌∷◌, any, length, ◌==◌,
  ltb, leb, if◌then◌else◌, ◌⊎◌, inl, inr,
}
use logestic.Prelude.Int.{ℤ, pos, negsuc, neg, leb_ℤ, ◌+ℤ◌}
use logestic.Prelude.Rounding.{round_div}
use logestic.Prelude.Table.{Table, find, insert, next_id}
use logestic.Reasons.{Reason}
use logestic.Fsm.{status_eq}
use logestic.Fsm
use logestic.Store.{Action, ◌>>=◌, ◌>>◌, pure, gets, or_refuse, refuse_if, modify}
use logestic.Store.Statements.{Statement, draft, locked, StatementLine}
use logestic.Store.Tables.{Db, Mission, Transaction, Wallet, owner, household, platform}
use logestic.Store.Tables
use logestic.Ledger.Post.{of_mission, ledger_sum}
use logestic.Settlement.Close.{attempt}
use logestic.Settlement.Period.{utc_month_start}
use logestic.Statements.{
  StatementEnv, statement_status_eq, period_key_from_parts, recompute_payable,
}

pub record DraftParams : Type 0 where
  pub mine_id : ℕ
  pub cooperative_id : ℕ
  pub year : ℕ
  pub month : ℕ
  pub created_by_user_id : Option ℕ
  pub deductions_rial : Option ℤ
  pub settlement_batch_id : Option ℕ

-- `monthBounds`, of a month from 1 on.
abbrev pub month_bounds : ℕ → ℕ → ℕ × ℕ
month_bounds year month = (utc_month_start year (month - 1), utc_month_start year month)

abbrev is_operational_wallet : Wallet → Bool
is_operational_wallet (owner _) = true
is_operational_wallet platform = true
is_operational_wallet (household _) = false

abbrev is_operational : ℕ → Tables.Transaction → Bool
is_operational m t = of_mission m t && is_operational_wallet t.wallet

-- The owner's and the platform's signed sums for a mission.
unfoldable pub mission_operational_rial : ℕ → List Tables.Transaction → ℤ
mission_operational_rial m ts = ledger_sum (is_operational m) ts

abbrev is_verified_within : ℕ × ℕ → Option ℕ → Bool
is_verified_within (start, end) none = false
is_verified_within (start, end) (some at) = leb start at && ltb at end

abbrev load_mine_is : ℕ → ℕ → Db → Bool
load_mine_is mine load s = elim (find load s.loads) [ none ↦ false | some l ↦ l.mine_id == mine ]

abbrev cooperative_is : ℕ → Option ℕ → Bool
cooperative_is c none = false
cooperative_is c (some k) = k == c

abbrev pub has_line : ℕ → Table StatementLine → Bool
has_line m ls = any (λ r. r.1.mission_id == m) ls

-- The missions of a statement: verified in the month, of the mine and the cooperative, and on no
-- statement.
unfoldable pub is_stated : StatementEnv → DraftParams → Db → ℕ × Mission → Bool
is_stated env p s (i, m) =
    status_eq m.status Fsm.MissionStatus.verified
    && is_verified_within (month_bounds p.year p.month) m.verified_at
    && load_mine_is p.mine_id m.load_id s
    && cooperative_is p.cooperative_id (env.owner_cooperative m.owner_id)
    && not (has_line i s.statement_lines)

abbrev zero_if_null : Option ℤ → ℤ
zero_if_null none = pos 0
zero_if_null (some a) = a

-- `round3(netKg / 1000)`, in thousandths of a ton.
abbrev pub net_tons : Mission → ℤ
net_tons m = round_div (zero_if_null m.verified_net_tons_kg) 100

-- `toFixed(2)` of thousandths, in hundredths: a half is rounded away from 0.
abbrev pub to_fixed : ℤ → ℤ
to_fixed (pos n) = round_div (pos n) 10
to_fixed (negsuc n) = neg (round_div (pos (suc n)) 10)

-- The line as it is stored.
abbrev pub line_of_mission : ℕ → List Tables.Transaction → ℕ → Mission → StatementLine
line_of_mission statement ts i m = record {
  period_statement_id = statement;
  mission_id = i;
  operational_rial = mission_operational_rial i ts;
  community_rial = zero_if_null m.community_contribution_rial;
  verified_net_tons = to_fixed (net_tons m);
}

-- A line with its time and its tons in thousandths, before these are stored. The list of them is in
-- the order of the times.
abbrev pub TimedLine : Type 0
TimedLine = (Option ℕ × ℤ) × StatementLine

abbrev pub is_before : Option ℕ → Option ℕ → Bool
is_before none b = false
is_before (some a) none = true
is_before (some a) (some b) = ltb a b

unfoldable pub insert_by_time : TimedLine → List TimedLine → List TimedLine
insert_by_time l [] = l ∷ []
insert_by_time l (k ∷ ks) =
    let rest = insert_by_time l ks in if is_before l.0.0 k.0.0 then l ∷ k ∷ ks else k ∷ rest

unfoldable pub timed_lines : StatementEnv → DraftParams → ℕ → Db → Table Mission → List TimedLine
unfolding is_stated insert_by_time mission_operational_rial
timed_lines env p statement s [] = []
timed_lines env p statement s ((i, m) ∷ ms) =
    let rest = timed_lines env p statement s ms in
    if is_stated env p s (i, m)
    then insert_by_time ((m.verified_at, net_tons m), line_of_mission statement s.transactions i m)
        rest
    else rest

-- The lines go into the table in that order.
unfoldable pub write_lines : List TimedLine → Table StatementLine → Table StatementLine
write_lines [] t = t
write_lines ((_, l) ∷ ls) t = write_lines ls (insert l t)

-- Sums over the lines before they are written.
unfoldable pub sum_lines : (StatementLine → ℤ) → List TimedLine → ℤ
sum_lines f [] = pos 0
sum_lines f ((_, l) ∷ ls) = f l +ℤ sum_lines f ls

-- The sum of the tons, which are not rounded yet.
unfoldable pub sum_tons : List TimedLine → ℤ
sum_tons [] = pos 0
sum_tons (((_, tons), _) ∷ ls) = tons +ℤ sum_tons ls

-- `tons > 0 ? toDecimal(tons) : null`
abbrev pub stored_tons : ℤ → Option ℤ
stored_tons tons = if leb_ℤ tons (pos 0) then none else some (to_fixed tons)

abbrev pub new_statement : DraftParams → List TimedLine → Statement
new_statement p ls =
    let operational = sum_lines (λ l. l.operational_rial) ls in
    let community = sum_lines (λ l. l.community_rial) ls in
    let deductions = zero_if_null p.deductions_rial in
    record {
      mine_id = p.mine_id;
      cooperative_id = p.cooperative_id;
      period_key = period_key_from_parts p.year p.month;
      status = draft;
      service_count = length ls;
      total_tons = stored_tons (sum_tons ls);
      operational_rial = operational;
      community_rial = community;
      deductions_rial = deductions;
      payable_rial = recompute_payable operational community deductions;
      cooperative_payable_iban = none;
      mine_payment_reference = none;
      mine_paid_at = none;
      rejection_reason = none;
      locked_at = none;
      locked_by_user_id = none;
      settlement_batch_id = p.settlement_batch_id;
      created_by_user_id = p.created_by_user_id;
    }

-- The unique key of a statement.
abbrev pub has_statement_key : DraftParams → Statement → Bool
has_statement_key p st =
    (st.mine_id == p.mine_id)
    && (st.cooperative_id == p.cooperative_id)
    && (st.period_key == period_key_from_parts p.year p.month)

unfoldable pub find_statement_of : DraftParams → Table Statement → Option (ℕ × Statement)
find_statement_of p [] = none
find_statement_of p ((i, st) ∷ ts) =
    if has_statement_key p st then some (i, st) else find_statement_of p ts

-- The statement and its lines are created in one write.
unfoldable pub write_draft : StatementEnv → DraftParams → Action (ℕ × Statement)
unfolding timed_lines write_lines sum_lines sum_tons recompute_payable
write_draft env p = do
  i ← gets (λ s. next_id s.statements)
  lines ← gets (λ s. timed_lines env p i s s.missions)
  modify (λ s. record s {
    statements = insert (new_statement p lines) s.statements;
    statement_lines = write_lines lines s.statement_lines;
  })
  pure (i, new_statement p lines)

abbrev pub by_existing_statement :
    StatementEnv → DraftParams → Option (ℕ × Statement) → Action (ℕ × Statement)
by_existing_statement env p none = write_draft env p
by_existing_statement env p (some r) =
    refuse_if (statement_status_eq r.1.status locked) Reason.statement_locked
    >> refuse_if (not (statement_status_eq r.1.status draft)) Reason.statement_exists
    >> pure r

unfoldable pub create_period_statement_draft : StatementEnv → DraftParams → Action (ℕ × Statement)
unfolding write_draft find_statement_of
create_period_statement_draft env p = do
  coop ← or_refuse (env.find_cooperative_by_id p.cooperative_id) Reason.cooperative_not_in_mine
  refuse_if (not (coop.mine_id == p.mine_id)) Reason.cooperative_not_in_mine
  existing ← gets (λ s. find_statement_of p s.statements)
  by_existing_statement env p existing

abbrev pub append_if_created :
    Reason ⊎ (ℕ × Statement) → List (ℕ × Statement) → List (ℕ × Statement)
append_if_created (inl _) rest = rest
append_if_created (inr r) rest = r ∷ rest

abbrev pub for_cooperative : ℕ → DraftParams → DraftParams
for_cooperative c p = record p { cooperative_id = c; deductions_rial = none }

-- The drafts of the cooperatives of a mine, without those that are refused.
unfoldable pub create_drafts : StatementEnv → DraftParams → List ℕ → Action (List (ℕ × Statement))
unfolding create_period_statement_draft attempt
create_drafts env p [] = pure []
create_drafts env p (c ∷ cs) = do
  r ← attempt (create_period_statement_draft env (for_cooperative c p))
  rest ← create_drafts env p cs
  pure (append_if_created r rest)

unfoldable pub create_period_statement_drafts_for_mine_period :
    StatementEnv → DraftParams → Action (List (ℕ × Statement))
unfolding create_drafts
create_period_statement_drafts_for_mine_period env p =
    create_drafts env p (env.list_cooperatives_by_mine p.mine_id)
