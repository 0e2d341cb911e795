-- ===== src/Transfer/Ledger/Entries.antt =====
-- internal/repository/postgres/transfer_executor.go, the mutation rows, against the views
-- v_unbalanced_transactions and v_ledger_reconciliation of the schema.
use bca_mobile_api.Common.{
  ℕ, sym, String, Bool, ◌≡◌, refl, Option, some, none, List, [], ◌∷◌, ◌++◌, Result, ok, arith, ap,
  ◌∙◌, inl, inr, ◌⊎◌,
}
use bca_mobile_api.Common.Int.{ℤ, pos, ◌+ℤ◌, ◌-ℤ◌, int_laws}
use bca_mobile_api.Transfer.Data.{Account, Mutation, ExecuteParams, Transaction}
use bca_mobile_api.Transfer.Db.{Db, find_id}
use bca_mobile_api.Transfer.Executor.Resolve.{Attempt, Legs}
use bca_mobile_api.Transfer.Executor.{execute_transfer}
use bca_mobile_api.Transfer.Executor.Lock.{LockedAccount}
use bca_mobile_api.Transfer.Executor.Post.{credit_leg}
use bca_mobile_api.Transfer.Executor.Record.{credit_row, debit_row, transaction_row}
use bca_mobile_api.Transfer.Ledger.Balances.{Apart, AreApart, new_balance}
use bca_mobile_api.Transfer.Ledger.Writes.{credited, LegIsCurrent}
use bca_mobile_api.Transfer.Ledger.Mutations.{
  leg_rows, mutation_rows, imbalance, imbalance-mutation_rows,
}
use bca_mobile_api.Transfer.Ledger.Committed.{Committed, IsBank, IsCoherent}
use bca_mobile_api.Transfer.Ledger.Outcome.{
  execute_transfer-Ending, Ending, refused, replayed, committed,
}

-- A row of the ledger that agrees with the account that it is about: of this transaction, and with the
-- balance that the account has afterwards.
pub record IsEntry (t : Transaction) (db' : Db) (m : Mutation) : Type 0 where
  pub own : m.transaction_id ≡ t.id
  pub account : Account
  pub found : find_id m.account_id db'.accounts ≡ some account
  pub reconciled : account.balance ≡ m.balance_after

abbrev pub AreEntries : Transaction → Db → List Mutation → Type 0
AreEntries t db' [] = Unit
AreEntries t db' (m ∷ ms) = IsEntry t db' m × AreEntries t db' ms

AreEntries-append :
    (t : Transaction) (db' : Db) (ms ns : List Mutation)
    → AreEntries t db' ms
    → AreEntries t db' ns
    → AreEntries t db' (ms ++ ns)
AreEntries-append t db' [] ns h k = k
AreEntries-append t db' (m ∷ ms) ns h k = (h.0, AreEntries-append t db' ms ns h.1 k)

-- What a transfer adds to the ledger: rows that sum to zero and agree with the balances.
pub record IsBooked (db : Db) (t : Transaction) (db' : Db) : Type 0 where
  pub entries : List Mutation
  pub added : db'.mutations ≡ entries ++ db.mutations
  pub in_balance : imbalance entries ≡ pos 0
  pub reconciled : AreEntries t db' entries

leg_rows-AreEntries :
    (env : Attempt) (p : ExecuteParams) (leg : Option ℕ) (amount : ℤ) (text category : String)
    (locked : List LockedAccount) (rows : List Account) (t : Transaction) (db' : Db) (legs : Legs)
    → LegIsCurrent leg locked rows
    → t.id ≡ env.txn_id
    → ((j : ℕ) (a : Account)
        → find_id j rows ≡ some a
        → find_id j db'.accounts ≡ some (record a { balance = new_balance p legs j a.balance }))
    → ((i : ℕ) (b : ℤ) → leg ≡ some i → new_balance p legs i b ≡ b +ℤ amount)
    → AreEntries t db' (leg_rows env p leg amount text category locked)
unfolding credit_row
leg_rows-AreEntries env p none amount text category locked rows t db' legs c e m n = tt
leg_rows-AreEntries env p (some i) amount text category locked rows t db' legs c e m n = (
  record {
    own = sym e;
    account = record c.row { balance = new_balance p legs i c.row.balance };
    found = m i c.row c.found;
    reconciled = n i c.row.balance refl ∙ ap (λ b. b +ℤ amount) (sym c.same_balance);
  },
  tt,
)

credited_at :
    (leg : Option ℕ) (i : ℕ) (amount b : ℤ) → leg ≡ some i → credited leg i amount b ≡ b +ℤ amount
credited_at none i amount b h = cc
credited_at (some j) i amount b h = ground arith

credited_past :
    (leg other : Option ℕ) (i : ℕ) (amount b : ℤ)
    → other ≡ some i
    → Apart leg other
    → credited leg i amount b ≡ b
credited_past none other i amount b h o = refl
credited_past (some j) none i amount b h o = cc
credited_past (some j) (some k) i amount b h o = ground arith

credited_before :
    (leg other : Option ℕ) (i : ℕ) (amount b : ℤ)
    → leg ≡ some i
    → Apart leg other
    → credited other i amount b ≡ b
credited_before leg none i amount b h o = refl
credited_before none (some k) i amount b h o = cc
credited_before (some j) (some k) i amount b h o = ground arith

module _ (p : ExecuteParams) (legs : Legs) (o : AreApart p.source_account_id p legs) where
  source_after : (b : ℤ) → new_balance p legs p.source_account_id b ≡ b +ℤ (pos 0 -ℤ p.total_amount)
  source_after b =
      let s = some p.source_account_id in
      let i = p.source_account_id in
      credited_before s legs.fee_account_id i p.admin_fee _ refl o.source_fee
      ∙ credited_before s legs.settlement_account_id i p.amount _ refl o.source_settlement
      ∙ credited_before s (credit_leg p legs) i p.amount _ refl o.source_dest
      ∙ credited_at s i (pos 0 -ℤ p.total_amount) b refl

  dest_after : (i : ℕ) (b : ℤ) → credit_leg p legs ≡ some i → new_balance p legs i b ≡ b +ℤ p.amount
  dest_after i b e =
      let c = credit_leg p legs in
      credited_before c legs.fee_account_id i p.admin_fee _ e o.dest_fee
      ∙ credited_before c legs.settlement_account_id i p.amount _ e o.dest_settlement
      ∙ credited_at c i p.amount _ e
      ∙ ap (λ x. x +ℤ p.amount)
          (credited_past (some p.source_account_id) c i (pos 0 -ℤ p.total_amount) b e o.source_dest)

  settlement_after :
      (i : ℕ) (b : ℤ) → legs.settlement_account_id ≡ some i → new_balance p legs i b ≡ b +ℤ p.amount
  settlement_after i b e =
      let s = legs.settlement_account_id in
      credited_before s legs.fee_account_id i p.admin_fee _ e o.settlement_fee
      ∙ credited_at s i p.amount _ e
      ∙ ap (λ x. x +ℤ p.amount)
          (credited_past (credit_leg p legs) s i p.amount _ e o.dest_settlement
            ∙ credited_past (some p.source_account_id) s i (pos 0 -ℤ p.total_amount) b e
                o.source_settlement)

  fee_after :
      (i : ℕ) (b : ℤ) → legs.fee_account_id ≡ some i → new_balance p legs i b ≡ b +ℤ p.admin_fee
  fee_after i b e =
      let f = legs.fee_account_id in
      credited_at f i p.admin_fee _ e
      ∙ ap (λ x. x +ℤ p.admin_fee)
          (credited_past legs.settlement_account_id f i p.amount _ e o.settlement_fee
            ∙ credited_past (credit_leg p legs) f i p.amount _ e o.dest_fee
            ∙ credited_past (some p.source_account_id) f i (pos 0 -ℤ p.total_amount) b e
                o.source_fee)

Committed-AreEntries :
    (env : Attempt) (p : ExecuteParams) (db : Db) (t : Transaction) (db' : Db)
    (c : Committed env p db t db')
    → AreEntries t db' (mutation_rows env p c.legs c.locked)
unfolding debit_row transaction_row
Committed-AreEntries env p db t db' c =
    let legs = c.legs in
    let locked = c.locked in
    let rows = db.accounts in
    let id : t.id ≡ env.txn_id = ap (λ (x : Transaction). x.id) c.answer in
    let moves = λ (j : ℕ) (a : Account) (f : find_id j rows ≡ some a). c.moves.rows j f in
    let src = c.current.source_row in
    AreEntries-append t db' _ _
      (leg_rows-AreEntries env p legs.fee_account_id p.admin_fee _ _ locked rows t db' legs
        c.current.fee_row id moves (fee_after p legs c.apart))
      (AreEntries-append t db' _ _
        (leg_rows-AreEntries env p legs.settlement_account_id p.amount _ _ locked rows t db' legs
          c.current.settlement_row id moves (settlement_after p legs c.apart))
        (AreEntries-append t db' _ _
          (leg_rows-AreEntries env p (credit_leg p legs) p.amount _ _ locked rows t db' legs
            c.current.dest_row id moves (dest_after p legs c.apart))
          (
            record {
              own = sym id;
              account = record src.row {
                balance = new_balance p legs p.source_account_id src.row.balance;
              };
              found = c.moves.rows p.source_account_id src.found;
              reconciled =
                  source_after p legs c.apart src.row.balance
                  ∙ taken src.row.balance _ p.total_amount src.same_balance;
            },
            tt,
          )))
  where
    taken : (b x t : ℤ) → x ≡ b → b +ℤ (pos 0 -ℤ t) ≡ x -ℤ t
    taken b x t e = grind int_laws

Committed-IsBooked :
    (env : Attempt) (p : ExecuteParams) (db : Db) (t : Transaction) (db' : Db)
    → Committed env p db t db'
    → IsBooked db t db'
Committed-IsBooked env p db t db' c = record {
  entries = mutation_rows env p c.legs c.locked;
  added = c.mutations;
  in_balance = even _ _ (imbalance-mutation_rows env p c.legs c.locked) c.balanced;
  reconciled = Committed-AreEntries env p db t db' c;
}
  where
    even : (x n : ℤ) → x +ℤ n ≡ pos 0 → n ≡ pos 0 → x ≡ pos 0
    even x n h k = grind int_laws

-- A replay adds nothing.
abbrev pub Booking : Db → Result Transaction → Db → Type 0
Booking db r db' = (db' ≡ db) ⊎ ((t : Transaction) × (r ≡ ok t) × IsBooked db t db')

Ending-Booking :
    (envs : ℕ → Attempt) (p : ExecuteParams) (db : Db) (r : Result Transaction) (db' : Db)
    → Ending envs p db r db'
    → Booking db r db'
Ending-Booking envs p db _ _ refused = inl refl
Ending-Booking envs p db _ _ (replayed n f) = inl refl
Ending-Booking envs p db _ _ (committed {t} {db'} n c) =
    inr (t, refl, Committed-IsBooked (envs n) p db t db' c)

-- A transfer changes no table, or it adds rows to the ledger that all belong to the transaction that
-- it returns, whose debits and credits are equal in sum, and each of which states the balance that
-- its account has afterwards. The conditions are those of `execute_transfer-total` on the schema and
-- on the amounts.
pub execute_transfer-Booking :
    (envs : ℕ → Attempt) (waits : ℕ → Bool) (p : ExecuteParams) (db : Db)
    → ((n : ℕ) → IsBank (envs n) p db)
    → IsCoherent p
    → Booking db (execute_transfer envs waits p db).0 (execute_transfer envs waits p db).1
execute_transfer-Booking envs waits p db bank k =
    Ending-Booking envs p db (execute_transfer envs waits p db).0
      (execute_transfer envs waits p db).1 (execute_transfer-Ending envs waits p db bank k refl)
