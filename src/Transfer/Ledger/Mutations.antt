-- ===== src/Transfer/Ledger/Mutations.antt =====
-- The mutation rows of a transfer, and what the rest of `try_execute` leaves in the tables.
use bca_mobile_api.Common.{
  ℕ, String, ◌≡◌, refl, Option, some, none, arith, Result, ok, >>=-eq_ok, List, [], ◌∷◌, ◌++◌, ◌∙◌,
  ap,
}
use bca_mobile_api.Common.Int.{ℤ, pos, ◌+ℤ◌, ◌-ℤ◌, int_laws}
use bca_mobile_api.Transfer.Data.{Mutation, debit, credit, MutationType, ExecuteParams, Transaction}
use bca_mobile_api.Transfer.Db.{Db, upsert_usage}
use bca_mobile_api.Transfer.Executor.Resolve.{
  Attempt, Statement, run, Legs, insert_credit, insert_settlement, insert_fee, commit,
}
use bca_mobile_api.Transfer.Executor.Lock.{LockedAccount}
use bca_mobile_api.Transfer.Executor.Post.{credit_leg}
use bca_mobile_api.Transfer.Executor.Record.{
  credit_row, credit_mutation, debit_row, debit_mutation, write_mutations, record_usage,
  transaction_row,
}
use bca_mobile_api.Transfer.Executor.{finish}
use bca_mobile_api.Transfer.Ledger.Writes.{leg_amount}
use bca_mobile_api.Transfer.Ledger.Balances.{net_amount}
use Prim.Native.String.{◌++◌ as append}

abbrev pub leg_rows :
    Attempt → ExecuteParams → Option ℕ → ℤ → String → String → List LockedAccount → List Mutation
leg_rows env p none amount text category locked = []
leg_rows env p (some i) amount text category locked =
    credit_row env p i amount text category locked ∷ []

-- The rows that a transfer adds, the newest first.
abbrev pub mutation_rows : Attempt → ExecuteParams → Legs → List LockedAccount → List Mutation
mutation_rows env p legs locked =
    leg_rows env p legs.fee_account_id p.admin_fee (append "Admin fee " p.txn_type) "FEE_INCOME"
      locked
    ++ (leg_rows env p legs.settlement_account_id p.amount (append "Settlement " p.txn_type)
          "SETTLEMENT" locked
        ++ (leg_rows env p (credit_leg p legs) p.amount
              (append "Transfer dari " p.inquiry.destination_account) p.txn_type locked
            ++ debit_row env p locked ∷ []))

-- `SUM(CASE WHEN mutation_type = 'DEBIT' THEN amount ELSE -amount END)`
abbrev pub signed_amount : MutationType → ℤ → ℤ
signed_amount debit amount = amount
signed_amount credit amount = pos 0 -ℤ amount

abbrev pub imbalance : List Mutation → ℤ
imbalance [] = pos 0
imbalance (m ∷ ms) = signed_amount m.mutation_type m.amount +ℤ imbalance ms

imbalance-leg_rows :
    (env : Attempt) (p : ExecuteParams) (leg : Option ℕ) (amount : ℤ) (text category : String)
    (locked : List LockedAccount) (ms : List Mutation) (m : ℤ)
    → imbalance (leg_rows env p leg amount text category locked ++ ms)
        +ℤ (m +ℤ leg_amount leg amount)
      ≡ imbalance ms +ℤ m
unfolding credit_row
imbalance-leg_rows env p none amount text category locked ms m = grind int_laws
imbalance-leg_rows env p (some i) amount text category locked ms m = grind int_laws

-- The rows are out of balance by what the transfer would bring in.
pub imbalance-mutation_rows :
    (env : Attempt) (p : ExecuteParams) (legs : Legs) (locked : List LockedAccount)
    → imbalance (mutation_rows env p legs locked) +ℤ net_amount p legs ≡ pos 0
unfolding debit_row
imbalance-mutation_rows env p legs locked =
    imbalance-leg_rows env p legs.fee_account_id p.admin_fee (append "Admin fee " p.txn_type)
      "FEE_INCOME" locked _ _
    ∙ imbalance-leg_rows env p legs.settlement_account_id p.amount (append "Settlement " p.txn_type)
        "SETTLEMENT" locked _ _
    ∙ imbalance-leg_rows env p (credit_leg p legs) p.amount
        (append "Transfer dari " p.inquiry.destination_account) p.txn_type locked _ _
    ∙ out p.total_amount
  where
    out : (t : ℤ) → t +ℤ pos 0 +ℤ (pos 0 -ℤ t) ≡ pos 0
    out t = omega int_laws

-- Rows added one after another.
abbrev add_rows : List Mutation → Db → Db
add_rows ms db = record db { mutations = ms ++ db.mutations }

append_assoc : (ls ms ns : List Mutation) → ls ++ (ms ++ ns) ≡ (ls ++ ms) ++ ns
append_assoc [] ms ns = refl
append_assoc (l ∷ ls) ms ns = ap (λ t. l ∷ t) (append_assoc ls ms ns)

add_rows-add_rows :
    (ls ms : List Mutation) (db : Db) → add_rows ls (add_rows ms db) ≡ add_rows (ls ++ ms) db
add_rows-add_rows ls ms db = ap (λ t. record db { mutations = t }) (append_assoc ls ms db.mutations)

four_rows :
    (a b c : List Mutation) {d : Mutation} {db db₁ db₂ db₃ db₄ : Db}
    → db₁ ≡ record db { mutations = d ∷ db.mutations }
    → db₂ ≡ add_rows c db₁
    → db₃ ≡ add_rows b db₂
    → db₄ ≡ add_rows a db₃
    → db₄ ≡ add_rows (a ++ (b ++ (c ++ d ∷ []))) db
four_rows a b c {d} {db} h₁ h₂ h₃ h₄ =
    h₄
    ∙ ap (add_rows a) (
        h₃
        ∙ ap (add_rows b) (h₂ ∙ ap (add_rows c) h₁ ∙ add_rows-add_rows c (d ∷ []) db)
        ∙ add_rows-add_rows b (c ++ d ∷ []) db)
    ∙ add_rows-add_rows a (b ++ (c ++ d ∷ [])) db

credit_mutation-rows :
    (env : Attempt) (s : Statement) (prefix : String) (p : ExecuteParams) (leg : Option ℕ)
    (amount : ℤ) (text category : String) (locked : List LockedAccount) (db : Db) {db' : Db}
    → credit_mutation env s prefix p leg amount text category locked db ≡ ok db'
    → db' ≡ record db { mutations = leg_rows env p leg amount text category locked ++ db.mutations }
unfolding credit_mutation
credit_mutation-rows env s prefix p none amount text category locked db h = ground arith
credit_mutation-rows env s prefix p (some i) amount text category locked db h = ground arith

debit_mutation-row :
    (env : Attempt) (p : ExecuteParams) (locked : List LockedAccount) (db : Db) {db' : Db}
    → debit_mutation env p locked db ≡ ok db'
    → db' ≡ record db { mutations = debit_row env p locked ∷ db.mutations }
unfolding debit_mutation
debit_mutation-row env p locked db h = ground arith

record_usage-row :
    (env : Attempt) (p : ExecuteParams) (db : Db) {db' : Db}
    → record_usage env p db ≡ ok db'
    → db' ≡ record db {
      daily_usage = upsert_usage p.user_id p.wib_date p.limit_type p.total_amount db.daily_usage;
    }
unfolding record_usage
record_usage-row env p db h = ground arith

write_mutations-rows :
    (env : Attempt) (p : ExecuteParams) (legs : Legs) (locked : List LockedAccount) (db : Db)
    {db' : Db}
    → write_mutations env p legs locked db ≡ ok db'
    → db' ≡ record db { mutations = mutation_rows env p legs locked ++ db.mutations }
unfolding write_mutations
write_mutations-rows env p legs locked db h =
    let text = append "Transfer dari " p.inquiry.destination_account in
    let (m₁, d₁, k₁) = >>=-eq_ok (debit_mutation env p locked db) _ h in
    let (m₂, d₂, k₂) =
      >>=-eq_ok
        (credit_mutation env insert_credit "insert credit mutation" p (credit_leg p legs) p.amount
          text p.txn_type locked m₁)
        _ k₁ in
    let (m₃, d₃, d₄) =
      >>=-eq_ok
        (credit_mutation env insert_settlement "insert settlement mutation" p
          legs.settlement_account_id p.amount (append "Settlement " p.txn_type) "SETTLEMENT" locked
          m₂)
        _ k₂ in
    let r₁ = debit_mutation-row env p locked db d₁ in
    let r₂ =
      credit_mutation-rows env insert_credit "insert credit mutation" p (credit_leg p legs) p.amount
        text p.txn_type locked m₁ d₂ in
    let r₃ =
      credit_mutation-rows env insert_settlement "insert settlement mutation" p
        legs.settlement_account_id p.amount (append "Settlement " p.txn_type) "SETTLEMENT" locked m₂
        d₃ in
    let r₄ =
      credit_mutation-rows env insert_fee "insert fee mutation" p legs.fee_account_id p.admin_fee
        (append "Admin fee " p.txn_type) "FEE_INCOME" locked m₃ d₄ in
    four_rows _ _ _ r₁ r₂ r₃ r₄

-- What `finish` adds: the mutation rows and the usage of the day.
abbrev pub finished_tables : Attempt → ExecuteParams → Legs → List LockedAccount → Db → Db
finished_tables env p legs locked db = record db {
  mutations = mutation_rows env p legs locked ++ db.mutations;
  daily_usage = upsert_usage p.user_id p.wib_date p.limit_type p.total_amount db.daily_usage;
}

pub finish_lem :
    (env : Attempt) (p : ExecuteParams) (legs : Legs) (locked : List LockedAccount) (db : Db)
    {t : Transaction} {db' : Db}
    → finish env p legs locked db ≡ ok (t, db')
    → (t ≡ transaction_row env p legs) × (db' ≡ finished_tables env p legs locked db)
unfolding finish
finish_lem env p legs locked db {t} {db'} h =
    let (m, e, h₁) = >>=-eq_ok (write_mutations env p legs locked db) _ h in
    let (u, e₁, h₂) = >>=-eq_ok (record_usage env p m) _ h₁ in
    let (_, e₂, h₃) = >>=-eq_ok (run env commit "commit") _ h₂ in
    let rows = write_mutations-rows env p legs locked db e in
    let used = record_usage-row env p m e₁ in
    done h₃ (
      used
      ∙ ap
          (λ (x : Db). record x {
            daily_usage =
                upsert_usage p.user_id p.wib_date p.limit_type p.total_amount x.daily_usage;
          })
          rows)
  where
    done :
        {a : Transaction} {u v : Db}
        → ◌≡◌ {A = Result (Transaction × Db)} (ok (a, u)) (ok (t, db'))
        → u ≡ v
        → (t ≡ a) × (db' ≡ v)
    done h k = (cc, cc)
