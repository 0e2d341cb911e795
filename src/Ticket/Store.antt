-- ===== src/Ticket/Store.antt =====
-- internal/repository/postgres/ticket_repo.go over the tables service_tickets and
-- service_ticket_notes. `Env` is what stands outside the code: which call the database refuses, the
-- number that its sequence gives, random ids, the clock, and the text functions of Go (`TrimSpace`,
-- `ToUpper`, `len`, `uuid.Parse`).
use bca_mobile_api.Common.{
  ℕ, String, Bool, true, false, ◌&&◌, ◌||◌, Option, none, some, List, [], ◌∷◌, ◌==◌, str_eq, leb,
  ltb, if◌then◌else◌, Cause, Result, ok, err, wrapped,
}
use bca_mobile_api.Ticket.Data.{
  Status, opened, in_progress, resolved, closed, Category, kartu, transaksi, akun, buka_rekening,
  aplikasi, lainnya, Note, Ticket, Cursor, ListFilter,
}

pub data Call : Type 0 where
  insert_ticket find_ticket list_tickets update_ticket insert_note touch_ticket list_notes : Call

pub record Env : Type 0 where
  pub fault : Call → Option Cause
  pub new_id : ℕ
  pub new_number : String
  pub status_time : ℕ
  pub now : ℕ
  pub touch_time : ℕ
  pub trim_space : String → String
  pub to_upper : String → String
  pub byte_length : String → ℕ
  pub parse_uuid : String → Option ℕ

pub record NoteRow : Type 0 where
  pub ticket_id : ℕ
  pub note : Note

pub record Store : Type 0 where
  pub tickets : List Ticket
  pub notes : List NoteRow

unfoldable pub call : Env → Call → String → Result (Unit {0})
call env c prefix = elim (env.fault c) [ none ↦ ok tt | some x ↦ err (wrapped prefix x) ]

-- `WHERE ticket_number = $1`
unfoldable pub find_number : String → List Ticket → Option Ticket
find_number number [] = none
find_number number (t ∷ ts) =
    if str_eq t.ticket_number number then some t else find_number number ts

-- The columns that `Update` writes.
abbrev pub set_columns : Ticket → Ticket → Ticket
set_columns t u = record u {
  status = t.status;
  priority = t.priority;
  category = t.category;
  assigned_to_agent = t.assigned_to_agent;
  resolved_at = t.resolved_at;
  closed_at = t.closed_at;
  updated_at = t.updated_at;
}

-- `UPDATE service_tickets SET … WHERE id = $1`
unfoldable pub update_row : Ticket → List Ticket → List Ticket
update_row t [] = []
update_row t (u ∷ us) = (if u.id == t.id then set_columns t u else u) ∷ update_row t us

-- `tag.RowsAffected() != 0`
unfoldable pub has_row : ℕ → List Ticket → Bool
has_row i [] = false
has_row i (u ∷ us) = u.id == i || has_row i us

-- `UPDATE service_tickets SET updated_at = $2 WHERE id = $1`
unfoldable pub touch : ℕ → ℕ → List Ticket → List Ticket
touch i time [] = []
touch i time (u ∷ us) = (if u.id == i then record u { updated_at = time } else u) ∷ touch i time us

-- `ORDER BY created_at ASC`
unfoldable pub insert_oldest : Note → List Note → List Note
insert_oldest n [] = n ∷ []
insert_oldest n (m ∷ ms) =
    if leb n.created_at m.created_at then n ∷ m ∷ ms else m ∷ insert_oldest n ms

unfoldable pub notes_of : ℕ → List NoteRow → List Note
unfolding insert_oldest
notes_of i [] = []
notes_of i (r ∷ rs) =
    let rest = notes_of i rs in if r.ticket_id == i then insert_oldest r.note rest else rest

abbrev pub status_code : Status → ℕ
status_code opened = 0
status_code in_progress = 1
status_code resolved = 2
status_code closed = 3

abbrev pub category_code : Category → ℕ
category_code kartu = 0
category_code transaksi = 1
category_code akun = 2
category_code buka_rekening = 3
category_code aplikasi = 4
category_code lainnya = 5

abbrev pub status_passes : Option Status → Ticket → Bool
status_passes none t = true
status_passes (some s) t = status_code t.status == status_code s

abbrev pub category_passes : Option Category → Ticket → Bool
category_passes none t = true
category_passes (some c) t = category_code t.category == category_code c

abbrev pub assignee_passes : String → Ticket → Bool
assignee_passes agent t = str_eq agent "" || str_eq t.assigned_to_agent agent

abbrev pub owner_is : Option ℕ → ℕ → Bool
owner_is none user = false
owner_is (some i) user = i == user

abbrev pub user_passes : Option ℕ → Ticket → Bool
user_passes none t = true
user_passes (some i) t = owner_is t.user_id i

-- `(created_at, id) < (?, ?)`
abbrev pub before : ℕ → ℕ → Ticket → Bool
before time i t = ltb t.created_at time || (t.created_at == time && ltb t.id i)

abbrev pub cursor_passes : Option Cursor → Ticket → Bool
cursor_passes none t = true
cursor_passes (some c) t = before c.created_at c.id t

abbrev pub passes : ListFilter → Ticket → Bool
passes f t =
    status_passes f.status t
    && category_passes f.category t
    && assignee_passes f.assigned_to t
    && user_passes f.user_id t
    && cursor_passes f.cursor t

-- `ORDER BY created_at DESC, id DESC`
unfoldable pub insert_newest : Ticket → List Ticket → List Ticket
insert_newest t [] = t ∷ []
insert_newest t (u ∷ us) = if before t.created_at t.id u then t ∷ u ∷ us else u ∷ insert_newest t us

-- The rows that pass the filter, the newest first.
unfoldable pub select_tickets : ListFilter → List Ticket → List Ticket
unfolding insert_newest
select_tickets f [] = []
select_tickets f (t ∷ ts) =
    let rest = select_tickets f ts in if passes f t then insert_newest t rest else rest
