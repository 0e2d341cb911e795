-- ===== src/Ticket/Service.antt =====
-- internal/domain/ticket/service.go. `create` and
-- `update` write once, so that a failure leaves the tables as they were.
use bca_mobile_api.Common.{
  ℕ, ◌+◌, String, Bool, not, ◌||◌, Option, none, some, List, [], ◌∷◌, str_eq, leb, ltb, take,
  length, if◌then◌else◌, Result, ok, err, ◌>>=◌, ◌>>◌, refuse, validation_error, not_found,
  ticket_invalid_transition, wrapped, Cause,
}
use bca_mobile_api.Ticket.Data.{
  Status, opened, in_progress, resolved, closed, parse_status, parse_priority, parse_category,
  valid_transition, Note, Ticket, CreateRequest, UpdateRequest, Cursor, ListFilter,
}
use bca_mobile_api.Ticket.Store.{
  Env, Store, NoteRow, call, insert_ticket, find_ticket, list_tickets, update_ticket, insert_note,
  touch_ticket, list_notes, find_number, update_row, has_row, touch, notes_of, select_tickets,
}

abbrev pub max_subject_len : ℕ
max_subject_len = 200

abbrev pub max_text_len : ℕ
max_text_len = 10000

abbrev pub default_limit : ℕ
default_limit = 20

abbrev pub max_limit : ℕ
max_limit = 100

-- A value of an enum that must be one of its texts.
abbrev pub require {ℓ} : {A : Type ℓ} → Option A → Result A
require none = err validation_error
require (some x) = ok x

unfoldable pub read_user : Env → String → Result (Option ℕ)
read_user env raw =
    if str_eq raw "" then ok none else require (env.parse_uuid raw) >>= λ i. ok (some i)

abbrev pub or_default : String → String → String
or_default s d = if str_eq s "" then d else s

unfoldable pub create : Env → CreateRequest → String → Store → Result (Ticket × Store)
unfolding call read_user parse_category parse_priority
create env req agent store = do
  let subject = env.trim_space req.subject
  refuse (str_eq subject "" || ltb max_subject_len (env.byte_length subject)) validation_error
  let description = env.trim_space req.description
  refuse (ltb max_text_len (env.byte_length description)) validation_error
  category ←
      require (parse_category (or_default (env.to_upper (env.trim_space req.category)) "LAINNYA"))
  priority ←
      require (parse_priority (or_default (env.to_upper (env.trim_space req.priority)) "NORMAL"))
  user ← read_user env (env.trim_space req.user_id)
  call env insert_ticket "insert ticket"
  let t : Ticket = record {
    id = env.new_id;
    ticket_number = env.new_number;
    user_id = user;
    session_id = env.trim_space req.session_id;
    category = category;
    priority = priority;
    status = opened;
    subject = subject;
    description = description;
    created_by_agent = agent;
    assigned_to_agent = "";
    resolved_at = none;
    closed_at = none;
    created_at = env.now;
    updated_at = env.now;
    notes = [];
  }
  ok (t, record store { tickets = t ∷ store.tickets })

abbrev pub found : Option Ticket → Result Ticket
found none = err not_found
found (some t) = ok t

unfoldable pub find : Env → String → Store → Result Ticket
unfolding call
find env raw store = do
  let number = env.trim_space raw
  refuse (str_eq number "") validation_error
  call env find_ticket "scan ticket"
  found (find_number number store.tickets)

unfoldable pub get : Env → String → Store → Result Ticket
unfolding find call
get env number store = do
  t ← find env number store
  call env list_notes "list ticket notes"
  ok (record t { notes = notes_of t.id store.notes })

-- `if x == nil { x = &now }`
abbrev pub or_now : Option ℕ → ℕ → Option ℕ
or_now none now = some now
or_now (some time) now = some time

unfoldable pub apply_status : ℕ → Status → Ticket → Ticket
apply_status now resolved t = record t {
  resolved_at = or_now t.resolved_at now;
  closed_at = none;
  status = resolved;
}
apply_status now closed t = record t {
  resolved_at = or_now t.resolved_at now;
  closed_at = or_now t.closed_at now;
  status = closed;
}
apply_status now opened t = record t { resolved_at = none; closed_at = none; status = opened }
apply_status now in_progress t = record t {
  resolved_at = none;
  closed_at = none;
  status = in_progress;
}

unfoldable pub set_priority : Env → Option String → Ticket → Result Ticket
unfolding parse_priority
set_priority env none t = ok t
set_priority env (some s) t = require (parse_priority (env.to_upper (env.trim_space s))) >>= λ p.
    ok (record t { priority = p })

unfoldable pub set_category : Env → Option String → Ticket → Result Ticket
unfolding parse_category
set_category env none t = ok t
set_category env (some s) t = require (parse_category (env.to_upper (env.trim_space s))) >>= λ c.
    ok (record t { category = c })

unfoldable pub set_assignee : Env → Option String → Ticket → Ticket
set_assignee env none t = t
set_assignee env (some s) t = record t { assigned_to_agent = env.trim_space s }

unfoldable pub set_status : Env → Option String → Ticket → Result Ticket
unfolding parse_status valid_transition apply_status
set_status env none t = ok t
set_status env (some s) t = do
  next ← require (parse_status (env.to_upper (env.trim_space s)))
  refuse (not (valid_transition t.status next)) ticket_invalid_transition
  ok (apply_status env.status_time next t)

unfoldable pub update : Env → String → UpdateRequest → Store → Result (Ticket × Store)
unfolding find set_priority set_category set_assignee set_status call
update env number req store = do
  t ← find env number store
  t₁ ← set_priority env req.priority t
  t₂ ← set_category env req.category t₁
  t₃ ← set_status env req.status (set_assignee env req.assigned_to_agent t₂)
  call env update_ticket "update ticket"
  let t₄ = record t₃ { updated_at = env.now }
  refuse (not (has_row t₄.id store.tickets)) (wrapped "ticket not found" Cause.failed)
  ok (t₄, record store { tickets = update_row t₄ store.tickets })

-- The checks of `AddNote`, and the note that it writes with the ticket's id.
unfoldable pub read_note : Env → String → String → String → Store → Result NoteRow
unfolding find
read_note env number raw agent store = do
  let body = env.trim_space raw
  refuse (str_eq body "" || ltb max_text_len (env.byte_length body)) validation_error
  t ← find env number store
  ok (record {
    ticket_id = t.id;
    note = record { id = env.new_id; author = agent; body = body; created_at = env.now };
  })

-- Two statements outside any transaction: the note stays if the second one fails.
unfoldable pub insert_and_touch : Env → NoteRow → Store → Result Note × Store
unfolding call
insert_and_touch env row store =
    let noted = record store { notes = row ∷ store.notes } in
    elim (call env insert_note "insert ticket note") [
      | err e ↦ (err e, store)
      | ok _ ↦ elim (call env touch_ticket "touch ticket after note") [
        | err e ↦ (err e, noted)
        | ok _ ↦ (
          ok row.note,
          record noted { tickets = touch row.ticket_id env.touch_time store.tickets },
        )
      ]
    ]

unfoldable pub add_note : Env → String → String → String → Store → Result Note × Store
unfolding read_note insert_and_touch
add_note env number raw agent store = elim (read_note env number raw agent store) [
  | err e ↦ (err e, store)
  | ok row ↦ insert_and_touch env row store
]

-- The limit of a request, as the service bounds it.
abbrev pub bound_limit : ℕ → ℕ
bound_limit limit =
    let given = if leb limit 0 then default_limit else limit in
    if ltb max_limit given then max_limit else given

abbrev pub last_cursor : List Ticket → Option Cursor
last_cursor [] = none
last_cursor (t ∷ []) = some (record { created_at = t.created_at; id = t.id })
last_cursor (t ∷ u ∷ us) = last_cursor (u ∷ us)

pub record Page : Type 0 where
  pub rows : List Ticket
  pub has_more : Bool
  pub next : Option Cursor

unfoldable pub list : Env → ListFilter → Store → Result Page
unfolding call select_tickets
list env filter store = do
  let limit = bound_limit filter.limit
  call env list_tickets "list tickets"
  let rows = take (limit + 1) (select_tickets filter store.tickets)
  let has_more = ltb limit (length rows)
  let kept = if has_more then take limit rows else rows
  ok (record {
    rows = kept;
    has_more = has_more;
    next = if has_more then last_cursor kept else none;
  })
