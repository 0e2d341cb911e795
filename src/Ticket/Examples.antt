-- ===== src/Ticket/Examples.antt =====
-- A ticket made and closed, and the theorems applied to it.
use bca_mobile_api.Common.{false, ◌≡◌, ◌≤◌, refl, none, some, [], ◌∷◌, length, take, ltb, ok}
use bca_mobile_api.Ticket.Data.{
  opened, resolved, Ticket, lainnya, normal, CreateRequest, UpdateRequest, ListFilter, parse_status,
  parse_category, parse_priority, valid_transition,
}
use bca_mobile_api.Ticket.Store.{
  Env, Store, call, find_number, update_row, has_row, select_tickets, insert_newest,
}
use bca_mobile_api.Ticket.Service.{
  create, find, read_user, update, set_priority, set_category, set_assignee, set_status,
  apply_status, list, Page, bound_limit, max_limit,
}
use bca_mobile_api.Ticket.Stamps.{IsStamped, IsLater}
use bca_mobile_api.Ticket.Laws.{AllStamped, update-AllStamped, find-create}
use bca_mobile_api.Ticket.Paging.{AllPass, list-AllPass}

abbrev plain_env : Env
plain_env = record {
  fault = λ c. none;
  new_id = 1;
  new_number = "TKT-20260101-000001";
  status_time = 70;
  now = 60;
  touch_time = 61;
  trim_space = λ s. s;
  to_upper = λ s. s;
  byte_length = λ s. 10;
  parse_uuid = λ s. some 4;
}

abbrev request : CreateRequest
request = record {
  user_id = "";
  session_id = "";
  category = "";
  priority = "";
  subject = "Kartu hilang";
  description = "";
}

abbrev empty_store : Store
empty_store = record { tickets = []; notes = [] }

abbrev made : Ticket
made = record {
  id = 1;
  ticket_number = "TKT-20260101-000001";
  user_id = none;
  session_id = "";
  category = lainnya;
  priority = normal;
  status = opened;
  subject = "Kartu hilang";
  description = "";
  created_by_agent = "AG-1";
  assigned_to_agent = "";
  resolved_at = none;
  closed_at = none;
  created_at = 60;
  updated_at = 60;
  notes = [];
}

abbrev one_ticket : Store
one_ticket = record { tickets = made ∷ []; notes = [] }

created : create plain_env request "AG-1" empty_store ≡ ok (made, one_ticket)
unfolding create call read_user parse_category parse_priority
created = refl

find-create_example :
    (find plain_env made.ticket_number one_ticket ≡ ok made) × AllStamped one_ticket.tickets
find-create_example =
    find-create plain_env plain_env request "AG-1" empty_store tt refl refl refl created

abbrev resolve_request : UpdateRequest
resolve_request = record {
  status = some "RESOLVED";
  priority = none;
  category = none;
  assigned_to_agent = some "AG-2";
}

abbrev settled : Ticket
settled = record made { status = resolved; assigned_to_agent = "AG-2"; resolved_at = some 70 }

abbrev settled_store : Store
settled_store = record { tickets = settled ∷ []; notes = [] }

updated :
    update plain_env "TKT-20260101-000001" resolve_request one_ticket ≡ ok (settled, settled_store)
unfolding update find find_number call set_priority set_category set_assignee set_status
    apply_status parse_status valid_transition update_row has_row
updated = refl

update-AllStamped_example :
    AllStamped settled_store.tickets
    × (t : Ticket) × (find plain_env "TKT-20260101-000001" one_ticket ≡ ok t)
    × IsStamped settled
    × IsLater t settled
update-AllStamped_example =
    update-AllStamped plain_env "TKT-20260101-000001" resolve_request one_ticket
      (record { resolved_stamp = refl; closed_stamp = refl }, tt) updated

abbrev all_tickets : ListFilter
all_tickets = record {
  status = some resolved;
  category = none;
  assigned_to = "";
  user_id = none;
  limit = 0;
  cursor = none;
}

abbrev first_page : Page
first_page = record { rows = settled ∷ []; has_more = false; next = none }

listed : list plain_env all_tickets settled_store ≡ ok first_page
unfolding list call select_tickets insert_newest
listed = refl

list-AllPass_example :
    (first_page.rows
      ≡ take (bound_limit all_tickets.limit) (select_tickets all_tickets settled_store.tickets))
    × (length first_page.rows ≤ max_limit)
    × AllPass all_tickets first_page.rows
    × (first_page.has_more
        ≡ ltb
            (bound_limit all_tickets.limit)
            (length (select_tickets all_tickets settled_store.tickets)))
list-AllPass_example = list-AllPass plain_env all_tickets settled_store listed
