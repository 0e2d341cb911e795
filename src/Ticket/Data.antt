-- ===== src/Ticket/Data.antt =====
-- internal/domain/ticket/entity.go. The enums are those of the database, so that a text that is in no
-- map of valid values is `none` of its `parse`. An optional text is the empty one.
use bca_mobile_api.Common.{
  ℕ, String, Bool, true, false, Option, none, some, List, str_eq, if◌then◌else◌,
}

pub data Status : Type 0 where
  opened in_progress resolved closed : Status

pub data Priority : Type 0 where
  low normal high urgent : Priority

pub data Category : Type 0 where
  kartu transaksi akun buka_rekening aplikasi lainnya : Category

-- `ValidStatus`, with the status that the text is
unfoldable pub parse_status : String → Option Status
parse_status s =
    if str_eq s "OPEN"
    then some opened
    else if str_eq s "IN_PROGRESS"
    then some in_progress
    else if str_eq s "RESOLVED"
    then some resolved
    else if str_eq s "CLOSED"
    then some closed
    else none

unfoldable pub parse_priority : String → Option Priority
parse_priority s =
    if str_eq s "LOW"
    then some low
    else if str_eq s "NORMAL"
    then some normal
    else if str_eq s "HIGH"
    then some high
    else if str_eq s "URGENT"
    then some urgent
    else none

unfoldable pub parse_category : String → Option Category
parse_category s =
    if str_eq s "KARTU"
    then some kartu
    else if str_eq s "TRANSAKSI"
    then some transaksi
    else if str_eq s "AKUN"
    then some akun
    else if str_eq s "BUKA_REKENING"
    then some buka_rekening
    else if str_eq s "APLIKASI"
    then some aplikasi
    else if str_eq s "LAINNYA"
    then some lainnya
    else none

abbrev pub is_closed : Status → Bool
is_closed closed = true
is_closed _ = false

-- A closed ticket is not opened again.
unfoldable pub valid_transition : Status → Status → Bool
valid_transition closed next = is_closed next
valid_transition _ next = true

pub record Note : Type 0 where
  pub id : ℕ
  pub author : String
  pub body : String
  pub created_at : ℕ

pub record Ticket : Type 0 where
  pub id : ℕ
  pub ticket_number : String
  pub user_id : Option ℕ
  pub session_id : String
  pub category : Category
  pub priority : Priority
  pub status : Status
  pub subject : String
  pub description : String
  pub created_by_agent : String
  pub assigned_to_agent : String
  pub resolved_at : Option ℕ
  pub closed_at : Option ℕ
  pub created_at : ℕ
  pub updated_at : ℕ
  pub notes : List Note

pub record CreateRequest : Type 0 where
  pub user_id : String
  pub session_id : String
  pub category : String
  pub priority : String
  pub subject : String
  pub description : String

-- `none` is a field that was not sent.
pub record UpdateRequest : Type 0 where
  pub status : Option String
  pub priority : Option String
  pub category : Option String
  pub assigned_to_agent : Option String

pub record Cursor : Type 0 where
  pub created_at : ℕ
  pub id : ℕ

-- An empty text, and `none`, filter nothing.
pub record ListFilter : Type 0 where
  pub status : Option Status
  pub category : Option Category
  pub assigned_to : String
  pub user_id : Option ℕ
  pub limit : ℕ
  pub cursor : Option Cursor
