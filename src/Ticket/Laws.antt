-- ===== src/Ticket/Laws.antt =====
-- internal/domain/ticket/service.go: what holds of a ticket over its life.
use bca_mobile_api.Common.{
  String, false, ◌≡◌, refl, none, some, List, [], ◌∷◌, ◌==◌, ◌||◌, ltb, validation_error, str_eq,
  eq_iff, ok, >>=-eq_ok, ok_pair, refuse, arith, inl, inr, Bool-cases, Option-cases,
}
use bca_mobile_api.Ticket.Data.{
  Ticket, CreateRequest, UpdateRequest, parse_category, parse_priority,
}
use bca_mobile_api.Ticket.Store.{
  Env, Store, insert_ticket, find_ticket, call, update_row, find_number,
}
use bca_mobile_api.Ticket.Service.{
  find, update, create, read_user, require, max_subject_len, max_text_len, or_default,
}
use bca_mobile_api.Ticket.Stamps.{IsStamped, IsLater, update_steps}

abbrev pub AllStamped : List Ticket → Type 0
AllStamped [] = Unit
AllStamped (t ∷ ts) = IsStamped t × AllStamped ts

find_number-IsStamped :
    (number : String) (ts : List Ticket) {t : Ticket}
    → AllStamped ts
    → find_number number ts ≡ some t
    → IsStamped t
unfolding find_number
find_number-IsStamped number [] a h = cc
find_number-IsStamped number (u ∷ us) {t} a h = elim (Bool-cases (str_eq u.ticket_number number)) [
  | inl e ↦ let same : u ≡ t = ground arith in rw (← same) a.0
  | inr e ↦ find_number-IsStamped number us a.1 (ground arith)
]

find_row :
    (env : Env) (number : String) (store : Store) {t : Ticket}
    → find env number store ≡ ok t
    → find_number (env.trim_space number) store.tickets ≡ some t
unfolding find
find_row env number store h =
    elim (Option-cases (find_number (env.trim_space number) store.tickets)) [
      | inl e ↦ let bad : ⊥ = ground arith in absurd bad
      | inr (u, e) ↦ ground arith
    ]

update_row-AllStamped :
    (t : Ticket) (ts : List Ticket) → IsStamped t → AllStamped ts → AllStamped (update_row t ts)
unfolding update_row
update_row-AllStamped t [] s a = tt
update_row-AllStamped t (u ∷ us) s a = elim (Bool-cases (u.id == t.id)) [
  | inl e ↦ rw e (
    record { resolved_stamp = s.resolved_stamp; closed_stamp = s.closed_stamp },
    update_row-AllStamped t us s a.1,
  )
  | inr e ↦ rw e (a.0, update_row-AllStamped t us s a.1)
]

-- An update keeps every row of the table consistent with the constraints of the schema: a ticket has a
-- time of resolution exactly if it is RESOLVED or CLOSED, and a time of closing exactly if it is CLOSED.
-- The ticket that it returns is consistent too, it is the one that was found, a CLOSED one stays
-- CLOSED at the same time, and one that was settled and still is keeps its first time of resolution.
pub update-AllStamped :
    (env : Env) (number : String) (req : UpdateRequest) (store : Store) {t' : Ticket}
    {store' : Store}
    → AllStamped store.tickets
    → update env number req store ≡ ok (t', store')
    → AllStamped store'.tickets
      × (t : Ticket) × (find env number store ≡ ok t)
      × IsStamped t'
      × IsLater t t'
update-AllStamped env number req store {t'} {store'} a h =
    let (t, u, f, good, e, rows) = update_steps env number req store h in
    let (s, l) = good (
      find_number-IsStamped (env.trim_space number) store.tickets a
        (find_row env number store f)) in
    let s' : IsStamped t' =
      rw e (record { resolved_stamp = s.resolved_stamp; closed_stamp = s.closed_stamp }) in
    let l' : IsLater t t' = rw e (record {
      same_id = l.same_id;
      stays_closed = l.stays_closed;
      first_resolved = l.first_resolved;
    }) in
    (rw rows (update_row-AllStamped t' store.tickets s' a), t, f, s', l')

-- What `create` returns.
create_steps :
    (env : Env) (req : CreateRequest) (agent : String) (store : Store) {t : Ticket} {store' : Store}
    → create env req agent store ≡ ok (t, store')
    → (t.ticket_number ≡ env.new_number)
      × (store' ≡ record store { tickets = t ∷ store.tickets })
      × IsStamped t
unfolding create
create_steps env req agent store {t} {store'} h =
    let subject = env.trim_space req.subject in
    let description = env.trim_space req.description in
    let (_, _, h₁) =
      >>=-eq_ok
        (refuse (str_eq subject "" || ltb max_subject_len (env.byte_length subject))
          validation_error)
        _ h in
    let (_, _, h₂) =
      >>=-eq_ok (refuse (ltb max_text_len (env.byte_length description)) validation_error) _ h₁ in
    let (c, _, h₃) =
      >>=-eq_ok
        (require
          (parse_category (or_default (env.to_upper (env.trim_space req.category)) "LAINNYA")))
        _ h₂ in
    let (p, _, h₄) =
      >>=-eq_ok
        (require
          (parse_priority (or_default (env.to_upper (env.trim_space req.priority)) "NORMAL")))
        _ h₃ in
    let (u, _, h₅) = >>=-eq_ok (read_user env (env.trim_space req.user_id)) _ h₄ in
    let (_, _, h₆) = >>=-eq_ok (call env insert_ticket "insert ticket") _ h₅ in
    let (made, rows) = ok_pair h₆ in
    (rw made refl, rw made rows, rw made (record { resolved_stamp = refl; closed_stamp = refl }))

find_number-head : (t : Ticket) (ts : List Ticket) → find_number t.ticket_number (t ∷ ts) ≡ some t
unfolding find_number
find_number-head t ts = let same = (eq_iff t.ticket_number t.ticket_number).1 refl in rw same refl

find_intro :
    (env : Env) (number : String) (store : Store) {t : Ticket}
    → env.trim_space number ≡ number
    → str_eq number "" ≡ false
    → env.fault find_ticket ≡ none
    → find_number number store.tickets ≡ some t
    → find env number store ≡ ok t
unfolding find call
find_intro env number store h k f e = rw (h, find) (rw k (rw (f, call) (rw e refl)))

-- A ticket that was created is found by its number, as it was returned, and keeps the table
-- consistent. The later read is one that the database does not refuse, and the number is not empty and
-- has no spaces around it.
pub find-create :
    (env env' : Env) (req : CreateRequest) (agent : String) (store : Store) {t : Ticket}
    {store' : Store}
    → AllStamped store.tickets
    → env'.trim_space env.new_number ≡ env.new_number
    → str_eq env.new_number "" ≡ false
    → env'.fault find_ticket ≡ none
    → create env req agent store ≡ ok (t, store')
    → (find env' t.ticket_number store' ≡ ok t) × AllStamped store'.tickets
find-create env env' req agent store {t} {store'} a h k f c =
    let (n, rows, s) = create_steps env req agent store c in
    rw rows (
      find_intro env' t.ticket_number _ (rw n h) (rw n k) f (find_number-head t store.tickets),
      (s, a),
    )
