-- ===== src/Ticket/Stamps.antt =====
-- The time stamps of a ticket against its status, as the constraints of migration 000030 want them.
use bca_mobile_api.Common.{
  ok_pair, ℕ, String, Bool, true, false, not, ◌≡◌, ◌∙◌, refl, Option, none, some, is_some, ok,
  >>=-eq_ok, refuse, arith,
}
use bca_mobile_api.Ticket.Data.{
  Status, opened, in_progress, resolved, closed, is_closed, valid_transition, parse_status,
  parse_category, parse_priority, Ticket, UpdateRequest,
}
use bca_mobile_api.Ticket.Store.{Env, Store, call, update_ticket, update_row, has_row}
use bca_mobile_api.Ticket.Service.{
  apply_status, or_now, set_priority, set_category, set_assignee, set_status, find, update, require,
}

abbrev pub is_settled : Status → Bool
is_settled resolved = true
is_settled closed = true
is_settled _ = false

-- service_tickets_resolved_consistent and service_tickets_closed_consistent
pub record IsStamped (t : Ticket) : Type 0 where
  pub resolved_stamp : is_some t.resolved_at ≡ is_settled t.status
  pub closed_stamp : is_some t.closed_at ≡ is_closed t.status

-- What no later change may undo: a closed ticket stays closed at its time, and a ticket that stays
-- settled was resolved when it was first.
pub record IsLater (t t' : Ticket) : Type 0 where
  pub same_id : t'.id ≡ t.id
  pub stays_closed :
      is_closed t.status ≡ true → (is_closed t'.status ≡ true) × (t'.closed_at ≡ t.closed_at)
  pub first_resolved :
      is_settled t.status ≡ true → is_settled t'.status ≡ true → t'.resolved_at ≡ t.resolved_at

abbrev pub Good : Ticket → Ticket → Type 0
Good t t' = IsStamped t' × IsLater t t'

or_now-is_some : (o : Option ℕ) (now : ℕ) → is_some (or_now o now) ≡ true
or_now-is_some none now = refl
or_now-is_some (some x) now = refl

or_now_kept : (o : Option ℕ) (now : ℕ) → is_some o ≡ true → or_now o now ≡ o
or_now_kept none now h = cc
or_now_kept (some x) now h = refl

reopen_closed :
    (s next : Status) → valid_transition s next ≡ true → is_closed s ≡ true → is_closed next ≡ true
unfolding valid_transition
reopen_closed opened next v c = cc
reopen_closed in_progress next v c = cc
reopen_closed resolved next v c = cc
reopen_closed closed next v c = v

apply_status-Good :
    (now : ℕ) (next : Status) (t : Ticket)
    → valid_transition t.status next ≡ true
    → IsStamped t
    → Good t (apply_status now next t)
unfolding apply_status valid_transition
apply_status-Good now opened t v s = (
  record { resolved_stamp = refl; closed_stamp = refl },
  record {
    same_id = refl;
    stays_closed = λ c. let bad : false ≡ true = reopen_closed t.status opened v c in cc;
    first_resolved = λ a b. cc;
  },
)
apply_status-Good now in_progress t v s = (
  record { resolved_stamp = refl; closed_stamp = refl },
  record {
    same_id = refl;
    stays_closed = λ c. let bad : false ≡ true = reopen_closed t.status in_progress v c in cc;
    first_resolved = λ a b. cc;
  },
)
apply_status-Good now resolved t v s = (
  record { resolved_stamp = or_now-is_some t.resolved_at now; closed_stamp = refl },
  record {
    same_id = refl;
    stays_closed = λ c. let bad : false ≡ true = reopen_closed t.status resolved v c in cc;
    first_resolved = λ a b. or_now_kept t.resolved_at now (s.resolved_stamp ∙ a);
  },
)
apply_status-Good now closed t v s = (
  record {
    resolved_stamp = or_now-is_some t.resolved_at now;
    closed_stamp = or_now-is_some t.closed_at now;
  },
  record {
    same_id = refl;
    stays_closed = λ c. (refl, or_now_kept t.closed_at now (s.closed_stamp ∙ c));
    first_resolved = λ a b. or_now_kept t.resolved_at now (s.resolved_stamp ∙ a);
  },
)

-- Only columns that the stamps do not look at differ.
pub record IsSame (t t' : Ticket) : Type 0 where
  pub same_id : t'.id ≡ t.id
  pub same_status : t'.status ≡ t.status
  pub same_resolved : t'.resolved_at ≡ t.resolved_at
  pub same_closed : t'.closed_at ≡ t.closed_at

IsSame-trans : (t u v : Ticket) → IsSame t u → IsSame u v → IsSame t v
IsSame-trans t u v h k = record {
  same_id = k.same_id ∙ h.same_id;
  same_status = k.same_status ∙ h.same_status;
  same_resolved = k.same_resolved ∙ h.same_resolved;
  same_closed = k.same_closed ∙ h.same_closed;
}

set_priority-IsSame :
    (env : Env) (o : Option String) (t : Ticket) {t' : Ticket}
    → set_priority env o t ≡ ok t'
    → IsSame t t'
unfolding set_priority
set_priority-IsSame env none t h = record {
  same_id = ground arith;
  same_status = ground arith;
  same_resolved = ground arith;
  same_closed = ground arith;
}
set_priority-IsSame env (some s) t {t'} h =
    let (p, e, k) = >>=-eq_ok (require (parse_priority (env.to_upper (env.trim_space s)))) _ h in
    let k' : t' ≡ record t { priority = p } = cc in
    rw k' (record { same_id = refl; same_status = refl; same_resolved = refl; same_closed = refl })

set_category-IsSame :
    (env : Env) (o : Option String) (t : Ticket) {t' : Ticket}
    → set_category env o t ≡ ok t'
    → IsSame t t'
unfolding set_category
set_category-IsSame env none t h = record {
  same_id = ground arith;
  same_status = ground arith;
  same_resolved = ground arith;
  same_closed = ground arith;
}
set_category-IsSame env (some s) t {t'} h =
    let (p, e, k) = >>=-eq_ok (require (parse_category (env.to_upper (env.trim_space s)))) _ h in
    let k' : t' ≡ record t { category = p } = cc in
    rw k' (record { same_id = refl; same_status = refl; same_resolved = refl; same_closed = refl })

set_assignee-IsSame : (env : Env) (o : Option String) (t : Ticket) → IsSame t (set_assignee env o t)
unfolding set_assignee
set_assignee-IsSame env none t = record {
  same_id = refl;
  same_status = refl;
  same_resolved = refl;
  same_closed = refl;
}
set_assignee-IsSame env (some s) t = record {
  same_id = refl;
  same_status = refl;
  same_resolved = refl;
  same_closed = refl;
}

IsSame-Good : (t t' : Ticket) → IsStamped t → IsSame t t' → Good t t'
IsSame-Good t t' s h = (
  record {
    resolved_stamp = rw h.same_resolved (rw h.same_status s.resolved_stamp);
    closed_stamp = rw h.same_closed (rw h.same_status s.closed_stamp);
  },
  record {
    same_id = h.same_id;
    stays_closed = λ c. (rw h.same_status c, h.same_closed);
    first_resolved = λ a b. h.same_resolved;
  },
)

IsSame-Good-trans : (t u v : Ticket) → IsSame t u → Good u v → Good t v
IsSame-Good-trans t u v h (s, l) = (
  s,
  record {
    same_id = l.same_id ∙ h.same_id;
    stays_closed = λ c. let (a, b) = l.stays_closed (rw h.same_status c) in (a, b ∙ h.same_closed);
    first_resolved = λ a b. l.first_resolved (rw h.same_status a) b ∙ h.same_resolved;
  },
)

set_status-Good :
    (env : Env) (o : Option String) (t : Ticket) {t' : Ticket}
    → IsStamped t
    → set_status env o t ≡ ok t'
    → Good t t'
unfolding set_status
set_status-Good env none t {t'} s h =
    let e : t' ≡ t = ground arith in
    rw e (
      IsSame-Good t t s
        (record { same_id = refl; same_status = refl; same_resolved = refl; same_closed = refl }))
set_status-Good env (some x) t {t'} s h =
    let (next, e, k) = >>=-eq_ok (require (parse_status (env.to_upper (env.trim_space x)))) _ h in
    let v : valid_transition t.status next ≡ true = ground arith in
    let k' : t' ≡ apply_status env.status_time next t = ground arith in
    rw k' (apply_status-Good env.status_time next t v s)

-- What the update makes of the ticket that it found.
pub update_steps :
    (env : Env) (number : String) (req : UpdateRequest) (store : Store) {t' : Ticket}
    {store' : Store}
    → update env number req store ≡ ok (t', store')
    → (t u : Ticket) × (find env number store ≡ ok t)
      × (IsStamped t → Good t u)
      × (t' ≡ record u { updated_at = env.now })
      × (store' ≡ record store { tickets = update_row t' store.tickets })
unfolding update
update_steps env number req store {t'} {store'} h =
    let (t, e, h₁) = >>=-eq_ok (find env number store) _ h in
    let (t₁, e₁, h₂) = >>=-eq_ok (set_priority env req.priority t) _ h₁ in
    let (t₂, e₂, h₃) = >>=-eq_ok (set_category env req.category t₁) _ h₂ in
    let (t₃, e₃, h₄) =
      >>=-eq_ok (set_status env req.status (set_assignee env req.assigned_to_agent t₂)) _ h₃ in
    let (_, e₄, h₅) = >>=-eq_ok (call env update_ticket "update ticket") _ h₄ in
    let (_, e₅, h₆) = >>=-eq_ok (refuse (not (has_row t₃.id store.tickets)) _) _ h₅ in
    let t₂' = set_assignee env req.assigned_to_agent t₂ in
    let same = IsSame-trans t t₁ t₂' (set_priority-IsSame env req.priority t e₁) (
      IsSame-trans t₁ t₂ t₂' (set_category-IsSame env req.category t₁ e₂)
        (set_assignee-IsSame env req.assigned_to_agent t₂)) in
    let (done, rows) = ok_pair h₆ in
    (
      t,
      t₃,
      e,
      (λ s.
          IsSame-Good-trans t t₂' t₃ same
            (set_status-Good env req.status t₂' (IsSame-Good t t₂' s same).0 e₃)),
      done,
      rw done rows,
    )
