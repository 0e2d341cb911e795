-- ===== src/Ticket/Paging.antt =====
-- internal/domain/ticket/service.go, List: the pages of the ticket list.
use bca_mobile_api.Common.{
  ℕ, ap, zero, suc, ◌∙◌, ◌+◌, ◌≤◌, true, false, ◌≡◌, refl, List, [], ◌∷◌, length, length-take, take,
  ltb, ok, >>=-eq_ok, arith, inl, inr, Bool-cases, if◌then◌else◌,
}
use Prim.Native.Nat.{min}
use bca_mobile_api.Ticket.Data.{Ticket, ListFilter}
use bca_mobile_api.Ticket.Store.{
  Env, Store, call, list_tickets, select_tickets, passes, before, insert_newest,
}
use bca_mobile_api.Ticket.Service.{Page, list, bound_limit, max_limit}

-- Each row comes before the next one in the order of the list, or at the same place.
abbrev pub AllAfter : Ticket → List Ticket → Type 0
AllAfter t [] = Unit
AllAfter t (u ∷ us) = (before u.created_at u.id t ≡ false) × AllAfter t us

abbrev pub AllPass : ListFilter → List Ticket → Type 0
AllPass f [] = Unit
AllPass f (t ∷ ts) = (passes f t ≡ true) × AllPass f ts

insert_newest-AllPass :
    (f : ListFilter) (t : Ticket) (ts : List Ticket)
    → passes f t ≡ true
    → AllPass f ts
    → AllPass f (insert_newest t ts)
unfolding insert_newest
insert_newest-AllPass f t [] h a = (h, tt)
insert_newest-AllPass f t (u ∷ us) h a = elim (Bool-cases (before t.created_at t.id u)) [
  | inl e ↦ rw e (h, a)
  | inr e ↦ rw e (a.0, insert_newest-AllPass f t us h a.1)
]

select-AllPass : (f : ListFilter) (ts : List Ticket) → AllPass f (select_tickets f ts)
unfolding select_tickets
select-AllPass f [] = tt
select-AllPass f (t ∷ ts) = elim (Bool-cases (passes f t)) [
  | inl e ↦ rw e (insert_newest-AllPass f t (select_tickets f ts) e (select-AllPass f ts))
  | inr e ↦ rw e (select-AllPass f ts)
]

take-AllPass : (n : ℕ) (f : ListFilter) (ts : List Ticket) → AllPass f ts → AllPass f (take n ts)
take-AllPass zero f ts a = tt
take-AllPass (suc n) f [] a = tt
take-AllPass (suc n) f (t ∷ ts) a = (a.0, take-AllPass n f ts a.1)

take-take : (n : ℕ) (ts : List Ticket) → take n (take (suc n) ts) ≡ take n ts
take-take zero ts = refl
take-take (suc n) [] = refl
take-take (suc n) (t ∷ ts) = ap (λ r. t ∷ r) (take-take n ts)

take_all : (n : ℕ) (ts : List Ticket) → length (take (suc n) ts) ≤ n → take (suc n) ts ≡ take n ts
take_all zero [] h = refl
take_all zero (t ∷ ts) h = let bad : ⊥ = omega arith in absurd bad
take_all (suc n) [] h = refl
take_all (suc n) (t ∷ ts) h = ap (λ r. t ∷ r) (take_all n ts (omega arith))

bound_limit_le : (n : ℕ) → bound_limit n ≤ 100
bound_limit_le n = ground arith

page_rows :
    (n : ℕ) (ts : List Ticket)
    → (if ltb n (length (take (n + 1) ts)) then take n (take (n + 1) ts) else take (n + 1) ts)
      ≡ take n ts
page_rows n ts =
    let one : n + 1 ≡ suc n = omega arith in
    rw one (elim (Bool-cases (ltb n (length (take (suc n) ts)))) [
      | inl e ↦ rw e (take-take n ts)
      | inr e ↦ rw e (take_all n ts (ground arith))
    ])

-- A page has the first rows of what the filter selects, one hundred at most, each of which passes the
-- filter; it says that there is more exactly if the selection is longer than the limit.
pub list-AllPass :
    (env : Env) (filter : ListFilter) (store : Store) {page : Page}
    → list env filter store ≡ ok page
    → (page.rows ≡ take (bound_limit filter.limit) (select_tickets filter store.tickets))
      × (length page.rows ≤ max_limit)
      × AllPass filter page.rows
      × (page.has_more
          ≡ ltb (bound_limit filter.limit) (length (select_tickets filter store.tickets)))
unfolding list
list-AllPass env filter store {page} h =
    let (_, _, h₁) = >>=-eq_ok (call env list_tickets "list tickets") _ h in
    let n = bound_limit filter.limit in
    let all = select_tickets filter store.tickets in
    let made : page.rows ≡ (
        if ltb n (length (take (n + 1) all)) then take n (take (n + 1) all) else take (n + 1) all) =
      ap (λ (p : Page). p.rows) (page_eq h₁) in
    let rows : page.rows ≡ take n all = made ∙ page_rows n all in
    let more : page.has_more ≡ ltb n (length (take (n + 1) all)) =
      ap (λ (p : Page). p.has_more) (page_eq h₁) in
    let short = length-take n all in
    let long = length-take (n + 1) all in
    let small = bound_limit_le filter.limit in
    (
      rows,
      rw rows (omega arith),
      rw rows (take-AllPass n filter all (select-AllPass filter store.tickets)),
      more ∙ rw long (more_rows n (length all)),
    )
  where
    page_eq : {p : Page} → ok p ≡ ok page → page ≡ p
    page_eq e = cc

    more_rows : (n m : ℕ) → ltb n (min (n + 1) m) ≡ ltb n m
    more_rows n m = ground arith
