-- ===== src/VideoCall/Moves.antt =====
-- internal/domain/onboarding/video_call_service.go: how the calls of a table move on.
use bca_mobile_api.Common.{
  ℕ, ◌≤◌, ◌≡◌, refl, sym, ap, ◌∙◌, String, Bool, true, false, Option, none, some, is_some, List, [],
  ◌∷◌, ◌==◌, arith, Bool-cases, inl, inr,
}
use bca_mobile_api.VideoCall.Calls.{
  Status, queued, active, completed, cancelled, CallResult, VideoCall, CallWorld, is_active,
  is_waiting, or_time, find_by_queue_id, change_call, take_call, cancel_call, complete_call,
}

-- QUEUED, then ACTIVE, then COMPLETED or CANCELLED.
abbrev pub rank : Status → ℕ
rank queued = 0
rank active = 1
rank completed = 2
rank cancelled = 2

abbrev pub is_with_agent : Status → Bool
is_with_agent queued = false
is_with_agent active = true
is_with_agent completed = true
is_with_agent cancelled = false

-- A call and what became of it.
pub record Moved (a b : VideoCall) : Type 0 where
  pub same_id : b.queue_id ≡ a.queue_id
  pub same_session : b.session_id ≡ a.session_id
  pub forward : rank a.status ≤ rank b.status
  pub final : is_waiting a.status ≡ false → b ≡ a
  pub kept : is_some a.started_at ≡ true → is_some b.started_at ≡ true
  pub picked_up : a.status ≡ queued → is_with_agent b.status ≡ true → is_some b.started_at ≡ true

-- The calls of a table and those of a later one, where new calls may have come in between.
pub data Moves : List VideoCall → List VideoCall → Type 0 where
  done : Moves [] []
  moved :
      {a b : VideoCall} {xs ys : List VideoCall} → Moved a b → Moves xs ys → Moves (a ∷ xs) (b ∷ ys)
  added : {b : VideoCall} {xs ys : List VideoCall} → Moves xs ys → Moves xs (b ∷ ys)

abbrev pub WorldMoves : CallWorld → CallWorld → Type 0
WorldMoves w v = Moves w.calls v.calls

Moved-refl : (a : VideoCall) → Moved a a
Moved-refl a = record {
  same_id = refl;
  same_session = refl;
  forward = omega arith;
  final = λ h. refl;
  kept = λ h. h;
  picked_up = λ q h. let bad : false ≡ true = ap is_with_agent (sym q) ∙ h in cc;
}

pub Moves_refl : (xs : List VideoCall) → Moves xs xs
Moves_refl [] = done
Moves_refl (a ∷ xs) = moved (Moved-refl a) (Moves_refl xs)

Moved-trans : {a b c : VideoCall} → Moved a b → Moved b c → Moved a c
Moved-trans {a} {b} {c} m n = record {
  same_id = n.same_id ∙ m.same_id;
  same_session = n.same_session ∙ m.same_session;
  forward = let p = m.forward in let q = n.forward in omega arith;
  final = λ h. let e = m.final h in n.final (ap (λ x. is_waiting x.status) e ∙ h) ∙ e;
  kept = λ h. n.kept (m.kept h);
  picked_up = λ q h. picked_up_later b.status refl q h;
}
  where
    picked_up_later :
        (s : Status)
        → b.status ≡ s
        → a.status ≡ queued
        → is_with_agent c.status ≡ true
        → is_some c.started_at ≡ true
    picked_up_later queued e q h = n.picked_up e h
    picked_up_later active e q h = n.kept (m.picked_up q (ap is_with_agent e))
    picked_up_later completed e q h = n.kept (m.picked_up q (ap is_with_agent e))
    picked_up_later cancelled e q h =
        let ended = n.final (ap is_waiting e) in
        let bad : false ≡ true =
          ap is_with_agent (sym (ap (λ (x : VideoCall). x.status) ended ∙ e)) ∙ h in
        cc

pub Moves_trans : {xs ys zs : List VideoCall} → Moves xs ys → Moves ys zs → Moves xs zs
Moves_trans p done = p
Moves_trans (moved m ms) (moved n ns) = moved (Moved-trans m n) (Moves_trans ms ns)
Moves_trans (added ms) (moved n ns) = added (Moves_trans ms ns)
Moves_trans p (added ns) = added (Moves_trans p ns)

pub trans : (x y z : CallWorld) → WorldMoves x y → WorldMoves y z → WorldMoves x z
trans x y z p q = Moves_trans p q

pub same : (w : CallWorld) → WorldMoves w w
same w = Moves_refl w.calls

rank_most : (s : Status) → rank s ≤ 2
rank_most queued = omega arith
rank_most active = omega arith
rank_most completed = omega arith
rank_most cancelled = omega arith

rank-is_waiting : (s : Status) → is_waiting s ≡ true → rank s ≤ 1
rank-is_waiting queued h = omega arith
rank-is_waiting active h = omega arith
rank-is_waiting completed h = cc
rank-is_waiting cancelled h = cc

pub cancel_call-Moved : (now : ℕ) (c : VideoCall) → Moved c (cancel_call now c)
cancel_call-Moved now c = elim (Bool-cases (is_waiting c.status)) [
  | inl e ↦
      let r = rank_most c.status in
      rw e (record {
        same_id = refl;
        same_session = refl;
        forward = r;
        final = λ h. let bad : true ≡ false = sym e ∙ h in cc;
        kept = λ h. h;
        picked_up = λ q h. cc;
      })
  | inr e ↦ rw e (Moved-refl c)
]

or_time-is_some : (o : Option ℕ) (t : ℕ) → is_some (or_time o t) ≡ true
or_time-is_some none t = refl
or_time-is_some (some s) t = refl

pub take_call-Moved :
    (now : ℕ) (agent name : String) (c : VideoCall) → Moved c (take_call now agent name c)
take_call-Moved now agent name c = elim (Bool-cases (is_waiting c.status)) [
  | inl e ↦
      let r = rank-is_waiting c.status e in
      rw e (record {
        same_id = refl;
        same_session = refl;
        forward = r;
        final = λ h. let bad : true ≡ false = sym e ∙ h in cc;
        kept = λ h. or_time-is_some c.started_at now;
        picked_up = λ q h. or_time-is_some c.started_at now;
      })
  | inr e ↦ rw e (Moved-refl c)
]

is_active-is_waiting : (s : Status) → is_active s ≡ true → is_waiting s ≡ true
is_active-is_waiting queued h = cc
is_active-is_waiting active h = refl
is_active-is_waiting completed h = cc
is_active-is_waiting cancelled h = cc

pub complete_call-Moved :
    (now : ℕ) (r : CallResult) (agent name : String) (c : VideoCall)
    → is_active c.status ≡ true
    → Moved c (complete_call now r agent name c)
complete_call-Moved now r agent name c e = record {
  same_id = refl;
  same_session = refl;
  forward = rank_most c.status;
  final = λ h. let bad : true ≡ false = sym (is_active-is_waiting c.status e) ∙ h in cc;
  kept = λ h. h;
  picked_up = λ q h. let bad : false ≡ true = ap is_active (sym q) ∙ e in cc;
}

-- A change of the first call with an id, of which something is known.
pub change_found-Moves :
    (f : VideoCall → VideoCall) (id : ℕ) (cs : List VideoCall) (c : VideoCall)
    → find_by_queue_id id cs ≡ some c
    → Moved c (f c)
    → Moves cs (change_call f id cs)
unfolding change_call find_by_queue_id
change_found-Moves f id [] c h m = done
change_found-Moves f id (x ∷ xs) c h m = elim (Bool-cases (x.queue_id == id)) [
  | inl e ↦ let here : x ≡ c = some_call (rw e at h) in rw e (moved (rw here m) (Moves_refl xs))
  | inr e ↦ rw e (moved (Moved-refl x) (change_found-Moves f id xs c (rw e at h) m))
]
  where
    some_call : {y z : VideoCall} → some y ≡ some z → y ≡ z
    some_call h = cc

pub change_call-Moves :
    (f : VideoCall → VideoCall) (id : ℕ) (cs : List VideoCall)
    → ((c : VideoCall) → Moved c (f c))
    → Moves cs (change_call f id cs)
unfolding change_call
change_call-Moves f id [] k = done
change_call-Moves f id (c ∷ cs) k = elim (Bool-cases (c.queue_id == id)) [
  | inl e ↦ rw e (moved (k c) (Moves_refl cs))
  | inr e ↦ rw e (moved (Moved-refl c) (change_call-Moves f id cs k))
]
