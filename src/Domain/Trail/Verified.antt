-- ===== src/Domain/Trail/Verified.antt =====
-- The end of a trail that leads to `verified_fixed`.
use shld.Prelude.{◌≡◌, true, some, Option, List, ◌∷◌, map, arith}
use mathlib.Core.Path.{subst}
use shld.Domain.StateMachine.{can_transition, includes}
use shld.Domain.FindingStatus
use shld.Domain.FindingStatus.{
  FindingStatus, verified_fixed, retesting, fix_submitted, fix_pending, suspected,
}
use shld.Domain.Trail.{begin, moved, FindingTrail}
use shld.Store.Rows.{AuditEvent, AuditState, of_finding}

abbrev pub new_states : List AuditEvent → List (Option AuditState)
new_states = map (λ e. e.new_state)

-- the last event of a trail, and the trail before it
record LastMove (es : List AuditEvent) (t : FindingStatus) : Type 0 where
  before : FindingStatus
  rest : List AuditEvent
  trail : FindingTrail rest before
  legal : can_transition FindingStatus.machine before t ≡ true
  states : new_states es ≡ some (of_finding t) ∷ new_states rest

last_move :
    {es : List AuditEvent} {t : FindingStatus}
    → FindingTrail es t
    → (t ≡ suspected → ⊥)
    → LastMove es t
last_move (begin c) h = absurd (h c.status)
last_move (moved {es} {s} e trail legal p n) h = record {
  before = s;
  rest = es;
  trail = trail;
  legal = legal;
  states = rw n;
}

only_before_verified :
    (s : FindingStatus)
    → can_transition FindingStatus.machine s verified_fixed ≡ true
    → s ≡ retesting
unfolding can_transition includes
only_before_verified s h = ground arith

only_before_retesting :
    (s : FindingStatus)
    → can_transition FindingStatus.machine s retesting ≡ true
    → s ≡ fix_submitted
unfolding can_transition includes
only_before_retesting s h = ground arith

only_before_submitted :
    (s : FindingStatus)
    → can_transition FindingStatus.machine s fix_submitted ≡ true
    → s ≡ fix_pending
unfolding can_transition includes
only_before_submitted s h = ground arith

-- one move back, where the table has one way in
step_back :
    {es : List AuditEvent} {t : FindingStatus} (s : FindingStatus)
    → FindingTrail es t
    → (t ≡ suspected → ⊥)
    → ((q : FindingStatus) → can_transition FindingStatus.machine q t ≡ true → q ≡ s)
    → (rest : List AuditEvent) × FindingTrail rest s
      × (new_states es ≡ some (of_finding t) ∷ new_states rest)
step_back s trail late only =
    let m = last_move trail late in
    (m.rest, subst (FindingTrail m.rest) (only m.before m.legal) m.trail, m.states)

pub verified_trail :
    {es : List AuditEvent}
    → FindingTrail es verified_fixed
    → (older : List (Option AuditState)) × (new_states es
        ≡ some (of_finding verified_fixed)
          ∷ some (of_finding retesting)
          ∷ some (of_finding fix_submitted)
          ∷ some (of_finding fix_pending)
          ∷ older)
verified_trail trail =
    let (es1, t1, e1) = step_back retesting trail (λ h. cc) only_before_verified in
    let (es2, t2, e2) = step_back fix_submitted t1 (λ h. cc) only_before_retesting in
    let (es3, t3, e3) = step_back fix_pending t2 (λ h. cc) only_before_submitted in
    let m = last_move t3 (λ h. cc) in (new_states m.rest, cc (e1, e2, e3, m.states))
