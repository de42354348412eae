-- ===== src/Domain/Trail/Creation.antt =====
-- The creation of a finding, and a change that leaves its key and status alone, keep the trails.
use shld.Prelude.{
  ℕ, suc, ◌≤◌, ◌≡◌, refl, ap, sym, ◌∙◌, inl, inr, Bool-cases, Option-cases, true, false, none, some,
  [], ◌∷◌, arith, ◌==◌, ==_iff, if◌then◌else◌,
}
use mathlib.Core.Path.{subst}
use shld.Action.{◌>>=◌}
use shld.Action.Keeps.{Keeps}
use shld.Domain.FindingStatus.{FindingStatus}
use shld.Domain.Transitions.{find_finding, update_finding}
use shld.Domain.Creation.{NewFinding, finding_of, creation_event, create_finding}
use shld.Domain.Trail.Findings.{status_of}
use shld.Domain.Trail.{begin, events_about, FindingTrail, IsAudited}
use shld.Store.{Db}
use shld.Store.Table.{find_by, map_option, find_by-update_by}
use shld.Store.Rows.{Finding, AuditEvent}

module _ (new : NewFinding) (run_id : ℕ) (db : Db) (inv : IsAudited db) where
  abbrev event : AuditEvent
  event = creation_event new run_id db.next_id

  abbrev after : Db
  after = record db {
    next_id = suc db.next_id;
    findings = finding_of new db.next_id ∷ db.findings;
    audit_events = event ∷ db.audit_events;
  }

  find_finding-after :
      (j : ℕ)
      → find_finding j after
        ≡ (if db.next_id == j then some (finding_of new db.next_id) else find_finding j db)
  unfolding find_finding find_by
  find_finding-after j = refl

  first_trail :
      (j : ℕ)
      → (db.next_id == j) ≡ true
      → FindingTrail (events_about j after.audit_events) FindingStatus.suspected
  unfolding events_about
  first_trail j same =
      let here : db.next_id ≡ j = (==_iff db.next_id j).0 same in
      let quiet : events_about j db.audit_events ≡ [] = inv.silent j (inv.fresh j (omega arith)) in
      begin (record {
        event = event;
        alone = rw (same, quiet);
        status = refl;
        previous = refl;
        new = refl;
      })

  events_about-other :
      (j : ℕ)
      → (db.next_id == j) ≡ false
      → events_about j after.audit_events ≡ events_about j db.audit_events
  unfolding events_about
  events_about-other j other = rw other

  after-trails :
      (j : ℕ) (g : Finding)
      → find_finding j after ≡ some g
      → FindingTrail (events_about j after.audit_events) g.status
  after-trails j g h = elim (Bool-cases (db.next_id == j)) [
    | inl same ↦
        let made : some (finding_of new db.next_id) ≡ some g =
          rw (find_finding-after j, same) at h in
        subst (FindingTrail (events_about j after.audit_events)) (ap status_of made)
          (first_trail j same)
    | inr other ↦
        rw (events_about-other j other) (inv.trails j g (rw (find_finding-after j, other) at h))
  ]

  after-silent : (j : ℕ) → find_finding j after ≡ none → events_about j after.audit_events ≡ []
  after-silent j h = elim (Bool-cases (db.next_id == j)) [
    | inl same ↦
        let gone : some (finding_of new db.next_id) ≡ none = rw (find_finding-after j, same) at h in
        cc
    | inr other ↦
        rw (events_about-other j other) (inv.silent j (rw (find_finding-after j, other) at h))
  ]

  after-fresh : (j : ℕ) → suc db.next_id ≤ j → find_finding j after ≡ none
  after-fresh j h = rw (find_finding-after j, inv.fresh j (omega arith)) (ground arith)

  after-IsAudited : IsAudited after
  after-IsAudited = record { trails = after-trails; silent = after-silent; fresh = after-fresh }

pub create_finding-IsAudited :
    (new : NewFinding) (run_id : ℕ) → Keeps IsAudited (create_finding new run_id)
unfolding create_finding ◌>>=◌
create_finding-IsAudited new run_id = record { at = λ db inv. after-IsAudited new run_id db inv }

-- a change of other columns
module _ (id : ℕ) (change : Finding → Finding) (same_key : (f : Finding) → (change f).id ≡ f.id)
    (same_status : (f : Finding) → (change f).status ≡ f.status) where
  find_finding-update :
      (db : Db) (j : ℕ)
      → find_finding j (update_finding id change db).1
        ≡ (if id == j then map_option (λ f. f.id) change (find_finding j db) else find_finding j db)
  unfolding find_finding update_finding ◌>>=◌
  find_finding-update db j = find_by-update_by (λ f. f.id) id j change db.findings same_key

  update_status :
      (db : Db) (j : ℕ) (g : Finding)
      → find_finding j (update_finding id change db).1 ≡ some g
      → (f : Finding) × (find_finding j db ≡ some f) × (f.status ≡ g.status)
  update_status db j g h = elim (Option-cases (find_finding j db)) [
    | inl missing ↦ absurd (none_case (rw (find_finding-update db j, missing) at h))
    | inr (f, found) ↦ (f, found, some_case f (rw (find_finding-update db j, found) at h))
  ]
    where
      none_case : (if id == j then none else none) ≡ some g → ⊥
      none_case e = ground arith

      some_case :
          (f : Finding)
          → (if id == j then some (change f) else some f) ≡ some g
          → f.status ≡ g.status
      some_case f e = elim (Bool-cases (id == j)) [
        | inl same ↦ sym (same_status f) ∙ ap status_of (rw same at e)
        | inr other ↦ ap status_of (rw other at e)
      ]

  update_missing :
      (db : Db) (j : ℕ)
      → find_finding j (update_finding id change db).1 ≡ none
      → find_finding j db ≡ none
  update_missing db j h = elim (Option-cases (find_finding j db)) [
    | inl missing ↦ missing
    | inr (f, found) ↦ absurd (some_case f (rw (find_finding-update db j, found) at h))
  ]
    where
      some_case : (f : Finding) → (if id == j then some (change f) else some f) ≡ none → ⊥
      some_case f e = ground arith

  pub update_finding-IsAudited : Keeps IsAudited (update_finding id change)
  unfolding update_finding ◌>>=◌
  update_finding-IsAudited = record {
    at = λ db inv. record {
      trails = λ j g h.
          let (f, found, same) = update_status db j g h in
          subst (FindingTrail (events_about j db.audit_events)) same (inv.trails j f found);
      silent = λ j h. inv.silent j (update_missing db j h);
      fresh = λ j h. rw (find_finding-update db j, inv.fresh j h) (ground arith);
    };
  }
