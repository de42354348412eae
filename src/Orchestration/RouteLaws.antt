-- ===== src/Orchestration/RouteLaws.antt =====
-- What the routing of a run does where its target is not authorized: routing-and-receipt.ts.
use shld.Prelude.{◌≡◌, refl, ℕ, false, List, [], ◌∷◌}
use shld.Access.Permissions.{AgentPermissions}
use shld.Action.{ok, for_each, ◌>>=◌}
use shld.Orchestration.Route.{route_finding}
use shld.Policy.Apply.{apply_routing_policy}
use shld.Policy.Routing.{evaluate_routing_policy}
use shld.Store.{Db}
use shld.Store.Rows.{Finding, SecurityRun}
use shld.Store.Writes.{create_routing_decision}

-- the loop returns, with the findings, the audit log and the jobs as they were
pub record RoutesNothing (run : SecurityRun) (permissions : AgentPermissions) (spent : ℕ)
    (candidates : List Finding) (db : Db) : Type 0 where
  pub after : Db
  pub returns : for_each candidates (route_finding run permissions spent false) db ≡ (ok tt, after)
  pub same_findings : after.findings ≡ db.findings
  pub same_log : after.audit_events ≡ db.audit_events
  pub same_jobs : after.outbox ≡ db.outbox

-- the database after a decision to skip
abbrev skipped : SecurityRun → Finding → Db → Db
skipped run f db = record db {
  routing_decisions =
      (record {
        run_id = run.id;
        finding_id = f.id;
        policy_version = run.policy_version;
        escalate = false;
      })
      ∷ db.routing_decisions;
}

route_finding-unauthorized :
    (run : SecurityRun) (permissions : AgentPermissions) (spent : ℕ) (f : Finding) (db : Db)
    → route_finding run permissions spent false f db ≡ (ok tt, skipped run f db)
unfolding route_finding apply_routing_policy evaluate_routing_policy create_routing_decision ◌>>=◌
route_finding-unauthorized run permissions spent f db = refl

-- Where the target was not found to be authorized, the loop over the candidates returns, moves no
-- finding, adds no event to the log and hands over no job, whatever the severities of the candidates
-- are.
pub unauthorized-RoutesNothing :
    (run : SecurityRun) (permissions : AgentPermissions) (spent : ℕ) (candidates : List Finding)
    (db : Db)
    → RoutesNothing run permissions spent candidates db
unfolding for_each ◌>>=◌
unauthorized-RoutesNothing run permissions spent [] db = record {
  after = db;
  returns = refl;
  same_findings = refl;
  same_log = refl;
  same_jobs = refl;
}
unauthorized-RoutesNothing run permissions spent (f ∷ fs) db =
    let rest = unauthorized-RoutesNothing run permissions spent fs (skipped run f db) in
    record {
      after = rest.after;
      returns = rw (route_finding-unauthorized run permissions spent f db) rest.returns;
      same_findings = rest.same_findings;
      same_log = rest.same_log;
      same_jobs = rest.same_jobs;
    }
