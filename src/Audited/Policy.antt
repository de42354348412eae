-- ===== src/Audited/Policy.antt =====
-- The routing policy keeps the promise of the audit log.
use shld.Action.Keeps.{Keeps}
use shld.Domain.Trail.{IsAudited}
use shld.Policy.Apply.{ApplyRoutingPolicyParams, apply_routing_policy}
use shld.Audited.Engines.{finding_rules}

pub apply_routing_policy-IsAudited :
    (params : ApplyRoutingPolicyParams) → Keeps IsAudited (apply_routing_policy params)
unfolding apply_routing_policy
apply_routing_policy-IsAudited params = search finding_rules depth 9
