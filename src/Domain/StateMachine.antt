-- ===== src/Domain/StateMachine.antt =====
-- src/domain/state-machine.ts, for any type of states with a test for equality (`===`).
use shld.Prelude.{String, Bool, List, any, if◌then◌else◌}
use shld.Domain.Errors.{invalid_state_transition}
use shld.Action.{Result, ok, err}

pub record StateMachine (S : Type 0) : Type 0 where
  pub entity_name : String
  pub table : S → List S
  pub same : S → S → Bool
  -- the state as a string, for the error
  pub name : S → String

module _ {S : Type 0} (m : StateMachine S) where
  unfoldable pub allowed_next : S → List S
  allowed_next current = m.table current

  -- `xs.includes(x)`
  unfoldable pub includes : S → List S → Bool
  includes x xs = any (m.same x) xs

  unfoldable pub can_transition : S → S → Bool
  unfolding allowed_next includes
  can_transition from to = includes to (allowed_next from)

  unfoldable pub assert_transition : S → S → Result (Unit {0})
  assert_transition from to =
      if can_transition from to
      then ok tt
      else err (invalid_state_transition m.entity_name (m.name from) (m.name to))
