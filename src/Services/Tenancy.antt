-- ===== src/Services/Tenancy.antt =====
-- No agent reaches what belongs to another organization: src/auth/tenant-isolation.ts as the
-- services of src/api/services use it.
use shld.Prelude.{◌≡◌, ◌≢◌, ℕ, String, false, Option, some, List, Bool-cases, inl, inr, ◌==◌, arith}
use shld.Access.Permissions.{may_perform}
use shld.Action.{err, ◌>>=◌}
use shld.Domain.Errors.{authorization}
use shld.Domain.Transitions.{find_finding, find_run}
use shld.Services.Requests.{
  AuthenticatedAgent, load_owned_finding, validate_finding, submit_fix_for_finding,
  verify_fix_for_finding, cancel_run,
}
use shld.Store.{Db}
use shld.Store.Rows.{Finding, SecurityRun}

not_equal : (m n : ℕ) → m ≢ n → (m == n) ≡ false
not_equal m n h = ground (arith, h)

module _ (a : AuthenticatedAgent) (db : Db) where
  load-foreign :
      (id : ℕ) (f : Finding)
      → find_finding id db ≡ some f
      → a.organization_id ≢ f.organization_id
      → load_owned_finding a id db ≡ (err authorization, db)
  unfolding load_owned_finding ◌>>=◌
  load-foreign id f found foreign =
      rw (found, not_equal a.organization_id f.organization_id foreign)

  submit-foreign :
      (id : ℕ) (sha : String)
      → load_owned_finding a id db ≡ (err authorization, db)
      → submit_fix_for_finding a id sha db ≡ (err authorization, db)
  unfolding submit_fix_for_finding ◌>>=◌
  submit-foreign id sha h = elim (Bool-cases (may_perform a.permissions "submit_fix")) [
    | inl b ↦ rw (b, h)
    | inr b ↦ rw b
  ]

  module _ (sha256 : List ℕ → String) (key_text : ℕ → String) where
    validate-foreign :
        (id target : ℕ)
        → load_owned_finding a id db ≡ (err authorization, db)
        → validate_finding sha256 key_text a id target db ≡ (err authorization, db)
    unfolding validate_finding ◌>>=◌
    validate-foreign id target h =
        elim (Bool-cases (may_perform a.permissions "validate_finding")) [
          | inl b ↦ rw (b, h)
          | inr b ↦ rw b
        ]

    verify-foreign :
        (id : ℕ) (target : Option ℕ)
        → load_owned_finding a id db ≡ (err authorization, db)
        → verify_fix_for_finding sha256 key_text a id target db ≡ (err authorization, db)
    unfolding verify_fix_for_finding ◌>>=◌
    verify-foreign id target h = elim (Bool-cases (may_perform a.permissions "verify_fix")) [
      | inl b ↦ rw (b, h)
      | inr b ↦ rw b
    ]

  cancel-foreign :
      (id : ℕ) (run : SecurityRun)
      → find_run id db ≡ some run
      → a.organization_id ≢ run.organization_id
      → cancel_run a id db ≡ (err authorization, db)
  unfolding cancel_run ◌>>=◌
  cancel-foreign id run found foreign =
      rw (found, not_equal a.organization_id run.organization_id foreign)

  -- what an agent asks about a finding and a run of another organization is refused, and nothing
  -- changes
  pub record IsShutOut (sha256 : List ℕ → String) (key_text : ℕ → String) (id run_id : ℕ)
      : Type 0 where
    pub validation :
        (target : ℕ) → validate_finding sha256 key_text a id target db ≡ (err authorization, db)
    pub fix : (sha : String) → submit_fix_for_finding a id sha db ≡ (err authorization, db)
    pub verification :
        (target : Option ℕ)
        → verify_fix_for_finding sha256 key_text a id target db ≡ (err authorization, db)
    pub cancellation : cancel_run a run_id db ≡ (err authorization, db)

  -- An agent that asks to validate, to fix or to verify a finding of another organization, or to
  -- cancel a run of another organization, is refused with an authorization error, and nothing
  -- changes, whatever it is permitted to do.
  pub other_tenant-IsShutOut :
      (sha256 : List ℕ → String) (key_text : ℕ → String) (id run_id : ℕ) (f : Finding)
      (run : SecurityRun)
      → find_finding id db ≡ some f
      → a.organization_id ≢ f.organization_id
      → find_run run_id db ≡ some run
      → a.organization_id ≢ run.organization_id
      → IsShutOut sha256 key_text id run_id
  other_tenant-IsShutOut sha256 key_text id run_id f run found foreign found_run foreign_run =
      let load = load-foreign id f found foreign in
      record {
        validation = λ target. validate-foreign sha256 key_text id target load;
        fix = λ sha. submit-foreign id sha load;
        verification = λ target. verify-foreign sha256 key_text id target load;
        cancellation = cancel-foreign run_id run found_run foreign_run;
      }
