-- ===== src/Access/AuthorizeLaws.antt =====
-- Whom src/authz/target-authorization.ts lets pass.
use mathlib.Core.Path.{subst}
use shld.Prelude.{
  ap, sym, ◌∙◌, ◌≡◌, ◌⊎◌, Bool, true, false, Option, none, some, ◌==◌, ==_iff, arith, Bool-cases,
  Option-cases, inl, inr,
}
use shld.Access.Permissions.{is_in_scope}
use shld.Access.Authorize.{
  AuthorizeTargetEnvironmentParams, is_authorized, is_expired, find_target,
  authorize_target_environment,
}
use shld.Action.{ok, err, ◌>>=◌}
use shld.Domain.Errors.{DomainError, not_found, authorization, target_authorization}
use shld.Store.{Db}
use shld.Store.Rows.{TargetEnvironment}

-- the target is there, is one of the caller's organization and repository, is in the agent's scope
-- and holds an authorization that has not run out
pub record IsOpenTo (params : AuthorizeTargetEnvironmentParams) (db : Db) (t : TargetEnvironment)
    : Type 0 where
  pub found : find_target params.target_environment_id db ≡ some t
  pub own : params.organization_id ≡ t.organization_id
  pub here : t.repository_id ≡ params.repository_id
  pub in_scope : is_in_scope params.permissions.target_environment_ids t.id ≡ true
  pub authorized : is_authorized t.authorization_status ≡ true
  pub unexpired : is_expired t.authorization_expires_at db.now ≡ false

authorizes :
    (params : AuthorizeTargetEnvironmentParams) (db : Db) (t : TargetEnvironment)
    → IsOpenTo params db t
    → authorize_target_environment params db ≡ (ok t, db)
unfolding authorize_target_environment ◌>>=◌
authorizes params db t o = rw (
  o.found,
  (==_iff params.organization_id t.organization_id).1 o.own,
  (==_iff t.repository_id params.repository_id).1 o.here,
  o.in_scope,
  o.authorized,
  o.unexpired,
)

closed : {b : Bool} → b ≡ false → b ≡ true → ⊥
closed shut open_ = ground arith

-- what a refusal says
abbrev pub Refused : AuthorizeTargetEnvironmentParams → Db → Type 0
Refused params db =
    (e : DomainError) × (authorize_target_environment params db ≡ (err e, db))
    × ((t : TargetEnvironment) → ¬ IsOpenTo params db t)

target_of : Option TargetEnvironment → TargetEnvironment → TargetEnvironment
target_of none d = d
target_of (some t) d = t

same_target :
    (params : AuthorizeTargetEnvironmentParams) (db : Db) (t u : TargetEnvironment)
    → find_target params.target_environment_id db ≡ some t
    → IsOpenTo params db u
    → u ≡ t
unfolding target_of
same_target params db t u found o = ap (λ x. target_of x u) (sym o.found ∙ found)

-- A target environment is handed out exactly if it exists, belongs to the caller's organization and
-- repository, is in the scope of the agent's permissions, is authorized, and its authorization has
-- not run out; otherwise the call throws. Either way nothing is written.
pub authorize_target_environment-open :
    (params : AuthorizeTargetEnvironmentParams) (db : Db)
    → ((t : TargetEnvironment) × IsOpenTo params db t
        × (authorize_target_environment params db ≡ (ok t, db)))
      ⊎ Refused params db
unfolding authorize_target_environment ◌>>=◌
authorize_target_environment-open params db =
    elim (Option-cases (find_target params.target_environment_id db)) [
      | inl missing ↦ inr (not_found, rw missing, λ t o. ground (arith, sym missing ∙ o.found))
      | inr (t, found) ↦
          let this = λ (u : TargetEnvironment) (o : IsOpenTo params db u).
            subst (IsOpenTo params db) (same_target params db t u found o) o in
          elim (Bool-cases (params.organization_id == t.organization_id)) [
            | inr foreign ↦ inr (
              authorization,
              rw (found, foreign),
              λ u o.
                  closed foreign
                    ((==_iff params.organization_id t.organization_id).1 (this u o).own),
            )
            | inl own ↦ elim (Bool-cases (t.repository_id == params.repository_id)) [
              | inr other ↦ inr (
                authorization,
                rw (found, own, other),
                λ u o.
                    closed other ((==_iff t.repository_id params.repository_id).1 (this u o).here),
              )
              | inl here ↦
                  elim (Bool-cases (is_in_scope params.permissions.target_environment_ids t.id)) [
                    | inr out ↦ inr (
                      authorization,
                      rw (found, own, here, out),
                      λ u o. closed out (this u o).in_scope,
                    )
                    | inl in_scope ↦ elim (Bool-cases (is_authorized t.authorization_status)) [
                      | inr not_yet ↦ inr (
                        target_authorization,
                        rw (found, own, here, in_scope, not_yet),
                        λ u o. closed not_yet (this u o).authorized,
                      )
                      | inl authorized ↦
                          elim (Bool-cases (is_expired t.authorization_expires_at db.now)) [
                            | inl over ↦ inr (
                              target_authorization,
                              rw (found, own, here, in_scope, authorized, over),
                              λ u o. closed (this u o).unexpired over,
                            )
                            | inr unexpired ↦ inl (
                              t,
                              record {
                                found = found;
                                own = (==_iff params.organization_id t.organization_id).0 own;
                                here = (==_iff t.repository_id params.repository_id).0 here;
                                in_scope = in_scope;
                                authorized = authorized;
                                unexpired = unexpired;
                              },
                              rw (found, own, here, in_scope, authorized, unexpired),
                            )
                          ]
                    ]
                  ]
            ]
          ]
    ]
