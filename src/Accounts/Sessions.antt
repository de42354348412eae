-- ===== src/Accounts/Sessions.antt =====
-- src/auth/sessions.ts. The hash of node:crypto is a parameter; a new token is an argument.
use shld.Prelude.{
  ℕ, ◌+◌, Bool, ◌||◌, Option, none, some, List, [], ◌∷◌, String, str_eq, ltb, is_some,
  if◌then◌else◌, find,
}
use shld.Action.{Action, ok, err, pure, lift, gets, modify, or_throw, ◌>>=◌, ◌>>◌}
use shld.Domain.Errors.{authorization, unique_violation, record_missing}
use shld.Store.{Db}
use shld.Store.Accounts.{Session, User, UserRole}
use shld.Store.Table.{find_by}

-- seven days in milliseconds
abbrev pub session_ttl_ms : ℕ
session_ttl_ms = 604800000

pub record CreatedSession : Type 0 where
  pub token : List ℕ
  pub expires_at : ℕ

pub record AuthenticatedUser : Type 0 where
  pub user_id : ℕ
  pub organization_id : ℕ
  pub role : UserRole

-- `session.findUnique({ where: { tokenHash } })`
unfoldable pub find_session : String → Db → Option Session
find_session hash db = find (λ s. str_eq s.token_hash hash) db.sessions

-- the user that a session includes
unfoldable pub find_user : ℕ → Db → Option User
find_user id db = find_by (λ u. u.id) id db.users

abbrev pub insert_session : Session → Db → Db
insert_session row db = record db { sessions = row ∷ db.sessions }

-- the update of `revokeSession`, for one row
abbrev pub revoked_at_now : String → ℕ → Session → Session
revoked_at_now hash now s =
    if str_eq s.token_hash hash then record s { revoked_at = some now } else s

unfoldable pub revoke_all : String → ℕ → List Session → List Session
revoke_all hash now [] = []
revoke_all hash now (s ∷ ss) = revoked_at_now hash now s ∷ revoke_all hash now ss

abbrev pub is_over : Session → ℕ → Bool
is_over s now = is_some s.revoked_at || ltb s.expires_at now

module _ (hash_token : List ℕ → String) where
  -- the hash of a token is unique, and its user must be there
  unfoldable pub create_session : List ℕ → ℕ → Action Db CreatedSession
  unfolding ◌>>=◌
  create_session token user_id = do
    now ← gets (λ db. db.now)
    taken ← gets (find_session (hash_token token))
    lift (if is_some taken then err unique_violation else ok tt)
    user ← gets (find_user user_id)
    or_throw user record_missing
    modify (
        insert_session (record {
          user_id = user_id;
          token_hash = hash_token token;
          expires_at = now + session_ttl_ms;
          revoked_at = none;
        }))
    pure (record { token = token; expires_at = now + session_ttl_ms })

  unfoldable pub authenticate_session : List ℕ → Action Db AuthenticatedUser
  unfolding ◌>>=◌
  authenticate_session token = do
    found ← gets (find_session (hash_token token))
    session ← or_throw found authorization
    now ← gets (λ db. db.now)
    lift (if is_over session now then err authorization else ok tt)
    owner ← gets (find_user session.user_id)
    user ← or_throw owner record_missing
    pure (record { user_id = user.id; organization_id = user.organization_id; role = user.role })

  unfoldable pub revoke_session : List ℕ → Action Db (Unit {0})
  unfolding revoke_all
  revoke_session token =
      modify λ db. record db { sessions = revoke_all (hash_token token) db.now db.sessions }
