-- ===== src/Accounts/SessionLaws.antt =====
-- src/auth/sessions.ts: what becomes of a session.
use shld.Prelude.{
  ℕ, ◌+◌, ◌≤◌, ◌<◌, ◌≡◌, refl, true, false, none, some, List, [], ◌∷◌, String, str_eq, eq_iff, ltb,
  is_some, arith, find, ◌⊎◌, inl, inr, Bool-cases,
}
use shld.Action.{ok, err}
use shld.Domain.Errors.{authorization}
use shld.Store.{Db}
use shld.Store.Accounts.{Session, User}
use shld.Accounts.Sessions.{
  AuthenticatedUser, CreatedSession, session_ttl_ms, find_session, find_user, insert_session,
  revoke_all, revoked_at_now, create_session, authenticate_session, revoke_session,
}

abbrev pub at_time : ℕ → Db → Db
at_time time db = record db { now = time }

abbrev pub user_of : User → AuthenticatedUser
user_of u = record { user_id = u.id; organization_id = u.organization_id; role = u.role }

le-ltb : (a b : ℕ) → b ≤ a → ltb a b ≡ false
le-ltb a b h = ground arith

lt-ltb : (a b : ℕ) → a < b → ltb a b ≡ true
lt-ltb a b h = ground arith

-- what is found under a token's hash after its revocation
abbrev IsRevoked : String → List Session → Type 0
IsRevoked hash ss =
    (find (λ s. str_eq s.token_hash hash) ss ≡ none)
    ⊎ ((s : Session) × (find (λ s. str_eq s.token_hash hash) ss ≡ some s)
        × (is_some s.revoked_at ≡ true))

revoke_all-IsRevoked :
    (hash : String) (now : ℕ) (ss : List Session) → IsRevoked hash (revoke_all hash now ss)
unfolding revoke_all
revoke_all-IsRevoked hash now [] = inl refl
revoke_all-IsRevoked hash now (s ∷ ss) = elim (Bool-cases (str_eq s.token_hash hash)) [
  | inl e ↦ inr (revoked_at_now hash now s, rw (e, e), rw e)
  | inr n ↦ rw (n, n) (revoke_all-IsRevoked hash now ss)
]

module _ (hash_token : List ℕ → String) (token : List ℕ) where
  revoked-refused :
      (db : Db)
      → IsRevoked (hash_token token) db.sessions
      → authenticate_session hash_token token db ≡ (err authorization, db)
  unfolding authenticate_session find_session
  revoked-refused db (inl missing) = rw missing
  revoked-refused db (inr (s, found, over)) = rw (found, over)

  abbrev session_of : ℕ → Db → Session
  session_of user_id db = record {
    user_id = user_id;
    token_hash = hash_token token;
    expires_at = db.now + session_ttl_ms;
    revoked_at = none;
  }

  -- the database with the new session, and what its creation answers
  abbrev pub with_session : ℕ → Db → Db
  with_session user_id db = insert_session (session_of user_id db) db

  abbrev pub created_at : Db → CreatedSession
  created_at db = record { token = token; expires_at = db.now + session_ttl_ms }

  -- A new session serves its user until it ends seven days later or is revoked, and nobody after
  -- that.
  pub record IsServed (user_id : ℕ) (u : User) (db : Db) (early late : ℕ) : Type 0 where
    pub created :
        create_session hash_token token user_id db ≡ (ok (created_at db), with_session user_id db)
    pub served :
        authenticate_session hash_token token (at_time early (with_session user_id db))
        ≡ (ok (user_of u), at_time early (with_session user_id db))
    pub ended :
        authenticate_session hash_token token (at_time late (with_session user_id db))
        ≡ (err authorization, at_time late (with_session user_id db))
    pub revoked :
        authenticate_session hash_token token
          (at_time early (revoke_session hash_token token (with_session user_id db)).1)
        ≡ (
          err authorization,
          at_time early (revoke_session hash_token token (with_session user_id db)).1,
        )

  pub create_session-IsServed :
      (user_id : ℕ) (u : User) (db : Db) (early late : ℕ)
      → find_session (hash_token token) db ≡ none
      → find_user user_id db ≡ some u
      → early ≤ db.now + session_ttl_ms
      → db.now + session_ttl_ms < late
      → IsServed user_id u db early late
  unfolding create_session authenticate_session revoke_session find_session find_user
  create_session-IsServed user_id u db early late new known h k = record {
    created = rw (new, known);
    served = rw (
      (eq_iff (hash_token token) (hash_token token)).1 refl,
      le-ltb (db.now + session_ttl_ms) early h,
      known,
    );
    ended = rw (
      (eq_iff (hash_token token) (hash_token token)).1 refl,
      lt-ltb (db.now + session_ttl_ms) late k,
    );
    revoked =
        revoked-refused _
          (revoke_all-IsRevoked (hash_token token) db.now (session_of user_id db ∷ db.sessions));
  }
