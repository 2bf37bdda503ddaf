-- ===== src/Bff/Revoked.antt =====
-- Sessions that are closed: the row is there, and it is revoked.
use node_with_aoth.Prelude.{
  ℕ, ◌≡◌, ◌==◌, refl, String, Bool, true, false, ◌||◌, none, List, [], ◌∷◌, ◌++◌, map, arith,
  ==_iff,
}
use node_with_aoth.Database.Action.{ok}
use node_with_aoth.Identity.Tables.{Session, IdentityDb}
use node_with_aoth.Identity.Authorizations.{join}
use node_with_aoth.Identity.Secrets.{Crypto}
use node_with_aoth.Bff.Repository.{
  Draws, TokenUpdate, is_none, is_open, has_session, insert_session, revoke_row, update_row,
  load_session,
}

abbrev pub has_open : String → List Session → Bool
has_open i [] = false
has_open i (s ∷ ss) = is_open i s || has_open i ss

-- The session was opened, and is revoked.
pub record Closed (i : String) (db : IdentityDb) : Type 0 where
  pub exists : has_session i db.sessions ≡ true
  pub closed : has_open i db.sessions ≡ false

-- A change of a row that neither renames the session nor opens it again.
pub record StaysClosed (g : Session → Session) : Type 0 where
  pub same : (s : Session) → (g s).id ≡ s.id
  pub shut : (s : Session) → is_none (g s).revoked_at ≡ true → is_none s.revoked_at ≡ true

pub revoke_row-StaysClosed : (i : String) (now : ℕ) → StaysClosed (revoke_row i now)
revoke_row-StaysClosed i now = record { same = λ s. ground arith; shut = λ s h. ground arith }

pub update_row-StaysClosed :
    (c : Crypto) (env_key : String) (ids : Draws) (t : TokenUpdate)
    → StaysClosed (update_row c env_key ids t)
update_row-StaysClosed c env_key ids t = record {
  same = λ s. ground arith;
  shut = λ s h. ground arith;
}

module _ (i : String) where
  has_session-map :
      (g : Session → Session) (ss : List Session)
      → StaysClosed g
      → has_session i (map g ss) ≡ has_session i ss
  has_session-map g [] k = refl
  has_session-map g (s ∷ ss) k = rw (k.same s, has_session-map g ss k) refl

  has_open-map :
      (g : Session → Session) (ss : List Session)
      → StaysClosed g
      → has_open i ss ≡ false
      → has_open i (map g ss) ≡ false
  has_open-map g [] k h = refl
  has_open-map g (s ∷ ss) k h = rw (k.same s) (ground (arith, k.shut s, has_open-map g ss k))

  pub Closed-map :
      (g : Session → Session) (db : IdentityDb)
      → StaysClosed g
      → Closed i db
      → Closed i (record db { sessions = map g db.sessions })
  Closed-map g db k c = record {
    exists = rw (has_session-map g db.sessions k) c.exists;
    closed = has_open-map g db.sessions k c.closed;
  }

  has_session-append :
      (ss : List Session) (s : Session)
      → has_session i ss ≡ true
      → has_session i (ss ++ s ∷ []) ≡ true
  has_session-append [] s h = absurd (cc)
  has_session-append (t ∷ ss) s h = ground (arith, has_session-append ss s)

  has_open-append :
      (ss : List Session) (s : Session)
      → (s.id == i) ≡ false
      → has_open i ss ≡ false
      → has_open i (ss ++ s ∷ []) ≡ false
  has_open-append [] s e h = rw e refl
  has_open-append (t ∷ ss) s e h = ground (arith, has_open-append ss s)

  other_id :
      (ss : List Session) (j : String)
      → has_session j ss ≡ false
      → has_session i ss ≡ true
      → (j == i) ≡ false
  other_id ss j h k = ground (arith, ==_iff j i)

  pub insert_session-Closed :
      (s : Session) (db : IdentityDb) → Closed i db → Closed i (insert_session s db).1
  unfolding insert_session
  insert_session-Closed s db c = by_test (has_session s.id db.sessions) refl
    where
      by_test : (b : Bool) → has_session s.id db.sessions ≡ b → Closed i (insert_session s db).1
      by_test true e = rw e c
      by_test false e = rw e (record {
        exists = has_session-append db.sessions s c.exists;
        closed = has_open-append db.sessions s (other_id db.sessions s.id e c.exists) c.closed;
      })

  join_none :
      {B : Type 0} (rest : Session → List B) (ss : List Session)
      → has_open i ss ≡ false
      → join (is_open i) ss rest ≡ []
  join_none rest [] h = refl
  join_none rest (s ∷ ss) h = ground (arith, join_none rest ss)

  -- A closed session is not found.
  pub load_session-Closed :
      (c : Crypto) (env_key : String) (db : IdentityDb)
      → Closed i db
      → load_session c env_key none i db ≡ (ok none, db)
  unfolding load_session
  load_session-Closed c env_key db k = rw (join_none _ db.sessions k.closed) refl

  has_open-revoke_row :
      (now : ℕ) (ss : List Session) → has_open i (map (revoke_row i now) ss) ≡ false
  has_open-revoke_row now [] = refl
  has_open-revoke_row now (s ∷ ss) = ground (arith, has_open-revoke_row now ss)

  -- The row that `revokeSession` names is closed by it.
  pub revoke_row-Closed :
      (now : ℕ) (db : IdentityDb)
      → has_session i db.sessions ≡ true
      → Closed i (record db { sessions = map (revoke_row i now) db.sessions })
  revoke_row-Closed now db h = record {
    exists = rw (has_session-map (revoke_row i now) db.sessions (revoke_row-StaysClosed i now)) h;
    closed = has_open-revoke_row now db.sessions;
  }
