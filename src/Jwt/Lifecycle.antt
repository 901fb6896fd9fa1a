-- ===== src/Jwt/Lifecycle.antt =====
-- `Issue`, `Verify` and `Logout` together.
use pomkita_be.Prelude.{
  ◌⊎◌, inl, inr, second, minute, is_set, ◌+◌, ◌*◌, ◌≤◌, ◌<◌, String, ◌≡◌, refl, sym, ap, ◌≢◌, true,
  false, none, some, [], ◌∷◌, arith, eq_iff, ltb, str_eq, Uuid, Time,
}
use text.Mathlib.TextPositions.{eq_refl}
use pomkita_be.Domain.{ok}
use pomkita_be.Jwt.Types.{Key, Session, Claims, WireClaims, Store, Library}
use pomkita_be.Jwt.{
  Service, is_retired, verify_hmac, check_claims, check_session, reissued_expiry, issue_expiry,
  truncate_second, issue, verify, logout,
}
use pomkita_be.Jwt.Sound.{verify_sound}

-- What is relied on of the token library: a signed token parses to what was signed, and its signature
-- verifies under the same secret; a uuid reads back from its text.
pub record IsFaithful (lib : Library) : Type 0 where
  pub parse_sign :
      (w : WireClaims) (kid secret raw : String)
      → lib.sign w kid secret ≡ ok raw
      → lib.parse_unverified raw ≡ ok (record { alg = "HS256"; claims = w; kid = some kid })
  pub verify_sign :
      (w : WireClaims) (kid secret raw : String)
      → lib.sign w kid secret ≡ ok raw
      → verify_hmac lib "HS256" (lib.split_dot raw) secret ≡ true
  pub parse_uuid_string : (u : Uuid) → lib.parse_uuid (lib.uuid_string u) ≡ some u

-- What is relied on of the store: a created session is found, with its last activity moved at most to
-- the time of the query; creating one keeps the keys; the active key is found under its name, where
-- names are unique; and a revoked session is marked.
pub record IsStore {S : Type 0} (store : Store S) : Type 1 where
  pub valid : S → Type 0
  pub session_created :
      (x : Session) (at_time : Time) (state state' : S)
      → store.create_session x state ≡ ok state'
      → (t : Time) × ((store.session x.jti at_time state').0 ≡ ok (record x { last_active_at = t }))
        × ((t ≡ x.last_active_at) ⊎ (t ≡ at_time))
  pub key_kept :
      (x : Session) (k : Key) (state state' : S)
      → valid state
      → store.active_key state ≡ ok k
      → store.create_session x state ≡ ok state'
      → store.key k.kid state' ≡ ok k
  pub session_revoked :
      (jti : Uuid) (revoked_at at_time : Time) (state state' : S)
      → store.revoke_session jti revoked_at state ≡ ok state'
      → (x : Session) × ((store.session jti at_time state').0 ≡ ok x) × (is_set x.revoked_at ≡ true)

module _ {S : Type 0} (lib : Library) (store : Store S) (s : Service) where
  -- Where the store marks the sessions that it revokes: after a logout of a session every token
  -- that is accepted belongs to another session.
  pub logout-verify :
      IsStore store
      → (jti : Uuid) (now later at_time : Time) (state state' : S) (raw : String) (c : Claims)
      → logout lib store s jti now state ≡ ok state'
      → (verify lib store s raw later at_time state').0 ≡ ok c
      → c.jti ≢ jti
  unfolding logout
  logout-verify laws jti now later at_time state state' raw c out accepted same =
      let (token, key, session, p, q, k, r, v, l, live, _, _, _) =
        verify_sound lib store s raw later at_time state' c accepted in
      let (x, found, revoked) = laws.session_revoked jti now at_time state state' (ground arith) in
      let there : (store.session jti at_time state').0 ≡ ok session = rw (← same) l in
      ground (arith, there, found, revoked, live.not_revoked)

  -- What a successful `Issue` signed and stored.
  abbrev wire_of : Uuid → Uuid → Time → Time → WireClaims
  wire_of subject jti now expires = record {
    issuer = s.issuer;
    audience = s.audience ∷ [];
    subject = lib.uuid_string subject;
    id = lib.uuid_string jti;
    issued_at = some now;
    expires_at = some expires;
  }

  abbrev session_of : Key → Uuid → Uuid → Time → Time → Session
  session_of key subject jti now expires = record {
    jti = jti;
    user_id = subject;
    kid = key.kid;
    issued_at = now;
    expires_at = expires;
    last_active_at = now;
    revoked_at = none;
  }

  issue-steps :
      (subject jti : Uuid) (clock : Time) (state state' : S) (raw : String) (c : Claims) (key : Key)
      → store.active_key state ≡ ok key
      → issue lib store s subject jti clock state ≡ ok ((raw, c), state')
      → let now = truncate_second clock in
        let expires = issue_expiry key now in
        (str_eq key.status "active" ≡ true)
        × (now < expires)
        × (lib.sign (wire_of subject jti now expires) key.kid key.secret ≡ ok raw)
        × (store.create_session (session_of key subject jti now expires) state ≡ ok state')
        × (c ≡ record {
          issuer = s.issuer;
          audience = s.audience;
          subject = subject;
          jti = jti;
          issued_at = now;
          expires_at = expires;
          kid = key.kid;
        })
  unfolding issue
  issue-steps subject jti clock state state' raw c key active h = ground arith

  -- The issued expiry leaves room for `later`.
  expiry_room :
      (key : Key) (now later : Time)
      → later < now + 15 * minute
      → later < key.max_token_expiry
      → later ≤ issue_expiry key now + 60 * second
  unfolding issue_expiry
  expiry_room key now later soon valid = ground arith

  issued-claims :
      IsFaithful lib
      → (subject jti : Uuid) (now expires later : Time) (kid : String) → str_eq kid "" ≡ false
      → now ≤ later
      → later ≤ expires + 60 * second
      → check_claims lib store s
          (record { alg = "HS256"; claims = wire_of subject jti now expires; kid = some kid })
          later
        ≡ ok (now, subject, jti, kid)
  unfolding check_claims
  issued-claims faithful subject jti now expires later kid named after room = ground (
    arith,
    eq_refl s.issuer,
    eq_refl s.audience,
    faithful.parse_uuid_string subject,
    faithful.parse_uuid_string jti,
  )

  issued-session :
      (key : Key) (subject jti : Uuid) (now expires later t : Time)
      → 0 < t
      → later < t + 15 * minute
      → later ≤ expires + 60 * second
      → check_session lib store s
          (record (session_of key subject jti now expires) { last_active_at = t })
          key.kid
          subject
          later
        ≡ ok tt
  unfolding check_session
  issued-session key subject jti now expires later t started soon room =
      ground (arith, eq_refl key.kid)

  active-not-retired :
      (key : Key) (now : Time) → str_eq key.status "active" ≡ true → is_retired key now ≡ false
  unfolding is_retired
  active-not-retired key now h = let e = (eq_iff key.status "active").0 h in rw e refl

  reissued_later :
      (key : Key) (subject jti : Uuid) (now expires later t : Time)
      → later < t + 15 * minute
      → later < key.max_token_expiry
      → ltb later (
          reissued_expiry
            (record (session_of key subject jti now expires) { last_active_at = t })
            key)
        ≡ true
  unfolding reissued_expiry
  reissued_later key subject jti now expires later t soon valid = ground arith

  -- The session that is found was active at the issue or is active now.
  recent :
      (t now later at_time : Time)
      → (t ≡ now) ⊎ (t ≡ at_time)
      → 0 < now
      → now ≤ later
      → later < now + 15 * minute
      → later ≤ at_time
      → (0 < t) × (later < t + 15 * minute)
  recent t now later at_time (inl e) started after soon clocks =
      (omega (arith, e, started), omega (arith, e, soon))
  recent t now later at_time (inr e) started after soon clocks =
      (omega (arith, e, started, after, clocks), omega (arith, e, clocks))

  -- Where the library reads back what it signed and the store keeps what it is given: a token that
  -- `Issue` gave under the active key is accepted, with the identity that it was issued for, from
  -- its issue time on for 15 minutes and before the key's own limit, if the key's name is not
  -- empty, the issue time is not zero and the store's clock is not behind the service's.
  pub issue-verify :
      IsFaithful lib
      → (laws : IsStore store)
      → (subject jti : Uuid) (clock later at_time : Time) (state state' : S) (raw : String)
        (c : Claims) (key : Key)
      → laws.valid state
      → store.active_key state ≡ ok key
      → issue lib store s subject jti clock state ≡ ok ((raw, c), state')
      → str_eq key.kid "" ≡ false
      → 0 < truncate_second clock
      → truncate_second clock ≤ later
      → later < truncate_second clock + 15 * minute
      → later < key.max_token_expiry
      → later ≤ at_time
      → (d : Claims) × ((verify lib store s raw later at_time state').0 ≡ ok d)
        × (d.subject ≡ subject)
        × (d.jti ≡ jti)
        × (d.issued_at ≡ c.issued_at)
        × (d.kid ≡ key.kid)
  unfolding verify
  issue-verify faithful laws subject jti clock later at_time state state' raw c key fine active h
        named started after soon valid clocks =
      let now = truncate_second clock in
      let expires = issue_expiry key now in
      let (status, early, signed, created, shape) =
        issue-steps subject jti clock state state' raw c key active h in
      let room = expiry_room key now later soon valid in
      let parsed =
        faithful.parse_sign (wire_of subject jti now expires) key.kid key.secret raw signed in
      let good =
        faithful.verify_sign (wire_of subject jti now expires) key.kid key.secret raw signed in
      let session = session_of key subject jti now expires in
      let (t, found, touched) = laws.session_created session at_time state state' created in
      let (positive, recently) = recent t now later at_time touched started after soon clocks in
      (
        record {
          issuer = s.issuer;
          audience = s.audience;
          subject = subject;
          jti = jti;
          issued_at = now;
          expires_at = reissued_expiry (record session { last_active_at = t }) key;
          kid = key.kid;
        },
        simp (
          parsed,
          issued-claims faithful subject jti now expires later key.kid named after room,
          laws.key_kept session key state state' fine active created,
          active-not-retired key later status,
          good,
          found,
          issued-session key subject jti now expires later t positive recently room,
          reissued_later key subject jti now expires later t recently valid,
        ),
        refl,
        refl,
        ap (λ (x : Claims). x.issued_at) (sym shape),
        refl,
      )
