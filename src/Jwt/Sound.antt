-- ===== src/Jwt/Sound.antt =====
-- The checks of `Verify`.
use mathlib.Core.Path.{subst}
use pomkita_be.Prelude.{
  refl, not, ltb, Option-cases, false, second, minute, nil_uuid, ◌+◌, ◌*◌, ◌≤◌, ◌<◌, String, ◌≡◌,
  ◌⊎◌, inl, inr, true, false, none, some, arith, str_eq, Uuid, Time,
}
use pomkita_be.Domain.{ok, err, Result, >>=-ok, passed, unwrapped, wrap_error}
use pomkita_be.Jwt.Types.{
  or_wrap, retired_key, invalid_signature, Key, Session, Claims, Token, Store, Library,
}
use pomkita_be.Jwt.{
  Service, is_retired, is_only, verify_hmac, check_claims, check_session, reissued_expiry, Admitted,
  admit, accept, conclude, verify,
}

module _ {S : Type 0} (lib : Library) (store : Store S) (s : Service) where
  -- The claims carry the algorithm, the issuer and the audience of the service, and `now` lies
  -- between their times, with a minute of grace at the end.
  pub record AreClaims (token : Token) (now : Time) (issued_at : Time) (subject jti : Uuid)
      (kid : String) : Type 0 where
    pub algorithm : str_eq token.alg "HS256" ≡ true
    pub issuer : str_eq token.claims.issuer s.issuer ≡ true
    pub audience : is_only s.audience token.claims.audience ≡ true
    pub issued : token.claims.issued_at ≡ some issued_at
    pub not_future : issued_at ≤ now
    pub expires_at : Time
    pub expiry : token.claims.expires_at ≡ some expires_at
    pub not_past : now ≤ expires_at + 60 * second
    pub named : str_eq kid "" ≡ false
    pub subject_text : lib.parse_uuid token.claims.subject ≡ some subject
    pub jti_text : lib.parse_uuid token.claims.id ≡ some jti
    pub header_kid : token.kid ≡ some kid

  check_claims-AreClaims :
      (token : Token) (now issued_at : Time) (subject jti : Uuid) (kid : String)
      → check_claims lib store s token now ≡ ok (issued_at, subject, jti, kid)
      → AreClaims token now issued_at subject jti kid
  unfolding check_claims
  check_claims-AreClaims token now issued_at subject jti kid h =
      elim (Option-cases token.claims.expires_at) [
        | inl missing ↦ absurd (ground (arith, missing))
        | inr (expires_at, there) ↦ record {
          algorithm = ground (arith, there);
          issuer = ground (arith, there);
          audience = ground (arith, there);
          issued = ground (arith, there);
          not_future = ground (arith, there);
          expires_at = expires_at;
          expiry = there;
          not_past = ground (arith, there);
          named = ground (arith, there);
          subject_text = ground (arith, there);
          jti_text = ground (arith, there);
          header_kid = ground (arith, there);
        }
      ]

  -- The session belongs to the token, was not revoked, and was active in the last 15 minutes.
  pub record IsLive (session : Session) (kid : String) (subject : Uuid) (now : Time) : Type 0 where
    pub not_revoked : session.revoked_at ≡ none
    pub same_kid : str_eq session.kid kid ≡ true
    pub same_user : (session.user_id ≡ nil_uuid) ⊎ (session.user_id ≡ subject)
    pub active : 0 < session.last_active_at
    pub not_idle : now ≤ session.last_active_at + 15 * minute
    pub not_expired : (session.expires_at ≡ 0) ⊎ (now ≤ session.expires_at + 60 * second)

  check_session-IsLive :
      (session : Session) (kid : String) (subject : Uuid) (now : Time)
      → check_session lib store s session kid subject now ≡ ok tt
      → IsLive session kid subject now
  unfolding check_session
  check_session-IsLive session kid subject now h = ground arith

  or_wrap-ok :
      {A : Type 0} (target text : String) (r : Result A) (a : A)
      → or_wrap target text r ≡ ok a
      → r ≡ ok a
  or_wrap-ok target text (ok b) a h = h
  or_wrap-ok target text (err e) a h = absurd cc

  admit-steps :
      (raw : String) (now : Time) (state : S) (a : Admitted)
      → admit lib store s raw now state ≡ ok a
      → (lib.parse_unverified raw ≡ ok a.token)
        × (check_claims lib store s a.token now ≡ ok (a.issued_at, a.subject, a.jti, a.kid))
        × (store.key a.kid state ≡ ok a.key)
        × (is_retired a.key now ≡ false)
        × (verify_hmac lib a.token.alg (lib.split_dot raw) a.key.secret ≡ true)
  unfolding admit
  admit-steps raw now state a h =
      let (token, p, h1) = >>=-ok (wrap_error "parse JWT" (lib.parse_unverified raw)) _ h in
      let ((i, sub, jti, kid), q, h2) = >>=-ok (check_claims lib store s token now) _ h1 in
      let (key, k, h3) =
        >>=-ok (or_wrap "jwt_unknown_kid" "load JWT key" (store.key kid state)) _ h2 in
      let (live, h4) = passed (is_retired key now) retired_key h3 in
      let (signed, h5) =
        passed (not (verify_hmac lib token.alg (lib.split_dot raw) key.secret)) invalid_signature
          h4 in
      let same : record {
        token = token;
        issued_at = i;
        subject = sub;
        jti = jti;
        kid = kid;
        key = key;
      }
          ≡ a =
        ground (arith, h5) in
      subst
        (λ (x : Admitted).
          (lib.parse_unverified raw ≡ ok x.token)
          × (check_claims lib store s x.token now ≡ ok (x.issued_at, x.subject, x.jti, x.kid))
          × (store.key x.kid state ≡ ok x.key)
          × (is_retired x.key now ≡ false)
          × (verify_hmac lib x.token.alg (lib.split_dot raw) x.key.secret ≡ true))
        same
        (
          unwrapped _ (lib.parse_unverified raw) token p,
          q,
          or_wrap-ok "jwt_unknown_kid" "load JWT key" (store.key kid state) key k,
          live,
          ground (arith, signed),
        )

  accept-steps :
      (a : Admitted) (now : Time) (found : Result Session) (c : Claims)
      → accept lib store s a now found ≡ ok c
      → (session : Session) × (found ≡ ok session)
        × (check_session lib store s session a.kid a.subject now ≡ ok tt)
        × (now < reissued_expiry session a.key)
        × (record {
          issuer = a.token.claims.issuer;
          audience = s.audience;
          subject = a.subject;
          jti = a.jti;
          issued_at = a.issued_at;
          expires_at = reissued_expiry session a.key;
          kid = a.kid;
        }
            ≡ c)
  unfolding accept
  accept-steps a now found c h =
      let (session, f, h1) =
        >>=-ok (or_wrap "jwt_session_not_found" "load JWT session" found) _ h in
      let (_, live, h2) = >>=-ok (check_session lib store s session a.kid a.subject now) _ h1 in
      let (early, h3) = passed (not (ltb now (reissued_expiry session a.key))) retired_key h2 in
      (
        session,
        or_wrap-ok "jwt_session_not_found" "load JWT session" found session f,
        live,
        ground (arith, early),
        ground (arith, h3),
      )

  concluded-admitted :
      (now at_time : Time) (state : S) (c : Claims) (r : Result Admitted)
      → (conclude lib store s now at_time state r).0 ≡ ok c
      → (a : Admitted) × (r ≡ ok a)
        × (accept lib store s a now (store.session a.jti at_time state).0 ≡ ok c)
  unfolding conclude
  concluded-admitted now at_time state c (err e) h = absurd cc
  concluded-admitted now at_time state c (ok a) h = (a, refl, h)

  verify-admitted :
      (raw : String) (now at_time : Time) (state : S) (c : Claims)
      → (verify lib store s raw now at_time state).0 ≡ ok c
      → (a : Admitted) × (admit lib store s raw now state ≡ ok a)
        × (accept lib store s a now (store.session a.jti at_time state).0 ≡ ok c)
  unfolding verify
  verify-admitted raw now at_time state c h =
      concluded-admitted now at_time state c (admit lib store s raw now state) h

  -- A token that `Verify` accepts has valid claims, a key that is not retired and whose signature it
  -- carries, and a live session; the reported expiry is later than now, and not later than 15 minutes
  -- after the last activity or than the key's own limit.
  pub verify_sound :
      (raw : String) (now at_time : Time) (state : S) (c : Claims)
      → (verify lib store s raw now at_time state).0 ≡ ok c
      → (token : Token) × (key : Key) × (session : Session) × (lib.parse_unverified raw ≡ ok token)
        × AreClaims token now c.issued_at c.subject c.jti c.kid
        × (store.key c.kid state ≡ ok key)
        × (is_retired key now ≡ false)
        × (verify_hmac lib token.alg (lib.split_dot raw) key.secret ≡ true)
        × ((store.session c.jti at_time state).0 ≡ ok session)
        × IsLive session c.kid c.subject now
        × (now < c.expires_at)
        × (c.expires_at ≤ session.last_active_at + 15 * minute)
        × (c.expires_at ≤ key.max_token_expiry)
  unfolding reissued_expiry
  verify_sound raw now at_time state c h =
      let (a, admitted, accepted) = verify-admitted raw now at_time state c h in
      let (p, q, k, r, v) = admit-steps raw now state a admitted in
      let (session, l, w, t, same) = accept-steps a now _ c accepted in
      subst
        (λ (x : Claims).
          (token : Token) × (key : Key) × (session : Session) × (lib.parse_unverified raw
            ≡ ok token)
          × AreClaims token now x.issued_at x.subject x.jti x.kid
          × (store.key x.kid state ≡ ok key)
          × (is_retired key now ≡ false)
          × (verify_hmac lib token.alg (lib.split_dot raw) key.secret ≡ true)
          × ((store.session x.jti at_time state).0 ≡ ok session)
          × IsLive session x.kid x.subject now
          × (now < x.expires_at)
          × (x.expires_at ≤ session.last_active_at + 15 * minute)
          × (x.expires_at ≤ key.max_token_expiry))
        same
        (
          a.token,
          a.key,
          session,
          p,
          check_claims-AreClaims a.token now a.issued_at a.subject a.jti a.kid q,
          k,
          r,
          v,
          l,
          check_session-IsLive session a.kid a.subject now w,
          t,
          ground arith,
          ground arith,
        )
