-- ===== src/Session/Answers.antt =====
-- internal/bff/application/service/session_service.go: what a call returns and what it stores.
use vuhive_cloud.Common.{
  ◌≡◌, refl, sym, ◌∙◌, ap, some, Option, Text, is_empty, ok, err, Result, arith, Bool-cases, inl,
  inr, is_some, text_eq_refl, subst, ok_injective, session_not_found, invalid_parameter,
  session_expired, if◌then◌else◌,
}
use vuhive_cloud.Common.Time.{Time, Duration, after, add}
use vuhive_cloud.Session.{ClientSession, rotate_tokens, new_client_session}
use vuhive_cloud.Session.Store.{SessionStore, IsStore}
use vuhive_cloud.Session.Service.{
  SessionServiceConfig, CreateSessionCommand, RotateTokensCommand, create_session, persist_new,
  rotate_session_tokens, persist_update, rotation_ttl, positive_or, options_of, unless_failed,
}
use vuhive_cloud.Session.Expiry.{rotate_expired, rotate_live, rotated}

-- What a rotation makes of a session.
pub record Renews (cmd : RotateTokensCommand) (ttl : Duration) (now : Time) (x y : ClientSession)
    : Type 0 where
  pub access_new : y.access_token ≡ cmd.access_token
  pub refresh_new : y.refresh_token ≡ cmd.refresh_token
  pub identity_new : y.id_token ≡ (if is_empty cmd.id_token then x.id_token else cmd.id_token)
  pub same_id : y.id ≡ x.id
  pub same_user : y.user_id ≡ x.user_id
  pub same_sid : y.keycloak_sid ≡ x.keycloak_sid
  pub same_roles : y.roles ≡ x.roles
  pub same_metadata : y.metadata ≡ x.metadata
  pub same_start : y.created_at ≡ x.created_at
  pub updated : y.updated_at ≡ now
  pub extended : y.expires_at ≡ add now ttl

rotation_of :
    (cmd : RotateTokensCommand) (ttl : Duration) (checked now : Time) (x y : ClientSession)
    → rotate_tokens cmd.access_token cmd.refresh_token cmd.id_token ttl checked now x ≡ ok y
    → Renews cmd ttl now x y
unfolding rotate_tokens
rotation_of cmd ttl checked now x y h = ground arith

module _ {S : Type 0} (store : SessionStore S) (cfg : SessionServiceConfig)
    {view : S → Text → Option ClientSession} {WellFormed : S → Type 0}
    (law : IsStore store view WellFormed) where
  -- An update that succeeds stores what it returns.
  stored_by_update :
      (r : Result ClientSession) (s : S) (y : ClientSession)
      → WellFormed s
      → (persist_update store cfg r s).1 ≡ ok y
      → (r ≡ ok y) × (view (persist_update store cfg r s).0 y.id ≡ some y)
  unfolding persist_update
  stored_by_update (err e) s y sound h = cc
  stored_by_update (ok x) s y sound h = elim (Bool-cases (is_some (view s x.id))) [
    | inl e ↦
        let same : x ≡ y =
          ok_injective (sym (ap (unless_failed x) (law.update_answer x s e)) ∙ h) in
        (
          rw same refl,
          subst (λ z. view (store.update (some x) s).0 z.id ≡ some z) same
              (rw (law.update_view x s x.id sound e, text_eq_refl x.id) refl),
        )
    | inr e ↦
        let no = ap (λ r. unless_failed x r.1) (law.update_missing x s e) in
        let bad : err session_not_found ≡ ok y = sym no ∙ h in cc
  ]

  stored_by_creation :
      (r : Result ClientSession) (s : S) (y : ClientSession)
      → WellFormed s
      → (persist_new store cfg r s).1 ≡ ok y
      → view (persist_new store cfg r s).0 y.id ≡ some y
  unfolding persist_new
  stored_by_creation (err e) s y sound h = cc
  stored_by_creation (ok x) s y sound h =
      let same : x ≡ y = ok_injective (sym (ap (unless_failed x) (law.create_answer x s)) ∙ h) in
      subst (λ z. view (store.create (some x) s).0 z.id ≡ some z) same
        (rw (law.create_view x s x.id sound, text_eq_refl x.id) refl)

  rotate_call :
      (read checked now : Time) (cmd : RotateTokensCommand) (s : S) (x y : ClientSession)
      → view s cmd.session_id ≡ some x
      → (rotate_session_tokens store cfg read checked now cmd s).1 ≡ ok y
      → rotate_session_tokens store cfg read checked now cmd s
        ≡ persist_update store cfg (rotated store cfg checked now cmd x) s
  unfolding rotate_session_tokens
  rotate_call read checked now cmd s x y found h = elim (Bool-cases (is_empty cmd.session_id)) [
    | inl e ↦
        let no : rotate_session_tokens store cfg read checked now cmd s
            ≡ (s, err invalid_parameter) =
          rw (rotate_session_tokens, e) refl in
        let bad : err invalid_parameter ≡ ok y = sym (ap (λ r. r.1) no) ∙ h in cc
    | inr e ↦ elim (Bool-cases (after read x.expires_at)) [
      | inl t ↦
          let no : rotate_session_tokens store cfg read checked now cmd s
              ≡ (s, err session_expired) =
            rw (rotate_session_tokens, e, law.get_present cmd.session_id s x found)
              (rotate_expired store cfg read checked now cmd x s t) in
          let bad : err session_expired ≡ ok y = sym (ap (λ r. r.1) no) ∙ h in cc
      | inr t ↦
          rw (rotate_session_tokens, e, law.get_present cmd.session_id s x found)
            (rotate_live store cfg read checked now cmd x s t)
    ]
  ]

  -- A session that a call returns is the one that the store then holds under its identifier:
  -- `RotateSessionTokens` replaces the access and refresh tokens, and the ID token where one is given,
  -- extends the session from the instant of the rotation by the command's time to live, or if that is
  -- not positive by the session's own, and leaves the rest as it was in the store; a session that
  -- `CreateSession` returns is stored under its identifier. The store is any one that behaves as a map.
  pub rotation_stored :
      (read checked now : Time) (cmd : RotateTokensCommand) (new : CreateSessionCommand) (s : S)
      (x y z : ClientSession)
      → WellFormed s
      → view s cmd.session_id ≡ some x
      → (rotate_session_tokens store cfg read checked now cmd s).1 ≡ ok y
      → (create_session store cfg now new s).1 ≡ ok z
      → Renews cmd (rotation_ttl cfg cmd x) now x y
        × (view (rotate_session_tokens store cfg read checked now cmd s).0 y.id ≡ some y)
        × (view (create_session store cfg now new s).0 z.id ≡ some z)
  unfolding create_session
  rotation_stored read checked now cmd new s x y z sound found hr hc =
      let way = rotate_call read checked now cmd s x y found hr in
      let both =
        stored_by_update (rotated store cfg checked now cmd x) s y sound
          (sym (ap (λ r. r.1) way) ∙ hr) in
      (
        rotation_of cmd (rotation_ttl cfg cmd x) checked now x y both.0,
        rw way both.1,
        stored_by_creation
            (new_client_session new.session_id new.user_id (positive_or cfg.session_ttl new.ttl)
              (options_of new) now)
            s z sound hc,
      )
