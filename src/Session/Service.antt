-- ===== src/Session/Service.antt =====
-- internal/bff/application/service/session_service.go and cleaner.go, over any session store. The
-- commands are those of internal/bff/application/ports/inbound. `read` is the instant at which the
-- service looks at a session, `checked` and `now` those of the session's own method.
use vuhive_cloud.Common.{
  ℕ, ◌*◌, Bool, true, false, ◌&&◌, Option, none, some, List, [], ◌∷◌, ◌++◌, Text, is_empty,
  if◌then◌else◌, Error, Result, ok, err, session_expired, invalid_parameter,
}
use vuhive_cloud.Common.Dict.{Dict}
use vuhive_cloud.Common.Int.{pos, leb_ℤ}
use vuhive_cloud.Common.Time.{Time, Duration, after, sub, hour, second}
use vuhive_cloud.Session.{
  ClientSession, SessionOption, with_keycloak_sid, with_tokens, with_roles, with_metadata,
  new_client_session, is_expired, rotate_tokens, touch, not_positive,
}
use vuhive_cloud.Session.Store.{SessionStore}

pub record SessionServiceConfig : Type 0 where
  pub session_ttl : Duration
  pub sliding_threshold : Duration

abbrev pub positive_or : Duration → Duration → Duration
positive_or fallback d = if not_positive d then fallback else d

-- `NewSessionService`: the first configuration, if there is one, with the default of each field that
-- is not positive.
unfoldable pub configured : List SessionServiceConfig → SessionServiceConfig
configured [] = record { session_ttl = pos (24 * hour); sliding_threshold = pos (900 * second) }
configured (c ∷ cs) = record {
  session_ttl = positive_or (pos (24 * hour)) c.session_ttl;
  sliding_threshold = positive_or (pos (900 * second)) c.sliding_threshold;
}

pub record CreateSessionCommand : Type 0 where
  pub session_id : Text
  pub user_id : Text
  pub keycloak_sid : Text
  pub access_token : Text
  pub refresh_token : Text
  pub id_token : Text
  pub roles : List Text
  pub ttl : Duration
  pub metadata : Dict Text

pub record RotateTokensCommand : Type 0 where
  pub session_id : Text
  pub access_token : Text
  pub refresh_token : Text
  pub id_token : Text
  pub ttl : Duration

abbrev is_nil {ℓ} : {A : Type ℓ} → List A → Bool
is_nil [] = true
is_nil (x ∷ xs) = false

-- The options of `CreateSession`, each only where its part of the command is set.
unfoldable pub options_of : CreateSessionCommand → List SessionOption
options_of cmd =
    (if is_empty cmd.keycloak_sid then [] else with_keycloak_sid cmd.keycloak_sid ∷ [])
    ++ ((if is_empty cmd.access_token && (is_empty cmd.refresh_token && is_empty cmd.id_token)
          then []
          else with_tokens cmd.access_token cmd.refresh_token cmd.id_token ∷ [])
        ++ ((if is_nil cmd.roles then [] else with_roles (some cmd.roles) ∷ [])
            ++ (if is_nil cmd.metadata then [] else with_metadata (some cmd.metadata) ∷ [])))

-- `if err := ...; err != nil { return nil, err }; return session, nil`.
abbrev pub unless_failed : ClientSession → Option Error → Result ClientSession
unless_failed x none = ok x
unless_failed x (some e) = err e

-- `session.ExpiresAt.Sub(session.UpdatedAt)`, or the configured time to live.
unfoldable pub remaining_ttl : SessionServiceConfig → ClientSession → Duration
remaining_ttl cfg x = positive_or cfg.session_ttl (sub x.expires_at x.updated_at)

unfoldable pub rotation_ttl : SessionServiceConfig → RotateTokensCommand → ClientSession → Duration
rotation_ttl cfg cmd x = if not_positive cmd.ttl then remaining_ttl cfg x else cmd.ttl

module _ {S : Type 0} (store : SessionStore S) (cfg : SessionServiceConfig) where
  unfoldable pub persist_new : Result ClientSession → S → S × Result ClientSession
  persist_new (err e) s = (s, err e)
  persist_new (ok x) s = let (s', e) = store.create (some x) s in (s', unless_failed x e)

  unfoldable pub create_session : Time → CreateSessionCommand → S → S × Result ClientSession
  create_session now cmd s =
      persist_new
        (new_client_session cmd.session_id cmd.user_id (positive_or cfg.session_ttl cmd.ttl)
          (options_of cmd) now)
        s

  unfoldable pub persist_update : Result ClientSession → S → S × Result ClientSession
  persist_update (err e) s = (s, err e)
  persist_update (ok x) s = let (s', e) = store.update (some x) s in (s', unless_failed x e)

  -- `GetSession` once the store has found the session.
  unfoldable pub slide : Time → Time → Time → ClientSession → S → S × Result ClientSession
  slide read checked now x s =
      if after read x.expires_at
      then (s, err session_expired)
      else if leb_ℤ cfg.sliding_threshold (sub read x.updated_at)
      then persist_update (touch (remaining_ttl cfg x) checked now x) s
      else (s, ok x)

  unfoldable pub get_session : Time → Time → Time → Text → S → S × Result ClientSession
  get_session read checked now id s =
      if is_empty id
      then (s, err invalid_parameter)
      else elim (store.get id s) [ err e ↦ (s, err e) | ok x ↦ slide read checked now x s ]

  -- `RotateSessionTokens` once the store has found the session.
  unfoldable pub rotate_found :
      Time → Time → Time → RotateTokensCommand → ClientSession → S → S × Result ClientSession
  rotate_found read checked now cmd x s =
      if is_expired x read
      then (s, err session_expired)
      else persist_update
          (rotate_tokens cmd.access_token cmd.refresh_token cmd.id_token (rotation_ttl cfg cmd x)
            checked now x)
          s

  unfoldable pub rotate_session_tokens :
      Time → Time → Time → RotateTokensCommand → S → S × Result ClientSession
  rotate_session_tokens read checked now cmd s =
      if is_empty cmd.session_id
      then (s, err invalid_parameter)
      else elim (store.get cmd.session_id s) [
        | err e ↦ (s, err e)
        | ok x ↦ rotate_found read checked now cmd x s
      ]

  unfoldable pub revoke_session : Text → S → S × Option Error
  revoke_session id s = if is_empty id then (s, some invalid_parameter) else store.delete_id id s

  unfoldable pub revoke_by_keycloak_sid : Text → S → S × Option Error
  revoke_by_keycloak_sid sid s =
      if is_empty sid then (s, some invalid_parameter) else store.delete_by_keycloak_sid sid s

-- `SessionCleaner.CleanOnce`; the store may be nil.
unfoldable pub clean_once : {S : Type 0} → Option (SessionStore S) → Time → S → S × Result ℕ
clean_once none now s = (s, ok 0)
clean_once (some store) now s = store.delete_expired now s
