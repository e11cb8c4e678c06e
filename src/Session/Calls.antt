-- ===== src/Session/Calls.antt =====
-- internal/bff/application/service/session_service.go and cleaner.go: any history of calls.
use vuhive_cloud.Common.{
  ◌≡◌, refl, ◌∙◌, ap, true, false, none, some, List, [], ◌∷◌, Option, Text, is_empty, ok, err,
  Result, arith, Bool-cases, Result-cases, inl, inr, is_some, text_eq, text_eq→≡, text_eq_refl,
  session_not_found,
}
use vuhive_cloud.Common.Int.{leb_ℤ}
use vuhive_cloud.Common.Time.{Time, after, sub}
use vuhive_cloud.Session.{ClientSession, touch}
use vuhive_cloud.Session.Store.{SessionStore, IsStore}
use vuhive_cloud.Session.Service.{
  SessionServiceConfig, RotateTokensCommand, get_session, rotate_session_tokens, revoke_session,
  revoke_by_keycloak_sid, clean_once, slide, persist_update, remaining_ttl, rotate_found,
}
use vuhive_cloud.Session.Expiry.{
  slide_expired, slide_touched, slide_recent, rotate_expired, rotate_live, rotated,
}

-- A call of the service, or of the cleaner, but for those that create a session.
pub data Call : Type 0 where
  gets : Time → Time → Time → Text → Call
  rotates : Time → Time → Time → RotateTokensCommand → Call
  revokes : Text → Call
  revokes_sid : Text → Call
  cleans : Time → Call

module _ {S : Type 0} (store : SessionStore S) (cfg : SessionServiceConfig) where
  unfoldable pub perform : Call → S → S
  perform (gets read checked now id) s = (get_session store cfg read checked now id s).0
  perform (rotates read checked now cmd) s =
      (rotate_session_tokens store cfg read checked now cmd s).0
  perform (revokes id) s = (revoke_session store cfg id s).0
  perform (revokes_sid sid) s = (revoke_by_keycloak_sid store cfg sid s).0
  perform (cleans now) s = (clean_once (some store) now s).0

  unfoldable pub perform_all : List Call → S → S
  perform_all [] s = s
  perform_all (c ∷ cs) s = perform_all cs (perform c s)

  module _ {view : S → Text → Option ClientSession} {WellFormed : S → Type 0}
      (law : IsStore store view WellFormed) where
    -- No session under the identifier, in a store that is well formed.
    record IsGone (id : Text) (s : S) : Type 0 where
      absent : view s id ≡ none
      sound : WellFormed s

    other_key :
        (j id : Text) (s : S) → view s id ≡ none → is_some (view s j) ≡ true → text_eq j id ≡ false
    other_key j id s h e = elim (Bool-cases (text_eq j id)) [
      | inl t ↦ let same = ap (view s) (text_eq→≡ j id t) in let shown = ap is_some (same ∙ h) in cc
      | inr t ↦ t
    ]

    update-IsGone :
        (x : ClientSession) (id : Text) (s : S)
        → IsGone id s
        → IsGone id (store.update (some x) s).0
    update-IsGone x id s h = elim (Bool-cases (is_some (view s x.id))) [
      | inl e ↦ record {
        absent = rw (law.update_view x s id h.sound e) rw (other_key x.id id s h.absent e) h.absent;
        sound = law.update_kept (some x) s h.sound;
      }
      | inr e ↦ rw (law.update_missing x s e) h
    ]

    persist_update-IsGone :
        (r : Result ClientSession) (id : Text) (s : S)
        → IsGone id s
        → IsGone id (persist_update store cfg r s).0
    unfolding persist_update
    persist_update-IsGone (err e) id s h = h
    persist_update-IsGone (ok x) id s h = update-IsGone x id s h

    slide-IsGone :
        (read checked now : Time) (x : ClientSession) (id : Text) (s : S)
        → IsGone id s
        → IsGone id (slide store cfg read checked now x s).0
    slide-IsGone read checked now x id s h = elim (Bool-cases (after read x.expires_at)) [
      | inl e ↦ rw (slide_expired store cfg read checked now x s e) h
      | inr e ↦ elim (Bool-cases (leb_ℤ cfg.sliding_threshold (sub read x.updated_at))) [
        | inl t ↦
            rw (slide_touched store cfg read checked now x s e t)
              (persist_update-IsGone (touch (remaining_ttl cfg x) checked now x) id s h)
        | inr t ↦ rw (slide_recent store cfg read checked now x s e t) h
      ]
    ]

    rotate_found-IsGone :
        (read checked now : Time) (cmd : RotateTokensCommand) (x : ClientSession) (id : Text)
        (s : S)
        → IsGone id s
        → IsGone id (rotate_found store cfg read checked now cmd x s).0
    rotate_found-IsGone read checked now cmd x id s h =
        elim (Bool-cases (after read x.expires_at)) [
          | inl e ↦ rw (rotate_expired store cfg read checked now cmd x s e) h
          | inr e ↦
              rw (rotate_live store cfg read checked now cmd x s e)
                (persist_update-IsGone (rotated store cfg checked now cmd x) id s h)
        ]

    get_session-IsGone :
        (read checked now : Time) (k id : Text) (s : S)
        → IsGone id s
        → IsGone id (get_session store cfg read checked now k s).0
    unfolding get_session
    get_session-IsGone read checked now k id s h = elim (Bool-cases (is_empty k)) [
      | inl e ↦ rw e h
      | inr e ↦ elim (Result-cases (store.get k s)) [
        | inl (x, g) ↦ rw (e, g) (slide-IsGone read checked now x id s h)
        | inr (problem, g) ↦ rw (e, g) h
      ]
    ]

    rotate-IsGone :
        (read checked now : Time) (cmd : RotateTokensCommand) (id : Text) (s : S)
        → IsGone id s
        → IsGone id (rotate_session_tokens store cfg read checked now cmd s).0
    unfolding rotate_session_tokens
    rotate-IsGone read checked now cmd id s h = elim (Bool-cases (is_empty cmd.session_id)) [
      | inl e ↦ rw e h
      | inr e ↦ elim (Result-cases (store.get cmd.session_id s)) [
        | inl (x, g) ↦ rw (e, g) (rotate_found-IsGone read checked now cmd x id s h)
        | inr (problem, g) ↦ rw (e, g) h
      ]
    ]

    revoke_session-IsGone :
        (k id : Text) (s : S) → IsGone id s → IsGone id (revoke_session store cfg k s).0
    unfolding revoke_session
    revoke_session-IsGone k id s h = elim (Bool-cases (is_empty k)) [
      | inl e ↦ rw e h
      | inr e ↦ rw e (record {
        absent = rw (law.delete_view k id s h.sound, h.absent) (ground arith);
        sound = law.delete_kept k s h.sound;
      })
    ]

    revoke_by_keycloak_sid-IsGone :
        (sid id : Text) (s : S) → IsGone id s → IsGone id (revoke_by_keycloak_sid store cfg sid s).0
    unfolding revoke_by_keycloak_sid
    revoke_by_keycloak_sid-IsGone sid id s h = elim (Bool-cases (is_empty sid)) [
      | inl e ↦ rw e h
      | inr e ↦ rw e (record {
        absent = rw (law.sid_view sid id s h.sound, h.absent) refl;
        sound = law.sid_kept sid s h.sound;
      })
    ]

    perform-IsGone : (c : Call) (id : Text) (s : S) → IsGone id s → IsGone id (perform c s)
    unfolding perform clean_once
    perform-IsGone (gets read checked now k) id s h = get_session-IsGone read checked now k id s h
    perform-IsGone (rotates read checked now cmd) id s h = rotate-IsGone read checked now cmd id s h
    perform-IsGone (revokes k) id s h = revoke_session-IsGone k id s h
    perform-IsGone (revokes_sid sid) id s h = revoke_by_keycloak_sid-IsGone sid id s h
    perform-IsGone (cleans now) id s h = record {
      absent = rw (law.expired_view now id s h.sound, h.absent) refl;
      sound = law.expired_kept now s h.sound;
    }

    perform_all-IsGone :
        (cs : List Call) (id : Text) (s : S) → IsGone id s → IsGone id (perform_all cs s)
    unfolding perform_all
    perform_all-IsGone [] id s h = h
    perform_all-IsGone (c ∷ cs) id s h =
        perform_all-IsGone cs id (perform c s) (perform-IsGone c id s h)

    gone_not_found :
        (read checked now : Time) (id : Text) (s : S)
        → is_empty id ≡ false
        → IsGone id s
        → get_session store cfg read checked now id s ≡ (s, err session_not_found)
    unfolding get_session
    gone_not_found read checked now id s hi h =
        rw (get_session, hi, law.get_missing id s h.absent) refl

    -- A revoked session is not revived: after `RevokeSession` of an identifier that is not empty, and
    -- any calls of the service and the cleaner that create no session, `GetSession` of it answers that
    -- there is none, at any time. The store is any one that behaves as a map.
    pub revoked_stays_gone :
        (cs : List Call) (read checked now : Time) (id : Text) (s : S)
        → is_empty id ≡ false
        → WellFormed s
        → (get_session store cfg read checked now id
            (perform_all cs (revoke_session store cfg id s).0)).1
          ≡ err session_not_found
    unfolding revoke_session
    revoked_stays_gone cs read checked now id s hi sound = rw hi (
        ap (λ r. r.1)
          (gone_not_found read checked now id (perform_all cs (store.delete_id id s).0) hi (
            perform_all-IsGone cs id (store.delete_id id s).0 (record {
              absent = rw (law.delete_view id id s sound, text_eq_refl id) refl;
              sound = law.delete_kept id s sound;
            }))))
