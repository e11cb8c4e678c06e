-- ===== src/Session/Cleaning.antt =====
-- internal/bff/application/service/cleaner.go: what callers see of the cleaner.
use vuhive_cloud.Common.{
  ◌≡◌, refl, sym, ◌∙◌, true, false, none, some, Option, Text, is_empty, ok, err, Result, arith,
  Bool-cases, Option-cases, inl, inr, is_some, session_not_found, ◌↔◌, subst,
}
use vuhive_cloud.Common.Int.{◌≤ℤ◌, leb_ℤ}
use vuhive_cloud.Common.Time.{Time, after, before, sub}
use vuhive_cloud.Session.{ClientSession, touch}
use vuhive_cloud.Session.Store.{SessionStore, IsStore}
use vuhive_cloud.Session.Service.{
  SessionServiceConfig, get_session, clean_once, slide, persist_update, remaining_ttl,
}
use vuhive_cloud.Session.Expiry.{slide_expired, slide_touched, slide_recent, get_session_found}

pub touch_id :
    (ttl : Time) (checked now : Time) (x y : ClientSession)
    → touch ttl checked now x ≡ ok y
    → y.id ≡ x.id
unfolding touch
touch_id ttl checked now x y h = ground arith

module _ {S : Type 0} (store : SessionStore S) (cfg : SessionServiceConfig)
    {view : S → Text → Option ClientSession} {WellFormed : S → Type 0}
    (law : IsStore store view WellFormed) where
  -- The answer to a caller does not depend on the rest of the store.
  persist_answer :
      (r : Result ClientSession) (x : ClientSession) (s : S)
      → ((y : ClientSession) → r ≡ ok y → y.id ≡ x.id)
      → is_some (view s x.id) ≡ true
      → (persist_update store cfg r s).1 ≡ r
  unfolding persist_update
  persist_answer (err e) x s h p = refl
  persist_answer (ok y) x s h p =
      let present = subst (λ j. is_some (view s j) ≡ true) (sym (h y refl)) p in
      rw (law.update_answer y s present) refl

  slide_answer :
      (read checked now : Time) (x : ClientSession) (s t : S)
      → is_some (view s x.id) ≡ true
      → is_some (view t x.id) ≡ true
      → (slide store cfg read checked now x s).1 ≡ (slide store cfg read checked now x t).1
  slide_answer read checked now x s t p q = elim (Bool-cases (after read x.expires_at)) [
    | inl e ↦
        rw
          (
            slide_expired store cfg read checked now x s e,
            slide_expired store cfg read checked now x t e,
          )
          refl
    | inr e ↦ elim (Bool-cases (leb_ℤ cfg.sliding_threshold (sub read x.updated_at))) [
      | inl g ↦
          let r = touch (remaining_ttl cfg x) checked now x in
          let same = touch_id (remaining_ttl cfg x) checked now x in
          rw
            (
              slide_touched store cfg read checked now x s e g,
              slide_touched store cfg read checked now x t e g,
            )
            (persist_answer r x s same p ∙ sym (persist_answer r x t same q))
      | inr g ↦
          rw
            (
              slide_recent store cfg read checked now x s e g,
              slide_recent store cfg read checked now x t e g,
            )
            refl
    ]
  ]

  get_absent :
      (read checked now : Time) (id : Text) (s : S)
      → is_empty id ≡ false
      → view s id ≡ none
      → get_session store cfg read checked now id s ≡ (s, err session_not_found)
  unfolding get_session
  get_absent read checked now id s hi h = rw (get_session, hi, law.get_missing id s h) refl

  get_present :
      (read checked now : Time) (id : Text) (s : S) (x : ClientSession)
      → is_empty id ≡ false
      → view s id ≡ some x
      → get_session store cfg read checked now id s ≡ slide store cfg read checked now x s
  get_present read checked now id s x hi h =
      get_session_found store cfg read checked now id x s hi (law.get_present id s x h)

  -- The cleaner takes away nothing that a caller could still have got: if the cleaner runs no later
  -- than a call of `GetSession` reads the clock, then the call returns a session after the cleaning
  -- just when it returns that session without it. The store is any one that behaves as a map, and
  -- holds the session under its own identifier if it holds one under the one asked for.
  pub cleaning_unseen :
      (cleaned read checked now : Time) (id : Text) (s : S) (y : ClientSession)
      → cleaned ≤ℤ read
      → is_empty id ≡ false
      → WellFormed s
      → ((x : ClientSession) → view s id ≡ some x → x.id ≡ id)
      → ((get_session store cfg read checked now id (clean_once (some store) cleaned s).0).1 ≡ ok y)
        ↔ ((get_session store cfg read checked now id s).1 ≡ ok y)
  unfolding clean_once
  cleaning_unseen cleaned read checked now id s y le hi sound keyed =
      let t = (store.delete_expired cleaned s).0 in
      let seen = law.expired_view cleaned id s sound in
      elim (Option-cases (view s id)) [
        | inl e ↦
            let gone : view t id ≡ none = rw (seen, e) refl in
            rw (get_absent read checked now id t hi gone, get_absent read checked now id s hi e)
              (λ h. h, λ h. h)
        | inr (x, e) ↦
            let own = keyed x e in
            elim (Bool-cases (before x.expires_at cleaned)) [
              | inl old ↦
                  let gone : view t id ≡ none = rw (seen, e, old) refl in
                  let late : after read x.expires_at ≡ true = ground arith in
                  rw
                    (
                      get_absent read checked now id t hi gone,
                      get_present read checked now id s x hi e,
                      slide_expired store cfg read checked now x s late,
                    )
                    (λ h. cc, λ h. cc)
              | inr new ↦
                  let kept : view t id ≡ some x = rw (seen, e, new) refl in
                  let same =
                    slide_answer read checked now x t s
                      (subst (λ j. is_some (view t j) ≡ true) (sym own) (rw kept refl))
                      (subst (λ j. is_some (view s j) ≡ true) (sym own) (rw e refl)) in
                  rw
                    (
                      get_present read checked now id t x hi kept,
                      get_present read checked now id s x hi e,
                    )
                    (λ h. sym same ∙ h, λ h. same ∙ h)
            ]
      ]
