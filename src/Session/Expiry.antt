-- ===== src/Session/Expiry.antt =====
-- internal/bff/application/service/session_service.go: the sliding expiry of sessions.
use vuhive_cloud.Common.{
  ℕ, ◌≤◌, ◌≡◌, refl, sym, ◌∙◌, ap, true, false, Text, is_empty, Result, ok, err, session_expired,
  arith, Bool-cases, inl, inr,
}
use vuhive_cloud.Common.Int.{pos, ◌≤ℤ◌, ◌+ℤ◌, ◌-ℤ◌, leb_ℤ}
use vuhive_cloud.Common.Time.{Time, Duration, add, after, sub}
use vuhive_cloud.Session.{ClientSession, touch, rotate_tokens}
use vuhive_cloud.Session.Store.{SessionStore}
use vuhive_cloud.Session.Service.{
  SessionServiceConfig, RotateTokensCommand, get_session, slide, persist_update, remaining_ttl,
  rotate_session_tokens, rotate_found, rotation_ttl,
}

touch_outlasts :
    (ttl : Duration) (checked now : Time) (x y : ClientSession)
    → touch ttl checked now x ≡ ok y
    → now +ℤ pos 1 ≤ℤ y.expires_at
unfolding touch ◌+ℤ◌
touch_outlasts ttl checked now x y h = ground arith

rotate_tokens_outlasts :
    (access refresh identity : Text) (ttl : Duration) (checked now : Time) (x y : ClientSession)
    → rotate_tokens access refresh identity ttl checked now x ≡ ok y
    → now +ℤ pos 1 ≤ℤ y.expires_at
unfolding rotate_tokens ◌+ℤ◌
rotate_tokens_outlasts access refresh identity ttl checked now x y h = ground arith

pub remaining_ttl_exact :
    (cfg : SessionServiceConfig) (x : ClientSession) (ttl : ℕ)
    → 1 ≤ ttl
    → ttl ≤ 9223372036854775807
    → x.expires_at ≡ add x.updated_at (pos ttl)
    → remaining_ttl cfg x ≡ pos ttl
unfolding remaining_ttl sub ◌+ℤ◌ ◌-ℤ◌
remaining_ttl_exact cfg x ttl h k e = ground arith

-- The calls that return a session that is there already.
pub data Fetch : Type 0 where
  getting : Text → Fetch
  rotating : RotateTokensCommand → Fetch

-- What such a call promises of the expiry, for the instants at which it read and stored the session.
abbrev pub Outlasts : Fetch → Time → Time → ClientSession → Type 0
Outlasts (getting id) read now x = read ≤ℤ x.expires_at
Outlasts (rotating cmd) read now x = now +ℤ pos 1 ≤ℤ x.expires_at

module _ {S : Type 0} (store : SessionStore S) (cfg : SessionServiceConfig) where
  persist_update_ok :
      (r : Result ClientSession) (s : S) (y : ClientSession)
      → (persist_update store cfg r s).1 ≡ ok y
      → r ≡ ok y
  unfolding persist_update
  persist_update_ok (err e) s y h = h
  persist_update_ok (ok x) s y h = ground arith

  pub get_session_found :
      (read checked now : Time) (id : Text) (x : ClientSession) (s : S)
      → is_empty id ≡ false
      → store.get id s ≡ ok x
      → get_session store cfg read checked now id s ≡ slide store cfg read checked now x s
  unfolding get_session
  get_session_found read checked now id x s h e = rw (get_session, h, e) refl

  -- The three ways in which `slide` goes.
  pub slide_expired :
      (read checked now : Time) (x : ClientSession) (s : S)
      → after read x.expires_at ≡ true
      → slide store cfg read checked now x s ≡ (s, err session_expired)
  unfolding slide
  slide_expired read checked now x s e = rw (slide, e) refl

  pub slide_touched :
      (read checked now : Time) (x : ClientSession) (s : S)
      → after read x.expires_at ≡ false
      → leb_ℤ cfg.sliding_threshold (sub read x.updated_at) ≡ true
      → slide store cfg read checked now x s
        ≡ persist_update store cfg (touch (remaining_ttl cfg x) checked now x) s
  unfolding slide
  slide_touched read checked now x s e t = rw (slide, e, t) refl

  pub slide_recent :
      (read checked now : Time) (x : ClientSession) (s : S)
      → after read x.expires_at ≡ false
      → leb_ℤ cfg.sliding_threshold (sub read x.updated_at) ≡ false
      → slide store cfg read checked now x s ≡ (s, ok x)
  unfolding slide
  slide_recent read checked now x s e t = rw (slide, e, t) refl

  slide_outlasts :
      (read checked now : Time) (x : ClientSession) (s : S) (y : ClientSession)
      → read ≤ℤ now
      → (slide store cfg read checked now x s).1 ≡ ok y
      → read ≤ℤ y.expires_at
  unfolding ◌+ℤ◌
  slide_outlasts read checked now x s y le h = elim (Bool-cases (after read x.expires_at)) [
    | inl e ↦ let way = slide_expired read checked now x s e in cc
    | inr e ↦ elim (Bool-cases (leb_ℤ cfg.sliding_threshold (sub read x.updated_at))) [
      | inl t ↦
          let way = ap (λ r. r.1) (slide_touched read checked now x s e t) in
          let touched =
            persist_update_ok (touch (remaining_ttl cfg x) checked now x) s y (sym way ∙ h) in
          let later = touch_outlasts (remaining_ttl cfg x) checked now x y touched in ground arith
      | inr t ↦ let way = ap (λ r. r.1) (slide_recent read checked now x s e t) in ground arith
    ]
  ]

  pub rotate_expired :
      (read checked now : Time) (cmd : RotateTokensCommand) (x : ClientSession) (s : S)
      → after read x.expires_at ≡ true
      → rotate_found store cfg read checked now cmd x s ≡ (s, err session_expired)
  unfolding rotate_found
  rotate_expired read checked now cmd x s e = rw (rotate_found, e) refl

  abbrev pub rotated : Time → Time → RotateTokensCommand → ClientSession → Result ClientSession
  rotated checked now cmd x =
      rotate_tokens cmd.access_token cmd.refresh_token cmd.id_token (rotation_ttl cfg cmd x) checked
        now x

  pub rotate_live :
      (read checked now : Time) (cmd : RotateTokensCommand) (x : ClientSession) (s : S)
      → after read x.expires_at ≡ false
      → rotate_found store cfg read checked now cmd x s
        ≡ persist_update store cfg (rotated checked now cmd x) s
  unfolding rotate_found
  rotate_live read checked now cmd x s e = rw (rotate_found, e) refl

  rotate_found_outlasts :
      (read checked now : Time) (cmd : RotateTokensCommand) (x : ClientSession) (s : S)
      (y : ClientSession)
      → (rotate_found store cfg read checked now cmd x s).1 ≡ ok y
      → now +ℤ pos 1 ≤ℤ y.expires_at
  rotate_found_outlasts read checked now cmd x s y h = elim (Bool-cases (after read x.expires_at)) [
    | inl e ↦ let way = ap (λ r. r.1) (rotate_expired read checked now cmd x s e) in cc
    | inr e ↦
        let way = ap (λ r. r.1) (rotate_live read checked now cmd x s e) in
        rotate_tokens_outlasts cmd.access_token cmd.refresh_token cmd.id_token
          (rotation_ttl cfg cmd x) checked now x y
          (persist_update_ok (rotated checked now cmd x) s y (sym way ∙ h))
  ]

  abbrev pub fetch : Fetch → Time → Time → Time → S → S × Result ClientSession
  fetch (getting id) read checked now s = get_session store cfg read checked now id s
  fetch (rotating cmd) read checked now s = rotate_session_tokens store cfg read checked now cmd s

  -- A session that `GetSession` returns has not expired at the instant at which the service read it, and
  -- one that `RotateSessionTokens` returns expires strictly after the instant of the rotation. The clock
  -- does not run backwards during the call; the store may answer anything.
  pub no_expired_session :
      (call : Fetch) (read checked now : Time) (s : S) (x : ClientSession)
      → read ≤ℤ now
      → (fetch call read checked now s).1 ≡ ok x
      → Outlasts call read now x
  unfolding get_session rotate_session_tokens
  no_expired_session (getting id) read checked now s x le h = grind (arith, slide_outlasts)
  no_expired_session (rotating cmd) read checked now s x le h = grind (arith, rotate_found_outlasts)
