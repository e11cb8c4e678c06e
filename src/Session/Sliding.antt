-- ===== src/Session/Sliding.antt =====
-- internal/bff/application/service/session_service.go: a session that is used stays alive.
use vuhive_cloud.Common.{
  ℕ, ◌-◌, ◌≤◌, ◌≡◌, refl, sym, ap, true, false, some, List, [], ◌∷◌, Option, Text, is_empty, ok,
  arith, Bool-cases, inl, inr, is_some, text_eq_refl, subst,
}
use vuhive_cloud.Common.Int.{pos, ◌≤ℤ◌, ◌+ℤ◌, ◌-ℤ◌, leb_ℤ}
use vuhive_cloud.Common.Time.{Time, add, after, sub}
use vuhive_cloud.Session.{ClientSession, touch}
use vuhive_cloud.Session.Store.{SessionStore, IsStore}
use vuhive_cloud.Session.Service.{SessionServiceConfig, get_session, persist_update, remaining_ttl}
use vuhive_cloud.Session.Expiry.{
  slide_touched, slide_recent, get_session_found, remaining_ttl_exact,
}

-- The instants of one call of `GetSession`.
pub record Access : Type 0 where
  pub read : Time
  pub checked : Time
  pub now : Time

-- Each call runs forward in time, and starts and checks the session at most `gap` after the last one
-- read it.
abbrev pub OnTime : ℕ → Time → List Access → Type 0
OnTime gap seen [] = Unit {0}
OnTime gap seen (a ∷ rest) =
    (seen ≤ℤ a.read)
    × (a.read ≤ℤ a.checked)
    × (a.checked ≤ℤ a.now)
    × (a.checked ≤ℤ add seen (pos gap))
    × OnTime gap a.read rest

-- The session expires `ttl` after its last update, and was last read at most the threshold after it.
pub record IsFresh (ttl threshold : ℕ) (seen : Time) (x : ClientSession) : Type 0 where
  pub expires : x.expires_at ≡ add x.updated_at (pos ttl)
  pub recent : seen ≤ℤ add x.updated_at (pos threshold)

-- The session, but for the times of its last update and of its expiry.
abbrev pub SameSession : ClientSession → ClientSession → Type 0
SameSession x y = y ≡ record x { updated_at = y.updated_at; expires_at = y.expires_at }

touch_ok :
    (ttl : ℕ) (checked now : Time) (x : ClientSession)
    → 1 ≤ ttl
    → checked ≤ℤ x.expires_at
    → touch (pos ttl) checked now x
      ≡ ok (record x { updated_at = now; expires_at = add now (pos ttl) })
unfolding touch
touch_ok ttl checked now x h le = ground arith

within :
    (ttl threshold : ℕ) (seen checked : Time) (x : ClientSession)
    → threshold ≤ ttl
    → IsFresh ttl threshold seen x
    → checked ≤ℤ add seen (pos (ttl - threshold))
    → checked ≤ℤ x.expires_at
unfolding ◌+ℤ◌
within ttl threshold seen checked x le fresh h =
    let e = fresh.expires in let r = fresh.recent in ground arith

still_recent :
    (threshold : ℕ) (read : Time) (x : ClientSession)
    → threshold ≤ 9223372036854775807
    → leb_ℤ (pos threshold) (sub read x.updated_at) ≡ false
    → read ≤ℤ add x.updated_at (pos threshold)
unfolding sub ◌+ℤ◌ ◌-ℤ◌
still_recent threshold read x h e = ground arith

touched_recent :
    (threshold : ℕ) (read now : Time)
    → 1 ≤ threshold
    → read ≤ℤ now
    → read ≤ℤ add now (pos threshold)
unfolding ◌+ℤ◌
touched_recent threshold read now h le = ground arith

module _ {S : Type 0} (store : SessionStore S) (cfg : SessionServiceConfig) where
  -- Each of the calls, one after the other, returns the session.
  unfoldable pub AllServed : ClientSession → List Access → S → Type 0
  AllServed x [] s = Unit {0}
  AllServed x (a ∷ rest) s =
      let after_call = get_session store cfg a.read a.checked a.now x.id s in
      ((y : ClientSession) × (after_call.1 ≡ ok y) × SameSession x y)
      × AllServed x rest after_call.0

  module _ {view : S → Text → Option ClientSession} {WellFormed : S → Type 0}
      (law : IsStore store view WellFormed) where
    -- The store holds the session `o` under its identifier, fresh at the instant.
    record Holds (ttl threshold : ℕ) (seen : Time) (o : ClientSession) (s : S) : Type 0 where
      held : ClientSession
      found : view s o.id ≡ some held
      same : SameSession o held
      fresh : IsFresh ttl threshold seen held
      sound : WellFormed s

    updated :
        (x : ClientSession) (s : S)
        → is_some (view s x.id) ≡ true
        → persist_update store cfg (ok x) s ≡ ((store.update (some x) s).0, ok x)
    unfolding persist_update
    updated x s h = rw (law.update_answer x s h) refl

    abbrev renewed : ℕ → Time → ClientSession → ClientSession
    renewed ttl now x = record x { updated_at = now; expires_at = add now (pos ttl) }

    serves_touched :
        (ttl threshold : ℕ) (a : Access) (o : ClientSession) (s : S) (x : ClientSession)
        → 1 ≤ threshold
        → threshold ≤ ttl
        → ttl ≤ 9223372036854775807
        → a.read ≤ℤ a.now
        → a.checked ≤ℤ x.expires_at
        → x.expires_at ≡ add x.updated_at (pos ttl)
        → SameSession o x
        → view s o.id ≡ some x
        → WellFormed s
        → persist_update store cfg (touch (remaining_ttl cfg x) a.checked a.now x) s
            ≡ ((store.update (some (renewed ttl a.now x)) s).0, ok (renewed ttl a.now x))
          × Holds ttl threshold a.read o (store.update (some (renewed ttl a.now x)) s).0
    serves_touched ttl threshold a o s x h1 h2 h3 ordered alive ee same found sound =
        let keyed : x.id ≡ o.id = ap (λ z. z.id) same in
        let present = subst (λ j. is_some (view s j) ≡ true) (sym keyed) (rw found refl) in
        let ey : touch (remaining_ttl cfg x) a.checked a.now x ≡ ok (renewed ttl a.now x) =
          rw (remaining_ttl_exact cfg x ttl (omega arith) h3 ee)
            (touch_ok ttl a.checked a.now x (omega arith) alive) in
        (
          rw ey (updated (renewed ttl a.now x) s present),
          record {
            held = renewed ttl a.now x;
            found =
                rw
                  (
                    law.update_view (renewed ttl a.now x) s o.id sound present,
                    keyed,
                    text_eq_refl o.id,
                  )
                  refl;
            same = ap (λ z. renewed ttl a.now z) same;
            fresh = record {
              expires = refl;
              recent = touched_recent threshold a.read a.now h1 ordered;
            };
            sound = law.update_kept (some (renewed ttl a.now x)) s sound;
          },
        )

    serves :
        (ttl threshold : ℕ) (seen : Time) (a : Access) (o : ClientSession) (s : S)
        → cfg.sliding_threshold ≡ pos threshold
        → 1 ≤ threshold
        → threshold ≤ ttl
        → ttl ≤ 9223372036854775807
        → is_empty o.id ≡ false
        → OnTime (ttl - threshold) seen (a ∷ [])
        → Holds ttl threshold seen o s
        → ((y : ClientSession) × ((get_session store cfg a.read a.checked a.now o.id s).1 ≡ ok y)
            × SameSession o y)
          × Holds ttl threshold a.read o (get_session store cfg a.read a.checked a.now o.id s).0
    serves ttl threshold seen a o s ec h1 h2 h3 hi time holds =
        let x = holds.held in
        let alive = within ttl threshold seen a.checked x h2 holds.fresh time.3 in
        let way =
          get_session_found store cfg a.read a.checked a.now o.id x s hi
            (law.get_present o.id s x holds.found) in
        let past : after a.read x.expires_at ≡ false = ground arith in
        elim (Bool-cases (leb_ℤ (pos threshold) (sub a.read x.updated_at))) [
          | inl t ↦
              let way2 = slide_touched store cfg a.read a.checked a.now x s past (rw ec t) in
              let both =
                serves_touched ttl threshold a o s x h1 h2 h3 (ground arith) alive
                  holds.fresh.expires holds.same holds.found holds.sound in
              rw (way, way2, both.0)
                ((renewed ttl a.now x, refl, ap (λ z. renewed ttl a.now z) holds.same), both.1)
          | inr t ↦
              let way2 = slide_recent store cfg a.read a.checked a.now x s past (rw ec t) in
              rw (way, way2)
                (
                  (x, refl, holds.same),
                  record {
                    held = x;
                    found = holds.found;
                    same = holds.same;
                    fresh = record {
                      expires = holds.fresh.expires;
                      recent = still_recent threshold a.read x (omega arith) t;
                    };
                    sound = holds.sound;
                  },
                )
        ]

    served_while :
        (ttl threshold : ℕ) (seen : Time) (accesses : List Access) (o : ClientSession) (s : S)
        → cfg.sliding_threshold ≡ pos threshold
        → 1 ≤ threshold
        → threshold ≤ ttl
        → ttl ≤ 9223372036854775807
        → is_empty o.id ≡ false
        → OnTime (ttl - threshold) seen accesses
        → Holds ttl threshold seen o s
        → AllServed o accesses s
    unfolding AllServed
    served_while ttl threshold seen [] o s ec h1 h2 h3 hi time holds = tt
    served_while ttl threshold seen (a ∷ rest) o s ec h1 h2 h3 hi time holds =
        let step =
          serves ttl threshold seen a o s ec h1 h2 h3 hi (time.0, time.1, time.2, time.3, tt)
            holds in
        (
          step.0,
          served_while ttl threshold a.read rest o
              (get_session store cfg a.read a.checked a.now o.id s).0 ec h1 h2 h3 hi time.4 step.1,
        )

    -- A session in use stays alive: if the store holds a session that expires `ttl` after its last
    -- update, updated at most the sliding threshold before it was last seen, and each call of
    -- `GetSession` starts and checks the session at most `ttl` less the threshold after the last one
    -- read it, then every one of the calls returns the session, with no field changed but the times of
    -- its last update and of its expiry. The threshold is positive and at most
    -- `ttl`, `ttl` fits in an int64, the clock does not run backwards, and the store is any one that
    -- behaves as a map.
    pub active_session_survives :
        (ttl threshold : ℕ) (seen : Time) (accesses : List Access) (s : S) (x : ClientSession)
        → cfg.sliding_threshold ≡ pos threshold
        → 1 ≤ threshold
        → threshold ≤ ttl
        → ttl ≤ 9223372036854775807
        → is_empty x.id ≡ false
        → OnTime (ttl - threshold) seen accesses
        → WellFormed s
        → view s x.id ≡ some x
        → IsFresh ttl threshold seen x
        → AllServed x accesses s
    active_session_survives ttl threshold seen accesses s x ec h1 h2 h3 hi time sound found fresh =
        served_while ttl threshold seen accesses x s ec h1 h2 h3 hi time
          (record { held = x; found = found; same = refl; fresh = fresh; sound = sound })
