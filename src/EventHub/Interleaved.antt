-- ===== src/EventHub/Interleaved.antt =====
-- internal/bff/adapters/outbound/eventhub/hub.go: calls of the hub that interleave.
use vuhive_cloud.Common.{
  ℕ, zero, suc, ◌≡◌, refl, sym, ap, Bool, true, false, Option, none, some, List, [], ◌∷◌, ◌++◌,
  arith, Bool-cases, inl, inr, ok, err, Error, hub_closed, if◌then◌else◌, subst,
}
use vuhive_cloud.Common.Int.{ℤ}
use vuhive_cloud.EventHub.{
  new_hub, with_subscriber, Hub, subscribe, unsubscribe, change, started, taken_off, shut, ended,
  snapshot, begin_broadcast, is_channel_closed, offered, send, begin_close, delist_all, listed_ids,
  end_all, close, received, receive,
}
use vuhive_cloud.EventHub.Subscribers.{
  HubSound, changed, started-Keeps, taken_off-Keeps, shut-Keeps, offered-Keeps, received-Keeps,
  changed-HubSound, change-ended, delist_all-Sound, end_all-Sound,
}

-- A step: `starts`, `delists` and `shuts` are those of an unsubscription, `closes` is a `Close` up to
-- its unlock. `sends n` and `ends n` take any one of the sends and of the onces that are still to do.
pub data Action (E : Type 0) : Type 0 where
  subscribes : Action E
  starts delists shuts : ℕ → Action E
  begins : E → Action E
  sends : ℕ → Action E
  closes : Action E
  ends : ℕ → Action E
  receives : ℕ → Action E

-- One element of a list, and the others.
abbrev pub pick_after : {A : Type 0} → A → Option (A × List A) → Option (A × List A)
pick_after a none = none
pick_after a (some (b, rest)) = some (b, a ∷ rest)

unfoldable pub pick : {A : Type 0} → ℕ → List A → Option (A × List A)
pick n [] = none
pick zero (a ∷ rest) = some (a, rest)
pick (suc n) (a ∷ rest) = pick_after a (pick n rest)

module _ {E : Type 0} where
  abbrev pub sent : Option ((ℕ × E) × List (ℕ × E)) → Hub E → Hub E
  sent none h = h
  sent (some (message, rest)) h = send message (record h { pending = rest })

  abbrev pub end_one : Option (ℕ × List ℕ) → Hub E → Hub E
  end_one none h = h
  end_one (some (id, rest)) h = record h {
    closing = rest;
    subscribers = change ended id h.subscribers;
  }

  unfoldable pub step : Action E → Hub E → Hub E
  step subscribes h = (subscribe h).0
  step (starts id) h = record h { subscribers = change started id h.subscribers }
  step (delists id) h = record h { subscribers = change taken_off id h.subscribers }
  step (shuts id) h = record h { subscribers = change shut id h.subscribers }
  step (begins event) h = (begin_broadcast event h).0
  step (sends n) h = sent (pick n h.pending) h
  step closes h = begin_close h
  step (ends n) h = end_one (pick n h.closing) h
  step (receives id) h = record h { subscribers = receive id h.subscribers }

  unfoldable pub perform_all : List (Action E) → Hub E → Hub E
  perform_all [] h = h
  perform_all (a ∷ rest) h = perform_all rest (step a h)

  pub send-closed :
      (id : ℕ) (event : E) (h : Hub E)
      → is_channel_closed id h.subscribers ≡ true
      → send (id, event) h ≡ record h { panicked = true }
  unfolding send
  send-closed id event h e = rw (send, e) refl

  pub send-open :
      (id : ℕ) (event : E) (h : Hub E)
      → is_channel_closed id h.subscribers ≡ false
      → send (id, event) h
        ≡ record h { subscribers = change (offered h.buffer_size event) id h.subscribers }
  unfolding send
  send-open id event h e = rw (send, e) refl

  pub send-HubSound : (id : ℕ) (event : E) (h : Hub E) → HubSound h → HubSound (send (id, event) h)
  send-HubSound id event h s = elim (Bool-cases (is_channel_closed id h.subscribers)) [
    | inl e ↦ subst HubSound (sym (send-closed id event h e)) s
    | inr e ↦
        subst HubSound (sym (send-open id event h e)) (
          changed-HubSound (offered h.buffer_size event) id h (offered-Keeps h.buffer_size event) s)
  ]

  subscribe-HubSound : (h : Hub E) → HubSound h → HubSound (subscribe h).0
  unfolding subscribe
  subscribe-HubSound h s = elim (Bool-cases h.closed) [
    | inl e ↦ subst (λ z. HubSound z.0) (sym (by_flag h true e)) s
    | inr e ↦
        subst (λ z. HubSound z.0) (sym (by_flag h false e))
          ((omega arith, (refl, refl, refl, omega arith), s.0), (λ c. (let no = e in cc)), s.2)
  ]
    where
      by_flag :
          (h : Hub E) (b : Bool)
          → h.closed ≡ b
          → subscribe h
            ≡ (if b then (h, err hub_closed) else (with_subscriber h, ok (suc h.next_id)))
      by_flag h b e =
          ap (λ c. if c then (h, err hub_closed) else (with_subscriber h, ok (suc h.next_id))) e

  begin_broadcast-HubSound :
      (event : E) (h : Hub E) → HubSound h → HubSound (begin_broadcast event h).0
  unfolding begin_broadcast
  begin_broadcast-HubSound event h s = from h.closed
    where
      from :
          (b : Bool)
          → HubSound
              (if◌then◌else◌ {A = Hub E × Option Error} b
                (h, some hub_closed)
                (record h { pending = h.pending ++ snapshot event h.subscribers }, none)).0
      from true = s
      from false = s

  begin_close-HubSound : (h : Hub E) → HubSound h → HubSound (begin_close h)
  unfolding begin_close
  begin_close-HubSound h s = from h.closed
    where
      from :
          (b : Bool)
          → HubSound (
              if b then h else record h {
                closed = true;
                closing = h.closing ++ listed_ids h.subscribers;
                subscribers = delist_all h.subscribers;
              })
      from true = s
      from false =
          let off = delist_all-Sound h.buffer_size (suc h.next_id) h.subscribers s.0 in
          (off.0, (λ e. off.1), λ e. cc)

  pub close-HubSound : (h : Hub E) → HubSound h → HubSound (close h)
  unfolding close
  close-HubSound h s = from h.closed
    where
      from :
          (b : Bool)
          → HubSound (
              if b then h else record h {
                closed = true;
                subscribers = end_all (listed_ids h.subscribers) (delist_all h.subscribers);
              })
      from true = s
      from false =
          let off = delist_all-Sound h.buffer_size (suc h.next_id) h.subscribers s.0 in
          let over =
            end_all-Sound (listed_ids h.subscribers) h.buffer_size (suc h.next_id)
              (delist_all h.subscribers) off.0 off.1 in
          (over.0, (λ e. over.1), λ e. cc)

  sent-HubSound :
      (choice : Option ((ℕ × E) × List (ℕ × E))) (h : Hub E) → HubSound h → HubSound (sent choice h)
  sent-HubSound none h s = s
  sent-HubSound (some ((id, event), rest)) h s =
      send-HubSound id event (record h { pending = rest }) s

  end_one-HubSound : (n : ℕ) (h : Hub E) → HubSound h → HubSound (end_one (pick n h.closing) h)
  unfolding pick
  end_one-HubSound n h s = elim (Bool-cases h.closed) [
    | inl e ↦ from (pick n h.closing) e
    | inr e ↦ subst (λ z. HubSound (end_one (pick n z) h)) (sym (s.2 e)) s
  ]
    where
      from : (choice : Option (ℕ × List ℕ)) → h.closed ≡ true → HubSound (end_one choice h)
      from none e = s
      from (some (id, rest)) e =
          let over = change-ended id h.buffer_size (suc h.next_id) h.subscribers s.0 (s.1 e) in
          (over.0, (λ c. over.1), (λ c. (let yes = e in cc)))

  pub unsubscribe-HubSound : (id : ℕ) (h : Hub E) → HubSound h → HubSound (unsubscribe id h)
  unfolding unsubscribe
  unsubscribe-HubSound id h s =
      changed-HubSound shut id (changed taken_off id (changed started id h))
        (shut-Keeps h.buffer_size)
        (changed-HubSound taken_off id (changed started id h) (taken_off-Keeps h.buffer_size)
          (changed-HubSound started id h (started-Keeps h.buffer_size) s))

  pub step-HubSound : (a : Action E) (h : Hub E) → HubSound h → HubSound (step a h)
  unfolding step receive
  step-HubSound subscribes h s = subscribe-HubSound h s
  step-HubSound (starts id) h s = changed-HubSound started id h (started-Keeps h.buffer_size) s
  step-HubSound (delists id) h s = changed-HubSound taken_off id h (taken_off-Keeps h.buffer_size) s
  step-HubSound (shuts id) h s = changed-HubSound shut id h (shut-Keeps h.buffer_size) s
  step-HubSound (begins event) h s = begin_broadcast-HubSound event h s
  step-HubSound (sends n) h s = sent-HubSound (pick n h.pending) h s
  step-HubSound closes h s = begin_close-HubSound h s
  step-HubSound (ends n) h s = end_one-HubSound n h s
  step-HubSound (receives id) h s = changed-HubSound received id h (received-Keeps h.buffer_size) s

  kept : (actions : List (Action E)) (h : Hub E) → HubSound h → HubSound (perform_all actions h)
  unfolding perform_all
  kept [] h s = s
  kept (a ∷ rest) h s = kept rest (step a h) (step-HubSound a h s)

  -- However the steps of a hub's calls interleave, those of unsubscriptions and closings included, and in
  -- whatever order the sends of its broadcasts come: no channel ever holds more events than its buffer,
  -- identifiers are never used twice, a subscriber in the map always has an open channel, a channel is
  -- closed just when the once of its subscriber is over, and a closed hub has nobody in its map.
  pub reached_hub-HubSound :
      (actions : List (Action E)) (size : ℤ) → HubSound (perform_all actions (new_hub size))
  unfolding new_hub
  reached_hub-HubSound actions size = kept actions (new_hub size) (tt, (λ e. tt), λ e. refl)
