-- ===== src/EventHub/Sequential.antt =====
-- internal/bff/adapters/outbound/eventhub/hub.go: calls of the hub one after the other.
use vuhive_cloud.Common.{
  ℕ, suc, ◌<◌, ◌≡◌, refl, sym, ap, ◌∙◌, Bool, true, false, none, some, List, [], ◌∷◌, arith,
  Bool-cases, inl, inr, Error, Result, ok, err, hub_closed, if◌then◌else◌, subst, All, Option,
}
use vuhive_cloud.Common.Int.{ℤ}
use vuhive_cloud.EventHub.{
  ClientSubscriber, Hub, new_hub, subscribe, unsubscribe, snapshot, broadcast, is_channel_closed,
  change, offered, send, send_all, close, listed_ids, delist_all, end_all, receive, with_subscriber,
}
use vuhive_cloud.EventHub.Interleaved.{
  subscribes, receives, step, send-open, send-HubSound, step-HubSound, unsubscribe-HubSound,
  close-HubSound,
}
use vuhive_cloud.EventHub.Subscribers.{Sound, HubSound}
use vuhive_cloud.EventHub.Panics.{closed_offer}

-- A whole call, or a client's read.
pub data Call (E : Type 0) : Type 0 where
  subscribing : Call E
  unsubscribing : ℕ → Call E
  broadcasting : E → Call E
  closing : Call E
  receiving : ℕ → Call E

module _ {E : Type 0} where
  unfoldable pub perform : Call E → Hub E → Hub E
  perform subscribing h = (subscribe h).0
  perform (unsubscribing id) h = unsubscribe id h
  perform (broadcasting event) h = (broadcast event h).0
  perform closing h = close h
  perform (receiving id) h = record h { subscribers = receive id h.subscribers }

  unfoldable pub run : List (Call E) → Hub E → Hub E
  run [] h = h
  run (c ∷ cs) h = run cs (perform c h)

  abbrev Reachable : List (ClientSubscriber E) → List (ℕ × E) → Type 0
  Reachable subs messages = All (λ m. is_channel_closed m.0 subs ≡ false) messages

  snapshot_below :
      (event : E) (capacity bound : ℕ) (subs : List (ClientSubscriber E))
      → Sound capacity bound subs
      → All (λ m. m.0 < bound) (snapshot event subs)
  unfolding snapshot
  snapshot_below event capacity bound [] s = tt
  snapshot_below event capacity bound (sub ∷ subs) s =
      below sub.listed (lift (snapshot event subs) (snapshot_below event capacity sub.id subs s.2))
    where
      lift : (ms : List (ℕ × E)) → All (λ m. m.0 < sub.id) ms → All (λ m. m.0 < bound) ms
      lift [] a = tt
      lift (m ∷ ms) a = (let here = a.0 in let there = s.0 in omega arith, lift ms a.1)

      below :
          (b : Bool)
          → All (λ m. m.0 < bound) (snapshot event subs)
          → All
              (λ m. m.0 < bound)
              (if b then (sub.id, event) ∷ snapshot event subs else snapshot event subs)
      below true a = (s.0, a)
      below false a = a

  Reachable-past :
      (sub : ClientSubscriber E) (subs : List (ClientSubscriber E)) (ms : List (ℕ × E))
      → All (λ m. m.0 < sub.id) ms
      → Reachable subs ms
      → Reachable (sub ∷ subs) ms
  unfolding is_channel_closed
  Reachable-past sub subs [] a r = tt
  Reachable-past sub subs (m ∷ ms) a r =
      (let below = a.0 in let here = r.0 in ground arith, Reachable-past sub subs ms a.1 r.1)

  snapshot-Reachable :
      (event : E) (capacity bound : ℕ) (subs : List (ClientSubscriber E))
      → Sound capacity bound subs
      → Reachable subs (snapshot event subs)
  unfolding snapshot is_channel_closed
  snapshot-Reachable event capacity bound [] s = tt
  snapshot-Reachable event capacity bound (sub ∷ subs) s =
      let rest =
        Reachable-past sub subs (snapshot event subs)
          (snapshot_below event capacity sub.id subs s.2)
          (snapshot-Reachable event capacity sub.id subs s.2) in
      elim (Bool-cases sub.listed) [
        | inl e ↦ rw e (let alive = s.1.0 in ground arith, rest)
        | inr e ↦ rw e rest
      ]

  Reachable-after :
      (capacity id : ℕ) (event : E) (subs : List (ClientSubscriber E)) (ms : List (ℕ × E))
      → Reachable subs ms
      → Reachable (change (offered capacity event) id subs) ms
  Reachable-after capacity id event subs [] r = tt
  Reachable-after capacity id event subs (m ∷ ms) r =
      (closed_offer m.0 capacity id event subs ∙ r.0, Reachable-after capacity id event subs ms r.1)

  -- The hub is sound, and the process alive.
  abbrev Alive : Hub E → Type 0
  Alive h = HubSound h × (h.panicked ≡ false)

  send_all-Alive :
      (ms : List (ℕ × E)) (h : Hub E) → Reachable h.subscribers ms → Alive h → Alive (send_all ms h)
  unfolding send_all
  send_all-Alive [] h r a = a
  send_all-Alive ((id, event) ∷ ms) h r a =
      let way = send-open id event h r.0 in
      send_all-Alive ms (send (id, event) h)
        (subst (λ z. Reachable z.subscribers ms) (sym way)
          (Reachable-after h.buffer_size id event h.subscribers ms r.1))
        (send-HubSound id event h a.0, ap (λ z. z.panicked) way ∙ a.1)

  broadcast-Alive : (event : E) (h : Hub E) → Alive h → Alive (broadcast event h).0
  unfolding broadcast
  broadcast-Alive event h a =
      let shut : Hub E × Option Error = (h, some hub_closed) in
      let sent : Hub E × Option Error = (send_all (snapshot event h.subscribers) h, none) in
      elim (Bool-cases h.closed) [
        | inl e ↦
            subst Alive (sym (ap (λ b. (if◌then◌else◌ {A = Hub E × Option Error} b shut sent).0) e))
              a
        | inr e ↦
            subst Alive (sym (ap (λ b. (if◌then◌else◌ {A = Hub E × Option Error} b shut sent).0) e))
              (send_all-Alive (snapshot event h.subscribers) h
                (snapshot-Reachable event h.buffer_size (suc h.next_id) h.subscribers a.0.0) a)
      ]

  unpanicked_subscribe : (h : Hub E) → (subscribe h).0.panicked ≡ h.panicked
  unfolding subscribe
  unpanicked_subscribe h = by_flag h.closed
    where
      by_flag :
          (b : Bool)
          → (if◌then◌else◌ {A = Hub E × Result ℕ} b
              (h, err hub_closed)
              (with_subscriber h, ok (suc h.next_id))).0.panicked
            ≡ h.panicked
      by_flag true = refl
      by_flag false = refl

  unpanicked_close : (h : Hub E) → (close h).panicked ≡ h.panicked
  unfolding close
  unpanicked_close h = by_flag h.closed
    where
      by_flag :
          (b : Bool)
          → (if◌then◌else◌ {A = Hub E} b h (record h {
            closed = true;
            subscribers = end_all (listed_ids h.subscribers) (delist_all h.subscribers);
          })).panicked
            ≡ h.panicked
      by_flag true = refl
      by_flag false = refl

  perform-Alive : (c : Call E) (h : Hub E) → Alive h → Alive (perform c h)
  unfolding perform step unsubscribe
  perform-Alive subscribing h a = (step-HubSound subscribes h a.0, unpanicked_subscribe h ∙ a.1)
  perform-Alive (unsubscribing id) h a = (unsubscribe-HubSound id h a.0, a.1)
  perform-Alive (broadcasting event) h a = broadcast-Alive event h a
  perform-Alive closing h a = (close-HubSound h a.0, unpanicked_close h ∙ a.1)
  perform-Alive (receiving id) h a = (step-HubSound (receives id) h a.0, a.1)

  run-Alive : (cs : List (Call E)) (h : Hub E) → Alive h → Alive (run cs h)
  unfolding run
  run-Alive [] h a = a
  run-Alive (c ∷ cs) h a = run-Alive cs (perform c h) (perform-Alive c h a)

  -- Calls of a hub that follow one another never panic: subscriptions, unsubscriptions, broadcasts,
  -- closings and the clients' reads, in any order, from a new hub on.
  pub calls_never_panic : (cs : List (Call E)) (size : ℤ) → (run cs (new_hub size)).panicked ≡ false
  unfolding new_hub
  calls_never_panic cs size = (run-Alive cs (new_hub size) ((tt, (λ e. tt), λ e. refl), refl)).1
