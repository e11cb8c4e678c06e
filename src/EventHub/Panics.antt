-- ===== src/EventHub/Panics.antt =====
-- internal/bff/adapters/outbound/eventhub/hub.go: when a send meets a closed channel.
use vuhive_cloud.Common.{
  ℕ, zero, suc, ◌≤◌, ◌≡◌, refl, sym, ap, ◌∙◌, Bool, true, false, ◌&&◌, ◌||◌, none, some, Option,
  List, [], ◌∷◌, ◌++◌, length, ◌==◌, arith, Bool-cases, inl, inr, Error, hub_closed, if◌then◌else◌,
  subst,
}
use vuhive_cloud.EventHub.{
  Progress, idle, begun, delisted, finished, ClientSubscriber, Hub, change, started, taken_off,
  shut, snapshot, begin_broadcast, is_channel_closed, offered, send,
}
use vuhive_cloud.EventHub.Interleaved.{
  Action, pick, sent, begins, starts, delists, shuts, sends, step, perform_all, send-closed,
  send-open,
}
use vuhive_cloud.EventHub.Subscribers.{
  is_finished, SubscriberSound, Sound, HubSound, started-Keeps, taken_off-Keeps, shut-Keeps,
}

module _ {E : Type 0} where
  -- Whether the subscriber is in the map.
  unfoldable pub is_listed : ℕ → List (ClientSubscriber E) → Bool
  is_listed id [] = false
  is_listed id (sub ∷ subs) = (sub.id == id && sub.listed) || is_listed id subs

  abbrev is_addressed : ℕ → List (ℕ × E) → Bool
  is_addressed id [] = false
  is_addressed id ((j, event) ∷ rest) = j == id || is_addressed id rest

  addressed_snapshot :
      (id : ℕ) (event : E) (subs : List (ClientSubscriber E))
      → is_listed id subs ≡ true
      → is_addressed id (snapshot event subs) ≡ true
  unfolding is_listed snapshot
  addressed_snapshot id event [] h = h
  addressed_snapshot id event (sub ∷ subs) h = ground (arith, addressed_snapshot id event subs)

  closes_at :
      (capacity : ℕ) (sub : ClientSubscriber E)
      → SubscriberSound capacity sub
      → (shut (taken_off (started sub))).channel_closed ≡ true
  closes_at capacity sub s = from sub.once refl
    where
      from : (p : Progress) → sub.once ≡ p → (shut (taken_off (started sub))).channel_closed ≡ true
      from idle e = rw e refl
      from begun e = rw e refl
      from delisted e = rw e refl
      from finished e = rw e (s.2 ∙ ap is_finished e)

  change-head :
      (f : ClientSubscriber E → ClientSubscriber E) (id : ℕ) (sub : ClientSubscriber E)
      (subs : List (ClientSubscriber E))
      → (sub.id == id) ≡ true
      → change f id (sub ∷ subs) ≡ f sub ∷ subs
  unfolding change
  change-head f id sub subs e = rw e refl

  closed-head :
      (id : ℕ) (sub : ClientSubscriber E) (subs : List (ClientSubscriber E))
      → (sub.id == id) ≡ true
      → is_channel_closed id (sub ∷ subs) ≡ sub.channel_closed
  unfolding is_channel_closed
  closed-head id sub subs e = rw e refl

  -- After the three steps of an unsubscription the channel is closed, however far its once had come.
  closed_by_leaving :
      (id capacity bound : ℕ) (subs : List (ClientSubscriber E))
      → Sound capacity bound subs
      → is_listed id subs ≡ true
      → is_channel_closed id (change shut id (change taken_off id (change started id subs))) ≡ true
  unfolding is_listed is_channel_closed change
  closed_by_leaving id capacity bound [] s h = h
  closed_by_leaving id capacity bound (sub ∷ subs) s h = elim (Bool-cases (sub.id == id)) [
    | inl e ↦
        let a = started-Keeps capacity sub s.1 in
        let b = taken_off-Keeps capacity (started sub) a.1 in
        let here : ((started sub).id == id) ≡ true = ap (λ i. i == id) a.0 ∙ e in
        let there : ((taken_off (started sub)).id == id) ≡ true = ap (λ i. i == id) b.0 ∙ here in
        let c = shut-Keeps capacity (taken_off (started sub)) b.1 in
        let last : ((shut (taken_off (started sub))).id == id) ≡ true =
          ap (λ i. i == id) c.0 ∙ there in
        ap (λ z. is_channel_closed id (change shut id (change taken_off id z)))
          (change-head started id sub subs e)
        ∙ ap (λ z. is_channel_closed id (change shut id z))
            (change-head taken_off id (started sub) subs here)
        ∙ ap (is_channel_closed id) (change-head shut id (taken_off (started sub)) subs there)
        ∙ closed-head id (shut (taken_off (started sub))) subs last
        ∙ closes_at capacity sub s.1
    | inr e ↦
        let later : is_listed id subs ≡ true = ground arith in
        simp (e, closed_by_leaving id capacity sub.id subs s.2 later)
  ]

  pub closed_offer :
      (id capacity j : ℕ) (event : E) (subs : List (ClientSubscriber E))
      → is_channel_closed id (change (offered capacity event) j subs) ≡ is_channel_closed id subs
  unfolding is_channel_closed change
  closed_offer id capacity j event [] = refl
  closed_offer id capacity j event (sub ∷ subs) =
      ground (arith, closed_offer id capacity j event subs)

  abbrev pub times_sends : ℕ → List (Action E)
  times_sends zero = []
  times_sends (suc n) = sends 0 ∷ times_sends n

  send_panicked :
      (message : ℕ × E) (h : Hub E) → h.panicked ≡ true → (send message h).panicked ≡ true
  send_panicked (id, event) h e = elim (Bool-cases (is_channel_closed id h.subscribers)) [
    | inl c ↦ ap (λ z. z.panicked) (send-closed id event h c)
    | inr c ↦ ap (λ z. z.panicked) (send-open id event h c) ∙ e
  ]

  next_panicked :
      (messages : List (ℕ × E)) (h : Hub E)
      → h.panicked ≡ true
      → (sent (pick 0 messages) h).panicked ≡ true
  unfolding pick
  next_panicked [] h e = e
  next_panicked (message ∷ rest) h e = send_panicked message (record h { pending = rest }) e

  still_panicked :
      (n : ℕ) (h : Hub E) → h.panicked ≡ true → (perform_all (times_sends n) h).panicked ≡ true
  unfolding perform_all step
  still_panicked zero h e = e
  still_panicked (suc n) h e =
      still_panicked n (sent (pick 0 h.pending) h) (next_panicked h.pending h e)

  sends_panic :
      (n id : ℕ) (messages : List (ℕ × E)) (h : Hub E)
      → h.pending ≡ messages
      → length messages ≤ n
      → is_addressed id messages ≡ true
      → is_channel_closed id h.subscribers ≡ true
      → (perform_all (times_sends n) h).panicked ≡ true
  unfolding perform_all step pick
  sends_panic n id [] h e l a c = ground arith
  sends_panic zero id (message ∷ rest) h e l a c = ground arith
  sends_panic (suc n) id ((j, event) ∷ rest) h e l a c =
      let k : Hub E = record h { pending = rest } in
      let way : sent (pick 0 h.pending) h ≡ send (j, event) k = ap (λ z. sent (pick 0 z) h) e in
      subst (λ z. (perform_all (times_sends n) z).panicked ≡ true) (sym way)
        (elim (Bool-cases (is_channel_closed j h.subscribers)) [
          | inl d ↦
              still_panicked n (send (j, event) k) (ap (λ z. z.panicked) (send-closed j event k d))
          | inr d ↦
              let other : (j == id) ≡ false = elim (Bool-cases (j == id)) [
                | inl s ↦
                    let same : j ≡ id = ground arith in
                    let clash = ap (λ z. is_channel_closed z h.subscribers) same in cc
                | inr s ↦ s
              ] in
              subst (λ z. (perform_all (times_sends n) z).panicked ≡ true)
                (sym (send-open j event k d))
                (sends_panic n id rest
                  (record k { subscribers = change (offered h.buffer_size event) j h.subscribers })
                  refl (omega arith) (ground arith)
                  (closed_offer id h.buffer_size j event h.subscribers ∙ c))
        ])

  begun_with :
      (event : E) (h : Hub E)
      → h.closed ≡ false
      → h.pending ≡ []
      → (begin_broadcast event h).0 ≡ record h { pending = snapshot event h.subscribers }
  unfolding begin_broadcast
  begun_with event h opened quiet =
      let messages = snapshot event h.subscribers in
      let x : Hub E × Option Error = (h, some hub_closed) in
      let y : Hub E × Option Error = (record h { pending = h.pending ++ messages }, none) in
      ap (λ b. (if◌then◌else◌ {A = Hub E × Option Error} b x y).0) opened
      ∙ ap (λ p. record h { pending = p ++ messages }) quiet

  -- A client that goes away while an event is sent out brings the process down: in a sound hub that is
  -- open, with no send under way, if a subscriber of the map unsubscribes after `Broadcast` has taken its
  -- snapshot and before it sends, then one of the sends meets a closed channel and panics.
  pub disconnect_panics :
      (event : E) (id : ℕ) (h : Hub E)
      → HubSound h
      → h.closed ≡ false
      → h.pending ≡ []
      → is_listed id h.subscribers ≡ true
      → (perform_all
          (begins event
            ∷ starts id
            ∷ delists id
            ∷ shuts id
            ∷ times_sends (length (snapshot event h.subscribers)))
          h).panicked
        ≡ true
  unfolding perform_all step
  disconnect_panics event id h sound opened quiet listed =
      let messages = snapshot event h.subscribers in
      let k : Hub E = record h { pending = messages } in
      let begun_hub : (begin_broadcast event h).0 ≡ k = begun_with event h opened quiet in
      let left = change shut id (change taken_off id (change started id h.subscribers)) in
      subst
        (λ z.
          (perform_all (times_sends (length messages)) (record z {
            subscribers = change shut id (change taken_off id (change started id z.subscribers));
          })).panicked
          ≡ true)
        (sym begun_hub)
        (sends_panic (length messages) id messages (record k { subscribers = left }) refl
          (omega arith) (addressed_snapshot id event h.subscribers listed)
          (closed_by_leaving id h.buffer_size (suc h.next_id) h.subscribers sound.0 listed))
