-- ===== src/EventHub/Subscribers.antt =====
-- internal/bff/adapters/outbound/eventhub/hub.go: what is true of every subscriber, and what keeps it so.
use vuhive_cloud.Common.{
  ℕ, suc, ◌≤◌, ◌<◌, ◌≡◌, refl, sym, Bool, true, false, ◌&&◌, List, [], ◌∷◌, length, length-append,
  ◌==◌, arith, Bool-cases, inl, inr, subst,
}
use vuhive_cloud.EventHub.{
  Progress, idle, begun, delisted, finished, ClientSubscriber, Hub, change, start_from, delist_from,
  shut_from, finish_from, started, taken_off, shut, ended, offered, delist_all, end_all, received,
}

abbrev pub is_past : Progress → Bool
is_past delisted = true
is_past finished = true
is_past _ = false

abbrev pub is_finished : Progress → Bool
is_finished finished = true
is_finished _ = false

module _ {E : Type 0} where
  -- A subscriber in the map has an open channel, and its once has not come past the removal; a channel is
  -- closed just when the once is over; and no channel holds more than its buffer.
  abbrev pub SubscriberSound : ℕ → ClientSubscriber E → Type 0
  SubscriberSound capacity sub =
      ((sub.listed && sub.channel_closed) ≡ false)
      × ((sub.listed && is_past sub.once) ≡ false)
      × (sub.channel_closed ≡ is_finished sub.once)
      × (length sub.queue ≤ capacity)

  -- The newest subscriber comes first, no identifier twice.
  abbrev pub Sound : ℕ → ℕ → List (ClientSubscriber E) → Type 0
  Sound capacity bound [] = Unit
  Sound capacity bound (sub ∷ subs) =
      (sub.id < bound) × SubscriberSound capacity sub × Sound capacity sub.id subs

  -- Nobody is in the map.
  abbrev pub NoneListed : List (ClientSubscriber E) → Type 0
  NoneListed [] = Unit
  NoneListed (sub ∷ subs) = (sub.listed ≡ false) × NoneListed subs

  -- The subscribers are sound, a closed hub has nobody in its map, and only a closed hub has onces of a
  -- `Close` still to run.
  abbrev pub HubSound : Hub E → Type 0
  HubSound h =
      Sound h.buffer_size (suc h.next_id) h.subscribers
      × (h.closed ≡ true → NoneListed h.subscribers)
      × (h.closed ≡ false → h.closing ≡ [])

  -- A change of a subscriber that keeps its identifier, keeps it sound, and does not put it into the map.
  abbrev pub Keeps : ℕ → (ClientSubscriber E → ClientSubscriber E) → Type 0
  Keeps capacity f =
      (sub : ClientSubscriber E)
      → SubscriberSound capacity sub
      → ((f sub).id ≡ sub.id)
        × SubscriberSound capacity (f sub)
        × (sub.listed ≡ false → (f sub).listed ≡ false)

  pub change-Sound :
      (f : ClientSubscriber E → ClientSubscriber E) (id capacity bound : ℕ)
      (subs : List (ClientSubscriber E))
      → Keeps capacity f
      → Sound capacity bound subs
      → Sound capacity bound (change f id subs)
  unfolding change
  change-Sound f id capacity bound [] keeps s = tt
  change-Sound f id capacity bound (sub ∷ subs) keeps s = elim (Bool-cases (sub.id == id)) [
    | inl e ↦
        let both = keeps sub s.1 in
        rw e (
          subst (λ i. i < bound) (sym both.0) s.0,
          both.1,
          subst (λ i. Sound capacity i subs) (sym both.0) s.2,
        )
    | inr e ↦ rw e (s.0, s.1, change-Sound f id capacity sub.id subs keeps s.2)
  ]

  pub started-Keeps : (capacity : ℕ) → Keeps capacity started
  started-Keeps capacity sub s = from sub.once refl
    where
      from :
          (p : Progress)
          → sub.once ≡ p
          → ((start_from p sub).id ≡ sub.id)
            × SubscriberSound capacity (start_from p sub)
            × (sub.listed ≡ false → (start_from p sub).listed ≡ false)
      from idle e = (refl, ground arith, λ off. off)
      from begun e = (refl, s, λ off. off)
      from delisted e = (refl, s, λ off. off)
      from finished e = (refl, s, λ off. off)

  pub taken_off-Keeps : (capacity : ℕ) → Keeps capacity taken_off
  taken_off-Keeps capacity sub s = from sub.once refl
    where
      from :
          (p : Progress)
          → sub.once ≡ p
          → ((delist_from p sub).id ≡ sub.id)
            × SubscriberSound capacity (delist_from p sub)
            × (sub.listed ≡ false → (delist_from p sub).listed ≡ false)
      from idle e = (refl, s, λ off. off)
      from begun e = (refl, ground arith, λ off. refl)
      from delisted e = (refl, s, λ off. off)
      from finished e = (refl, s, λ off. off)

  pub shut-Keeps : (capacity : ℕ) → Keeps capacity shut
  shut-Keeps capacity sub s = from sub.once refl
    where
      from :
          (p : Progress)
          → sub.once ≡ p
          → ((shut_from p sub).id ≡ sub.id)
            × SubscriberSound capacity (shut_from p sub)
            × (sub.listed ≡ false → (shut_from p sub).listed ≡ false)
      from idle e = (refl, s, λ off. off)
      from begun e = (refl, s, λ off. off)
      from delisted e = (refl, ground arith, λ off. off)
      from finished e = (refl, s, λ off. off)

  pub offered-Keeps : (capacity : ℕ) (event : E) → Keeps capacity (offered capacity event)
  offered-Keeps capacity event sub s = (
    refl,
    (
      s.0,
      s.1,
      s.2,
      let longer = length-append sub.queue (event ∷ []) in let h = s.3 in ground arith,
    ),
    λ off. off,
  )

  pub received-Keeps : (capacity : ℕ) → Keeps capacity received
  received-Keeps capacity sub s = (refl, (s.0, s.1, s.2, shorter sub.queue s.3), λ off. off)
    where
      shorter :
          (queue : List E)
          → length queue ≤ capacity
          → length (elim queue [ [] ↦ [] | event ∷ rest ↦ rest ]) ≤ capacity
      shorter [] h = h
      shorter (event ∷ rest) h = omega arith

  change-NoneListed :
      (f : ClientSubscriber E → ClientSubscriber E) (id capacity bound : ℕ)
      (subs : List (ClientSubscriber E))
      → Keeps capacity f
      → Sound capacity bound subs
      → NoneListed subs
      → NoneListed (change f id subs)
  unfolding change
  change-NoneListed f id capacity bound [] keeps s off = tt
  change-NoneListed f id capacity bound (sub ∷ subs) keeps s off =
      elim (Bool-cases (sub.id == id)) [
        | inl e ↦ rw e ((keeps sub s.1).2 off.0, off.1)
        | inr e ↦ rw e (off.0, change-NoneListed f id capacity sub.id subs keeps s.2 off.1)
      ]

  -- A hub with a subscriber changed.
  abbrev pub changed : (ClientSubscriber E → ClientSubscriber E) → ℕ → Hub E → Hub E
  changed f id h = record h { subscribers = change f id h.subscribers }

  pub changed-HubSound :
      (f : ClientSubscriber E → ClientSubscriber E) (id : ℕ) (h : Hub E)
      → Keeps h.buffer_size f
      → HubSound h
      → HubSound (changed f id h)
  changed-HubSound f id h keeps s = (
    change-Sound f id h.buffer_size (suc h.next_id) h.subscribers keeps s.0,
    λ e. change-NoneListed f id h.buffer_size (suc h.next_id) h.subscribers keeps s.0 (s.1 e),
    s.2,
  )

  -- The once of `Close` meets a subscriber that is not in the map any more.
  pub change-ended :
      (id capacity bound : ℕ) (subs : List (ClientSubscriber E))
      → Sound capacity bound subs
      → NoneListed subs
      → Sound capacity bound (change ended id subs) × NoneListed (change ended id subs)
  unfolding change
  change-ended id capacity bound [] s off = (tt, tt)
  change-ended id capacity bound (sub ∷ subs) s off = elim (Bool-cases (sub.id == id)) [
    | inl e ↦ rw e (from sub.once refl)
    | inr e ↦
        let rest = change-ended id capacity sub.id subs s.2 off.1 in
        rw e ((s.0, s.1, rest.0), (off.0, rest.1))
  ]
    where
      from :
          (p : Progress)
          → sub.once ≡ p
          → Sound capacity bound (finish_from p sub ∷ subs) × NoneListed (finish_from p sub ∷ subs)
      from idle e =
          ((s.0, (let unlisted = off.0 in let sound = s.1 in ground arith), s.2), (off.0, off.1))
      from begun e = (s, off)
      from delisted e = (s, off)
      from finished e = (s, off)

  pub delist_all-Sound :
      (capacity bound : ℕ) (subs : List (ClientSubscriber E))
      → Sound capacity bound subs
      → Sound capacity bound (delist_all subs) × NoneListed (delist_all subs)
  unfolding delist_all
  delist_all-Sound capacity bound [] s = (tt, tt)
  delist_all-Sound capacity bound (sub ∷ subs) s =
      let rest = delist_all-Sound capacity sub.id subs s.2 in
      ((s.0, (refl, refl, s.1.2, s.1.3), rest.0), (refl, rest.1))

  pub end_all-Sound :
      (ids : List ℕ) (capacity bound : ℕ) (subs : List (ClientSubscriber E))
      → Sound capacity bound subs
      → NoneListed subs
      → Sound capacity bound (end_all ids subs) × NoneListed (end_all ids subs)
  unfolding end_all
  end_all-Sound [] capacity bound subs s off = (s, off)
  end_all-Sound (id ∷ ids) capacity bound subs s off =
      let once = change-ended id capacity bound subs s off in
      end_all-Sound ids capacity bound (change ended id subs) once.0 once.1
