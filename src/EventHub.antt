-- ===== src/EventHub.antt =====
-- internal/bff/adapters/outbound/eventhub/hub.go: the fan-out of server-sent events. A subscriber is its
-- channel with what is queued in it, whether it is in the hub's map, whether the channel is closed, and
-- how far its `sync.Once` has come. What the code does under the hub's lock is one step, and so is each
-- thing that it does without it. An unsubscription is three steps: the start of the once, the removal
-- from the map, the closing of the channel. Close empties the map in one step and then runs the once of
-- each subscriber of its snapshot in a step of its own; where an unsubscription runs that once already,
-- Close waits for it and does nothing. Broadcast takes its snapshot in one step and then sends to each
-- subscriber of the snapshot in a step of its own, in any order. A send on a closed channel panics.
pub mod Subscribers
pub mod Interleaved
mod Panics
mod Sequential
mod Tests
use vuhive_cloud.Common.{
  ℕ, suc, ◌+◌, Bool, true, false, ◌&&◌, ◌||◌, not, Option, none, some, List, [], ◌∷◌, ◌++◌, length,
  ◌==◌, leb, if◌then◌else◌, Error, Result, ok, err, hub_closed,
}
use vuhive_cloud.Common.Int.{ℤ, pos, negsuc}

-- How far the function of a subscriber's `once` has come.
pub data Progress : Type 0 where
  idle begun delisted finished : Progress

pub record ClientSubscriber (E : Type 0) : Type 0 where
  pub id : ℕ
  pub once : Progress
  pub queue : List E
  pub listed : Bool
  pub channel_closed : Bool

-- `pending` holds the sends that broadcasts under way have still to do, and `closing` the subscribers
-- whose once a `Close` under way has still to run.
pub record Hub (E : Type 0) : Type 0 where
  pub subscribers : List (ClientSubscriber E)
  pub next_id : ℕ
  pub buffer_size : ℕ
  pub closed : Bool
  pub pending : List (ℕ × E)
  pub closing : List ℕ
  pub panicked : Bool

abbrev buffer_or_default : ℤ → ℕ
buffer_or_default (pos n) = if leb n 0 then 32 else n
buffer_or_default (negsuc n) = 32

unfoldable pub new_hub : {E : Type 0} → ℤ → Hub E
new_hub size = record {
  subscribers = [];
  next_id = 0;
  buffer_size = buffer_or_default size;
  closed = false;
  pending = [];
  closing = [];
  panicked = false;
}

module _ {E : Type 0} where
  abbrev pub with_subscriber : Hub E → Hub E
  with_subscriber h = record h {
    subscribers =
        record {
          id = suc h.next_id;
          once = idle;
          queue = [];
          listed = true;
          channel_closed = false;
        }
        ∷ h.subscribers;
    next_id = suc h.next_id;
  }

  unfoldable pub subscribe : Hub E → Hub E × Result ℕ
  subscribe h = if h.closed then (h, err hub_closed) else (with_subscriber h, ok (suc h.next_id))

  -- The subscriber with an identifier, changed.
  unfoldable pub change :
      (ClientSubscriber E → ClientSubscriber E)
      → ℕ
      → List (ClientSubscriber E)
      → List (ClientSubscriber E)
  change f id [] = []
  change f id (sub ∷ subs) = if sub.id == id then f sub ∷ subs else sub ∷ change f id subs

  -- `once.Do` starts its function, if nobody has.
  abbrev pub start_from : Progress → ClientSubscriber E → ClientSubscriber E
  start_from idle sub = record sub { once = begun }
  start_from _ sub = sub

  -- `delete(h.subscribers, sub.id)`, between the lock and the unlock.
  abbrev pub delist_from : Progress → ClientSubscriber E → ClientSubscriber E
  delist_from begun sub = record sub { listed = false; once = delisted }
  delist_from _ sub = sub

  -- `close(sub.ch)`, without the lock.
  abbrev pub shut_from : Progress → ClientSubscriber E → ClientSubscriber E
  shut_from delisted sub = record sub { channel_closed = true; once = finished }
  shut_from _ sub = sub

  abbrev pub started : ClientSubscriber E → ClientSubscriber E
  started sub = start_from sub.once sub

  abbrev pub taken_off : ClientSubscriber E → ClientSubscriber E
  taken_off sub = delist_from sub.once sub

  abbrev pub shut : ClientSubscriber E → ClientSubscriber E
  shut sub = shut_from sub.once sub

  -- An unsubscription with nothing in between.
  unfoldable pub unsubscribe : ℕ → Hub E → Hub E
  unsubscribe id h = record h {
    subscribers = change shut id (change taken_off id (change started id h.subscribers));
  }

  -- The snapshot of the map, with the event for each of its subscribers.
  unfoldable pub snapshot : E → List (ClientSubscriber E) → List (ℕ × E)
  snapshot event [] = []
  snapshot event (sub ∷ subs) =
      let rest = snapshot event subs in if sub.listed then (sub.id, event) ∷ rest else rest

  unfoldable pub begin_broadcast : E → Hub E → Hub E × Option Error
  begin_broadcast event h =
      if h.closed
      then (h, some hub_closed)
      else (record h { pending = h.pending ++ snapshot event h.subscribers }, none)

  unfoldable pub is_channel_closed : ℕ → List (ClientSubscriber E) → Bool
  is_channel_closed id [] = false
  is_channel_closed id (sub ∷ subs) =
      if sub.id == id then sub.channel_closed else is_channel_closed id subs

  -- `select { case sub.ch <- event: default: }` on an open channel.
  abbrev pub offered : ℕ → E → ClientSubscriber E → ClientSubscriber E
  offered capacity event sub = record sub {
    queue = if leb capacity (length sub.queue) then sub.queue else sub.queue ++ (event ∷ []);
  }

  unfoldable pub send : ℕ × E → Hub E → Hub E
  send (id, event) h =
      if is_channel_closed id h.subscribers
      then record h { panicked = true }
      else record h { subscribers = change (offered h.buffer_size event) id h.subscribers }

  unfoldable pub send_all : List (ℕ × E) → Hub E → Hub E
  send_all [] h = h
  send_all (message ∷ rest) h = send_all rest (send message h)

  -- `Broadcast` with nothing in between.
  unfoldable pub broadcast : E → Hub E → Hub E × Option Error
  broadcast event h =
      if h.closed then (h, some hub_closed) else (send_all (snapshot event h.subscribers) h, none)

  -- `h.subscribers = make(...)`: nobody is in the map.
  unfoldable pub delist_all : List (ClientSubscriber E) → List (ClientSubscriber E)
  delist_all [] = []
  delist_all (sub ∷ subs) = record sub { listed = false } ∷ delist_all subs

  -- The snapshot that `Close` takes of the map.
  unfoldable pub listed_ids : List (ClientSubscriber E) → List ℕ
  listed_ids [] = []
  listed_ids (sub ∷ subs) = let rest = listed_ids subs in if sub.listed then sub.id ∷ rest else rest

  -- The once of `Close`, if no unsubscription runs it or has run it.
  abbrev pub finish_from : Progress → ClientSubscriber E → ClientSubscriber E
  finish_from idle sub = record sub { channel_closed = true; once = finished }
  finish_from _ sub = sub

  abbrev pub ended : ClientSubscriber E → ClientSubscriber E
  ended sub = finish_from sub.once sub

  unfoldable pub end_all : List ℕ → List (ClientSubscriber E) → List (ClientSubscriber E)
  end_all [] subs = subs
  end_all (id ∷ ids) subs = end_all ids (change ended id subs)

  -- `Close` up to its unlock.
  unfoldable pub begin_close : Hub E → Hub E
  begin_close h = if h.closed then h else record h {
    closed = true;
    closing = h.closing ++ listed_ids h.subscribers;
    subscribers = delist_all h.subscribers;
  }

  -- `Close` with nothing in between.
  unfoldable pub close : Hub E → Hub E
  close h = if h.closed then h else record h {
    closed = true;
    subscribers = end_all (listed_ids h.subscribers) (delist_all h.subscribers);
  }

  unfoldable pub client_count : List (ClientSubscriber E) → ℕ
  client_count [] = 0
  client_count (sub ∷ subs) = (if sub.listed then 1 else 0) + client_count subs

  -- The client reads the next event of its channel.
  abbrev pub received : ClientSubscriber E → ClientSubscriber E
  received sub = record sub { queue = elim sub.queue [ [] ↦ [] | event ∷ rest ↦ rest ] }

  unfoldable pub receive : ℕ → List (ClientSubscriber E) → List (ClientSubscriber E)
  unfolding change
  receive id subs = change received id subs
