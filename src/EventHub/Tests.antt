-- ===== src/EventHub/Tests.antt =====
-- internal/bff/adapters/outbound/eventhub/hub.go: two clients, and a third that comes late.
use vuhive_cloud.Common.{ℕ, arith, ◌≡◌, refl, true, false, List, [], ◌∷◌, length}
use vuhive_cloud.Common.Int.{pos}
use vuhive_cloud.EventHub.{
  Hub, new_hub, subscribe, snapshot, broadcast, is_channel_closed, change, idle, send, send_all,
  receive,
}
use vuhive_cloud.EventHub.Interleaved.{
  Action, subscribes, starts, delists, shuts, begins, sends, closes, ends, perform_all,
  reached_hub-HubSound,
}
use vuhive_cloud.EventHub.Subscribers.{HubSound}
use vuhive_cloud.EventHub.Panics.{is_listed, times_sends, disconnect_panics}
use vuhive_cloud.EventHub.Sequential.{
  Call, subscribing, broadcasting, receiving, perform, run, calls_never_panic,
}

abbrev full_buffer : List (Call ℕ)
full_buffer =
    subscribing ∷ broadcasting 7 ∷ subscribing ∷ broadcasting 8 ∷ broadcasting 9 ∷ receiving 2 ∷ []

drops_when_full :
    (run full_buffer (new_hub (pos 2))).subscribers
    ≡ record { id = 2; once = idle; queue = 9 ∷ []; listed = true; channel_closed = false }
      ∷ record { id = 1; once = idle; queue = 7 ∷ 8 ∷ []; listed = true; channel_closed = false }
      ∷ []
unfolding run perform new_hub subscribe broadcast snapshot send_all send is_channel_closed change
    receive
drops_when_full = refl

abbrev two_clients : Hub ℕ
two_clients = record {
  subscribers =
      record { id = 2; once = idle; queue = []; listed = true; channel_closed = false }
      ∷ record { id = 1; once = idle; queue = []; listed = true; channel_closed = false }
      ∷ [];
  next_id = 2;
  buffer_size = 32;
  closed = false;
  pending = [];
  closing = [];
  panicked = false;
}

-- Two broadcasts whose sends come in another order, an unsubscription and a Close that meet.
abbrev busy : List (Action ℕ)
busy =
    subscribes
    ∷ subscribes
    ∷ begins 5
    ∷ begins 6
    ∷ sends 3
    ∷ starts 1
    ∷ sends 0
    ∷ closes
    ∷ ends 1
    ∷ delists 1
    ∷ ends 0
    ∷ shuts 1
    ∷ []

reached_hub-HubSound_example : HubSound (perform_all busy (new_hub (pos 1)))
reached_hub-HubSound_example = reached_hub-HubSound busy (pos 1)

two_clients-HubSound : HubSound two_clients
two_clients-HubSound = (
  (
    omega arith,
    (refl, refl, refl, omega arith),
    (omega arith, (refl, refl, refl, omega arith), tt),
  ),
  (λ e. cc),
  λ e. refl,
)

lists_first : is_listed 1 two_clients.subscribers ≡ true
unfolding is_listed
lists_first = refl

disconnect_panics_example :
    (perform_all
      (begins 5
        ∷ starts 1
        ∷ delists 1
        ∷ shuts 1
        ∷ times_sends (length (snapshot 5 two_clients.subscribers)))
      two_clients).panicked
    ≡ true
disconnect_panics_example =
    disconnect_panics 5 1 two_clients two_clients-HubSound refl refl lists_first

calls_never_panic_example : (run full_buffer (new_hub (pos 2))).panicked ≡ false
calls_never_panic_example = calls_never_panic full_buffer (pos 2)
