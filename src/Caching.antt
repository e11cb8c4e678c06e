-- ===== src/Caching.antt =====
-- internal/bff/adapters/outbound/cache/memory.go: the cache of the web back end; and the trackers of
-- health probes, internal/adapters/inbound/rest/health_tracker.go.
mod Expiry
mod Tests
use vuhive_cloud.Common.{
  ℕ, Bool, true, false, Option, none, some, [], Text, if◌then◌else◌, not, leb, ◌&&◌, ◌||◌,
}
use vuhive_cloud.Common.Dict.{Dict, lookup, insert, delete}
use vuhive_cloud.Common.Int.{ℤ, pos, leb_ℤ, ◌+ℤ◌}
use vuhive_cloud.Common.Time.{Time, Duration, add, after}

pub record CacheItem : Type 0 where
  pub value : Text
  pub expires_at : Time

pub record MemoryCache : Type 0 where
  pub items : Dict CacheItem

abbrev pub new_memory_cache : MemoryCache
new_memory_cache = record { items = [] }

-- An item that is there and has not expired.
abbrev pub fresh_value : Time → Option CacheItem → Option Text
fresh_value now none = none
fresh_value now (some item) = if after now item.expires_at then none else some item.value

unfoldable pub get : Time → Text → MemoryCache → Option Text
get now key c = fresh_value now (lookup key c.items)

unfoldable pub set : Time → Text → Text → Duration → MemoryCache → MemoryCache
set now key content ttl c = record c {
  items = insert key (record { value = content; expires_at = add now ttl }) c.items;
}

unfoldable pub remove : Text → MemoryCache → MemoryCache
remove key c = record c { items = delete key c.items }

pub data ProbeState : Type 0 where
  unknown healthy unhealthy : ProbeState

pub record HealthProbeTracker : Type 0 where
  pub states : Dict ProbeState

abbrev pub new_health_probe_tracker : HealthProbeTracker
new_health_probe_tracker = record { states = [] }

abbrev pub state_of_status : ℤ → ProbeState
state_of_status code = if leb_ℤ (pos 400) code then unhealthy else healthy

abbrev pub is_healthy : ProbeState → Bool
is_healthy healthy = true
is_healthy _ = false

abbrev pub same_state : ProbeState → ProbeState → Bool
same_state unknown unknown = true
same_state healthy healthy = true
same_state unhealthy unhealthy = true
same_state _ _ = false

-- Whether a state differs from the one recorded, if there is one.
abbrev pub differs : Option ProbeState → ProbeState → Bool
differs none new_state = true
differs (some old) new_state = not (same_state old new_state)

-- The tracker, whether the state changed, and whether it is healthy.
unfoldable pub record_and_check_change :
    Text → ℤ → HealthProbeTracker → HealthProbeTracker × Bool × Bool
record_and_check_change endpoint code t =
    let new_state = state_of_status code in
    if differs (lookup endpoint t.states) new_state
    then (record t { states = insert endpoint new_state t.states }, true, is_healthy new_state)
    else (t, false, is_healthy new_state)

unfoldable pub reset : HealthProbeTracker → HealthProbeTracker
reset t = record t { states = [] }
