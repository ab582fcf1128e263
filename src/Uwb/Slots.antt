-- ===== src/Uwb/Slots.antt =====
-- The time slots of the shared radio channel: SimpleTimeSlotManager of
-- src/Master/src/uwb/UwbTimeslotmanager.hpp and UwbTimeslotmanager.cpp.
-- Each member function reads the system clock anew, so a function that calls two others takes two
-- readings: milliseconds since 1970, in the order of the calls. The clock is not set before 1970.
pub mod Exclusion
pub mod Monitor
pub mod Tests
use mid_napi.Prelude.{
  ℕ, ◌+◌, ◌-◌, ◌*◌, ◌/◌, ◌%◌, ◌^◌, ◌<◌, ◌≤◌, ◌≡◌, Bool, true, false, not, ◌&&◌, List, [], ◌∷◌, ltb,
  ◌==◌, if◌then◌else◌, u8, u32, u64,
}

abbrev pub slot_duration_ms : ℕ
slot_duration_ms = 500

abbrev pub transmission_window_ms : ℕ
transmission_window_ms = 400

abbrev pub guard_interval_ms : ℕ
guard_interval_ms = 100

abbrev pub max_nodes : ℕ
max_nodes = 3

-- 2024-01-01 00:00:00 UTC.
abbrev pub global_epoch_ms : ℕ
global_epoch_ms = 1704067200000

-- `uint64_t elapsed_ms = ms_since_epoch - GLOBAL_EPOCH_MS`.
unfoldable pub elapsed_ms : ℕ → ℕ
elapsed_ms now = u64 (now + 2 ^ 64 - global_epoch_ms)

unfoldable pub get_current_slot : ℕ → ℕ
unfolding elapsed_ms
get_current_slot now = u32 (elapsed_ms now / slot_duration_ms)

-- `(m_node_id - 1) % MAX_NODES` is computed as an int and compared as a uint32_t.
unfoldable pub node_index : ℕ → ℕ
node_index node = if node == 0 then 2 ^ 32 - 1 else (node - 1) % max_nodes

unfoldable pub is_my_slot : ℕ → ℕ → Bool
unfolding get_current_slot node_index
is_my_slot node now = (get_current_slot now % max_nodes) == node_index node

unfoldable pub get_slot_owner : ℕ → ℕ
unfolding get_current_slot
get_slot_owner now = u8 (get_current_slot now % max_nodes + 1)

unfoldable pub get_time_in_slot_ms : ℕ → ℕ
unfolding elapsed_ms
get_time_in_slot_ms now = u32 (elapsed_ms now % slot_duration_ms)

unfoldable pub is_in_transmission_window : ℕ → ℕ → ℕ → Bool
unfolding is_my_slot get_time_in_slot_ms
is_in_transmission_window node t0 t1 =
    if not (is_my_slot node t0) then false else ltb (get_time_in_slot_ms t1) transmission_window_ms

unfoldable pub can_transmit : ℕ → ℕ → ℕ → ℕ → Bool
unfolding is_in_transmission_window
can_transmit node t0 t1 t2 = is_my_slot node t0 && is_in_transmission_window node t1 t2

-- The difference is a uint32_t.
unfoldable pub get_transmission_time_remaining : ℕ → ℕ → ℕ → ℕ → ℕ
unfolding is_in_transmission_window
get_transmission_time_remaining node t0 t1 t2 =
    if not (is_in_transmission_window node t0 t1)
    then 0
    else u32 (transmission_window_ms + 2 ^ 32 - get_time_in_slot_ms t2)

-- The members that change. Whether the monitor thread runs is `running`.
pub record Manager : Type 0 where
  pub node_id : ℕ
  pub running : Bool
  pub last_slot : ℕ
  pub has_callback : Bool

abbrev pub new_manager : ℕ → Manager
new_manager node_id = record {
  node_id = node_id;
  running = false;
  last_slot = 0xFFFFFFFF;
  has_callback = false;
}

unfoldable pub start : Manager → Manager
start m = if m.running then m else record m { running = true }

unfoldable pub stop : Manager → Manager
stop m = if not m.running then m else record m { running = false }

unfoldable pub set_my_slot_callback : Manager → Manager
set_my_slot_callback m = record m { has_callback = true }

-- The readings of one round of `monitor_thread`.
pub record Readings : Type 0 where
  pub slot_at : ℕ
  pub owner_at : ℕ
  pub time_at : ℕ

-- One round of `monitor_thread`: the new state, and whether the callback was called.
unfoldable pub monitor_round : Manager → Readings → Manager × Bool
unfolding is_my_slot get_time_in_slot_ms
monitor_round m r =
    if not m.running
    then (m, false)
    else if get_current_slot r.slot_at == m.last_slot
    then (m, false)
    else (
      record m { last_slot = get_current_slot r.slot_at },
      is_my_slot m.node_id r.owner_at
          && (ltb (get_time_in_slot_ms r.time_at) transmission_window_ms && m.has_callback),
    )

-- The calls of the callback in a sequence of rounds, oldest first.
unfoldable pub monitor_thread : Manager → List Readings → List Bool
unfolding monitor_round
monitor_thread m [] = []
monitor_thread m (r ∷ rs) = let (m', called) = monitor_round m r in called ∷ monitor_thread m' rs
