-- ===== src/Uwb/Slots/Monitor.antt =====
-- When the slot callback is called: monitor_thread of src/Master/src/uwb/UwbTimeslotmanager.cpp.
use mid_napi.Prelude.{ℕ, ◌+◌, ◌<◌, ◌≤◌, ◌≡◌, Bool, true, List, [], ◌∷◌, arith, ◌==◌, if◌then◌else◌}
use mid_napi.Uwb.Slots.{
  Manager, Readings, monitor_round, monitor_thread, is_my_slot, get_current_slot,
  get_time_in_slot_ms, transmission_window_ms,
}

-- How often the callback was called.
abbrev pub calls : List Bool → ℕ
calls [] = 0
calls (b ∷ bs) = (if b then 1 else 0) + calls bs

-- How often the slot number read at the head of a round differs from the one before.
abbrev pub slot_changes : ℕ → List Readings → ℕ
slot_changes last [] = 0
slot_changes last (r ∷ rs) =
    (if get_current_slot r.slot_at == last then 0 else 1)
    + slot_changes (get_current_slot r.slot_at) rs

-- A call happens only in a round of a running manager that sees a new slot, finds the slot its own
-- and the time inside the window; then the slot is remembered.
pub monitor_round_called :
    (m : Manager) (r : Readings)
    → (monitor_round m r).1 ≡ true
    → (m.running ≡ true)
      × (m.has_callback ≡ true)
      × (¬ (get_current_slot r.slot_at ≡ m.last_slot))
      × (is_my_slot m.node_id r.owner_at ≡ true)
      × (get_time_in_slot_ms r.time_at < transmission_window_ms)
      × ((monitor_round m r).0.last_slot ≡ get_current_slot r.slot_at)
unfolding monitor_round
monitor_round_called m r h = ground arith

monitor_round_cost :
    (m : Manager) (r : Readings)
    → (m.running ≡ true)
    → ((monitor_round m r).0.last_slot ≡ get_current_slot r.slot_at)
      × ((monitor_round m r).0.running ≡ true)
      × ((if (monitor_round m r).1 then 1 else 0)
          ≤ (if get_current_slot r.slot_at == m.last_slot then 0 else 1))
unfolding monitor_round
monitor_round_cost m r h = ground arith

-- However the rounds of the thread fall, the callback is called at most once for each change of the
-- slot number that the rounds see.
pub monitor_thread_once_per_slot :
    (m : Manager) (rs : List Readings)
    → m.running ≡ true
    → calls (monitor_thread m rs) ≤ slot_changes m.last_slot rs
unfolding monitor_thread
monitor_thread_once_per_slot m [] h = omega arith
monitor_thread_once_per_slot m (r ∷ rs) h =
    let (last, running, cost) = monitor_round_cost m r h in
    let rest = monitor_thread_once_per_slot (monitor_round m r).0 rs running in
    omega (arith, rw last at rest)
