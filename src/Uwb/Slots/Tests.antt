-- ===== src/Uwb/Slots/Tests.antt =====
-- The slot manager at concrete times.
use mid_napi.Prelude.{ℕ, ◌+◌, ◌-◌, ◌*◌, ◌<◌, ◌≤◌, ◌≡◌, ◌↔◌, ◌^◌, refl, true, false, [], ◌∷◌, arith}
use mid_napi.Uwb.Slots.{
  Manager, Readings, get_current_slot, monitor_thread, is_my_slot, get_time_in_slot_ms,
  is_in_transmission_window, can_transmit, get_transmission_time_remaining, global_epoch_ms,
  new_manager, start, set_my_slot_callback,
}
use mid_napi.Uwb.Slots.Exclusion.{
  IsNode, InEra, can_transmit_exclusive, can_transmit_soon, get_transmission_time_remaining_exact,
  get_transmission_time_remaining_wraps, is_in_transmission_window_race,
}
use mid_napi.Uwb.Slots.Monitor.{calls, slot_changes, monitor_thread_once_per_slot}

-- 10 ms into the first slot of node 1.
abbrev early : ℕ
early = global_epoch_ms + 1500 * 1000 + 10

early-IsNode : IsNode 1
early-IsNode = record { positive = omega arith; bounded = omega arith }

two-IsNode : IsNode 2
two-IsNode = record { positive = omega arith; bounded = omega arith }

era : (k : ℕ) → k < 2000 → InEra (early + k)
era k h = record { begun = omega arith; not_wrapped = omega arith }

early-InEra : InEra early
early-InEra = record { begun = omega arith; not_wrapped = omega arith }

-- The clock of node 2 is 90 ms ahead, and node 1 is at the end of its window.
late_sends : can_transmit 1 (early + 380) (early + 385) (early + 389) ≡ true
unfolding can_transmit
late_sends = refl

can_transmit_exclusive_example : can_transmit 2 (early + 470) (early + 475) (early + 479) ≡ false
unfolding get_current_slot
can_transmit_exclusive_example =
    can_transmit_exclusive 1 2 (early + 380) (early + 385) (early + 389) (early + 470) (early + 475)
      (early + 479) early-IsNode two-IsNode (omega arith) (era 389 (omega arith))
      (era 479 (omega arith)) refl refl (omega arith) (omega arith) late_sends

can_transmit_soon_example :
    (k : ℕ) × (k < 1500) × (can_transmit 2 (early + k) (early + k) (early + k) ≡ true)
can_transmit_soon_example =
    can_transmit_soon 2 early two-IsNode early-InEra (era 1500 (omega arith))

get_transmission_time_remaining_exact_example :
    (can_transmit 1 (early + 390) (early + 390) (early + 390) ≡ true)
    ↔ (390 < get_transmission_time_remaining 1 early early early)
unfolding is_in_transmission_window get_transmission_time_remaining
get_transmission_time_remaining_exact_example =
    get_transmission_time_remaining_exact 1 early 390 early-InEra (era 390 (omega arith)) refl
      (omega arith)

get_transmission_time_remaining_wraps_example :
    get_transmission_time_remaining 1 (early + 389) (early + 389) (early + 389 + 2) ≡ 2 ^ 32 - 1
unfolding is_my_slot get_time_in_slot_ms
get_transmission_time_remaining_wraps_example =
    get_transmission_time_remaining_wraps 1 (early + 389) (era 389 (omega arith))
      (era 391 (omega arith)) refl refl

-- The last millisecond of the slot of node 1.
is_in_transmission_window_race_example :
    (is_in_transmission_window 1 (early + 489) (early + 490) ≡ true)
    × (is_my_slot 1 (early + 490) ≡ false)
unfolding is_my_slot get_time_in_slot_ms
is_in_transmission_window_race_example =
    is_in_transmission_window_race 1 (early + 489) early-IsNode (era 489 (omega arith))
      (era 490 (omega arith)) refl refl

abbrev listening : Manager
listening = record { node_id = 1; running = true; last_slot = 0xFFFFFFFF; has_callback = true }

listening_started : start (set_my_slot_callback (new_manager 1)) ≡ listening
unfolding start set_my_slot_callback
listening_started = refl

abbrev at : ℕ → Readings
at now = record { slot_at = now; owner_at = now; time_at = now }

three_rounds :
    monitor_thread listening (at early ∷ at (early + 10) ∷ at (early + 1500) ∷ [])
    ≡ true ∷ false ∷ true ∷ []
unfolding monitor_thread
three_rounds = refl

monitor_thread_once_per_slot_example :
    calls (monitor_thread listening (at early ∷ at (early + 10) ∷ []))
    ≤ slot_changes 0xFFFFFFFF (at early ∷ at (early + 10) ∷ [])
monitor_thread_once_per_slot_example =
    monitor_thread_once_per_slot listening (at early ∷ at (early + 10) ∷ []) refl
