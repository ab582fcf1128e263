-- ===== src/Uwb/Slots/Exclusion.antt =====
-- Who may send when: is_my_slot, can_transmit and get_transmission_time_remaining of
-- src/Master/src/uwb/UwbTimeslotmanager.cpp.
use mid_napi.Prelude.{
  ℕ, ◌+◌, ◌-◌, ◌*◌, ◌%◌, ◌/◌, ◌^◌, ◌<◌, ◌≤◌, ◌≡◌, ◌≢◌, ◌↔◌, true, false, arith, inl, inr,
  Bool-cases,
}
use mid_napi.Uwb.Slots.{
  max_nodes, guard_interval_ms, get_current_slot, global_epoch_ms, elapsed_ms, node_index,
  is_my_slot, get_slot_owner, get_time_in_slot_ms, is_in_transmission_window, can_transmit,
  get_transmission_time_remaining,
}

-- The ids that the slots are dealt out to.
pub record IsNode (node : ℕ) : Type 0 where
  pub positive : 1 ≤ node
  pub bounded : node ≤ max_nodes

-- Times at which the slot number has not yet wrapped: from 2024 on, for 68 years.
pub record InEra (now : ℕ) : Type 0 where
  pub begun : global_epoch_ms ≤ now
  pub not_wrapped : now < global_epoch_ms + 500 * 2 ^ 32

-- The owner of a slot is the node that `is_my_slot` accepts.
pub is_my_slot-get_slot_owner :
    (node now : ℕ) → IsNode node → (is_my_slot node now ≡ true) ↔ (get_slot_owner now ≡ node)
unfolding is_my_slot node_index get_slot_owner
is_my_slot-get_slot_owner node now v = (λ h. ground arith, λ h. ground arith)

-- Between 2024 and the wrap of the slot number nothing is cut off.
elapsed_ms-InEra : (now : ℕ) → InEra now → elapsed_ms now ≡ now - global_epoch_ms
unfolding elapsed_ms
elapsed_ms-InEra now e = omega arith

-- Two moments in different slots, each in the first 400 ms of its slot, are more than 100 ms apart.
windows_apart :
    (x y : ℕ)
    → ¬ (x / 500 ≡ y / 500)
    → x % 500 < 400
    → y % 500 < 400
    → x ≤ y + 100
    → y ≤ x + 100
    → ⊥
windows_apart x y ne wx wy a b = omega arith

-- A node that may transmit has read a slot of its own, and a moment in the first 400 ms of a slot.
can_transmit-window :
    (node t0 t1 t2 : ℕ)
    → IsNode node
    → InEra t2
    → can_transmit node t0 t1 t2 ≡ true
    → (get_current_slot t1 % 3 ≡ node - 1) × ((t2 - global_epoch_ms) % 500 < 400)
unfolding can_transmit is_in_transmission_window is_my_slot node_index get_time_in_slot_ms
can_transmit-window node t0 t1 t2 v e h = (ground arith, ground (arith, elapsed_ms-InEra t2 e))

-- Between 2024 and 2092 the number of a slot is how many slots have passed.
get_current_slot-InEra :
    (now : ℕ) → InEra now → get_current_slot now ≡ (now - global_epoch_ms) / 500
unfolding get_current_slot
get_current_slot-InEra now e = omega (arith, elapsed_ms-InEra now e)

-- Between 2024 and 2092: two of the three nodes never both find that they may transmit, if neither
-- passes from one slot into the next between its second and its third reading of the clock, and their
-- third readings are at most the guard interval of 100 ms apart. The clocks of the nodes may differ, and
-- the first readings are any.
pub can_transmit_exclusive :
    (a b t0 t1 t2 u0 u1 u2 : ℕ)
    → IsNode a
    → IsNode b
    → a ≢ b
    → InEra t2
    → InEra u2
    → get_current_slot t1 ≡ get_current_slot t2
    → get_current_slot u1 ≡ get_current_slot u2
    → t2 ≤ u2 + guard_interval_ms
    → u2 ≤ t2 + guard_interval_ms
    → can_transmit a t0 t1 t2 ≡ true
    → can_transmit b u0 u1 u2 ≡ false
can_transmit_exclusive a b t0 t1 t2 u0 u1 u2 va vb ne et eu st su near near' p =
    elim (Bool-cases (can_transmit b u0 u1 u2)) [
      | inr held ↦ held
      | inl q ↦
          let (mine, early) = can_transmit-window a t0 t1 t2 va et p in
          let (yours, early') = can_transmit-window b u0 u1 u2 vb eu q in
          let slot = get_current_slot-InEra t2 et in
          let slot' = get_current_slot-InEra u2 eu in
          absurd (
            windows_apart (t2 - global_epoch_ms) (u2 - global_epoch_ms)
              (λ same. ne (omega (arith, mine, yours, slot, slot', st, su, same))) early early'
              (omega arith) (omega arith))
    ]

can_transmit_at_start :
    (node now : ℕ)
    → IsNode node
    → InEra now
    → (now - global_epoch_ms) % 1500 ≡ 500 * (node - 1)
    → can_transmit node now now now ≡ true
unfolding can_transmit is_my_slot node_index get_time_in_slot_ms
can_transmit_at_start node now v e h = ground (arith, elapsed_ms-InEra now e)

-- How long a node waits for the start of its next slot.
abbrev pub wait_for_slot : ℕ → ℕ → ℕ
wait_for_slot node now = (1500 + 500 * (node - 1) - (now - global_epoch_ms) % 1500) % 1500

-- Between 2024 and 2092, each of the three nodes may transmit at some time within any 1500 ms, if its
-- readings of the clock are all that time.
pub can_transmit_soon :
    (node now : ℕ)
    → IsNode node
    → InEra now
    → InEra (now + 1500)
    → (k : ℕ) × (k < 1500) × (can_transmit node (now + k) (now + k) (now + k) ≡ true)
can_transmit_soon node now v e e' = (
  wait_for_slot node now,
  omega arith,
  can_transmit_at_start node (now + wait_for_slot node now) v
      (record { begun = omega arith; not_wrapped = omega arith }) (omega arith),
)

-- Between 2024 and 2092, a positive answer of `get_transmission_time_remaining`, all readings being
-- `now`, is the time to the end of the window: until then the node keeps the right to transmit, and at
-- the end it has it no longer.
pub get_transmission_time_remaining_exact :
    (node now k : ℕ)
    → InEra now
    → InEra (now + k)
    → is_in_transmission_window node now now ≡ true
    → k ≤ get_transmission_time_remaining node now now now
    → (can_transmit node (now + k) (now + k) (now + k) ≡ true)
      ↔ (k < get_transmission_time_remaining node now now now)
unfolding can_transmit is_my_slot node_index get_transmission_time_remaining get_time_in_slot_ms
get_transmission_time_remaining_exact node now k e e' w h = (
  λ t. ground (arith, elapsed_ms-InEra now e, elapsed_ms-InEra (now + k) e'),
  λ t. ground (arith, elapsed_ms-InEra now e, elapsed_ms-InEra (now + k) e'),
)

-- The window test reads the clock twice. Between 2024 and 2092, if the first reading is in the last
-- millisecond of the slot of one of the three nodes and the second one millisecond later, it says yes in
-- the slot of another node.
pub is_in_transmission_window_race :
    (node now : ℕ)
    → IsNode node
    → InEra now
    → InEra (now + 1)
    → is_my_slot node now ≡ true
    → get_time_in_slot_ms now ≡ 499
    → (is_in_transmission_window node now (now + 1) ≡ true) × (is_my_slot node (now + 1) ≡ false)
unfolding is_in_transmission_window is_my_slot node_index get_time_in_slot_ms
is_in_transmission_window_race node now v e e' m t = (
  ground (arith, elapsed_ms-InEra now e, elapsed_ms-InEra (now + 1) e'),
  ground (arith, elapsed_ms-InEra now e, elapsed_ms-InEra (now + 1) e'),
)

-- The remaining time reads the clock again after the window test. Between 2024 and 2092, if the test
-- reads the last millisecond of the node's window and the difference is taken two milliseconds later,
-- one past the end of the window, the unsigned difference wraps.
pub get_transmission_time_remaining_wraps :
    (node now : ℕ)
    → InEra now
    → InEra (now + 2)
    → is_my_slot node now ≡ true
    → get_time_in_slot_ms now ≡ 399
    → get_transmission_time_remaining node now now (now + 2) ≡ 2 ^ 32 - 1
unfolding get_transmission_time_remaining get_time_in_slot_ms
get_transmission_time_remaining_wraps node now e e' m t =
    ground (arith, elapsed_ms-InEra now e, elapsed_ms-InEra (now + 2) e')
