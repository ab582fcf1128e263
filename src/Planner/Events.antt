-- ===== src/Planner/Events.antt =====
-- What can happen to a planner of src/LocalPlanner/src/base/BaseDwaPlanner.cpp: the messages, the timer
-- and the rounds of its loop, one after another.
use mid_napi.Prelude.{
  and→, ◌&&◌, ℕ, ◌≡◌, refl, Bool, true, false, Option, none, some, ◌>>=◌, List, [], ◌∷◌, Holds,
  Holds-bind, Holds-then, if_either, leb, ◌==◌, get_elem?, length, Option-cases, inl, inr,
}
use mid_napi.Planner.{
  FloatLibrary, Pose, Odometry, OccupancyGrid, CarDwaPlanner, odom_callback, pose_callback,
  map_callback, max_vel_callback, replan_callback, goal_callback, on_timer, plan_round, go_to,
  get_local_goal, goal_reached, conclude, look_ahead, is_ready, last_index, is_close,
}

module _ (lib : FloatLibrary) where
  open lib use {Double}

  pub data Event : Type 0 where
    odom : Odometry lib → Event
    pose : Pose lib → Event
    map : OccupancyGrid lib → Event
    max_vel : Double → Event
    replan : Event
    goals : List (Pose lib) → Bool → Event
    timer : Event
    round : Event

  unfoldable pub step : Event → CarDwaPlanner lib → Option (CarDwaPlanner lib)
  unfolding odom_callback pose_callback map_callback max_vel_callback replan_callback goal_callback
      on_timer plan_round
  step (odom msg) p = some (odom_callback lib msg p)
  step (pose msg) p = some (pose_callback lib msg p)
  step (map msg) p = some (map_callback lib msg p)
  step (max_vel v) p = some (max_vel_callback lib v p)
  step replan p = some (replan_callback lib p)
  step (goals poses back_up) p = goal_callback lib poses back_up p
  step timer p = some (on_timer lib p)
  step round p = plan_round lib p

  unfoldable pub run_events : List Event → CarDwaPlanner lib → Option (CarDwaPlanner lib)
  unfolding step
  run_events [] p = some p
  run_events (e ∷ es) p = step e p >>= run_events es

  -- What the constructor leaves: no message, and all of `watch_cnt` 1000.
  abbrev pub IsNew : CarDwaPlanner lib → Type 0
  IsNew p =
      (p.odom_watch ≡ record { update = false; count = 1000 })
      × (p.pose_watch ≡ record { update = false; count = 1000 })
      × (p.map_watch ≡ record { update = false; count = 1000 })
      × (p.goal_update ≡ false)
      × (p.current_step ≡ 0)
      × (p.points ≡ [])
      × (p.costmap ≡ none)
      × (p.published ≡ [])

  -- What a round does not change.
  abbrev pub Keeps : CarDwaPlanner lib → CarDwaPlanner lib → Type 0
  Keeps p p' =
      (p'.odom_watch ≡ p.odom_watch)
      × (p'.pose_watch ≡ p.pose_watch)
      × (p'.map_watch ≡ p.map_watch)
      × (p'.costmap ≡ p.costmap)
      × (p'.points ≡ p.points)

  go_to-Keeps : (step : ℕ) (p : CarDwaPlanner lib) → Holds (Keeps p) (go_to lib step p)
  unfolding go_to
  go_to-Keeps step p =
      if_either (Holds (Keeps p)) (step == length p.points) _ _ (refl, refl, refl, refl, refl)
        (elim (Option-cases (get_elem? p.points step)) [
          | inl e ↦ rw e tt
          | inr (q, e) ↦ rw e (refl, refl, refl, refl, refl)
        ])

  get_local_goal-Keeps : (p : CarDwaPlanner lib) → Holds (Keeps p) (get_local_goal lib p)
  unfolding get_local_goal
  get_local_goal-Keeps p =
      if_either (Holds (Keeps p)) (p.current_step == length p.points) _ _
        (refl, refl, refl, refl, refl)
        (Holds-bind (Keeps p) p.costmap _ (λ info.
          Holds-bind (Keeps p) (look_ahead lib _ p.current_step info p.current_pose p.points) _
            (λ i. go_to-Keeps _ p)))

  goal_reached-Keeps : (p : CarDwaPlanner lib) → Holds (λ r. Keeps p r.1) (goal_reached lib p)
  unfolding goal_reached
  goal_reached-Keeps p =
      if_either (Holds (λ r. Keeps p r.1)) (leb (last_index lib p.points) p.current_step) _ _
        (refl, refl, refl, refl, refl)
        (if_either (Holds (λ r. Keeps p r.1)) (is_close lib p) _ _
          (Holds-then (Keeps p) (λ r. Keeps p r.1)
            (get_local_goal lib (record p { goal_update = false })) _
            (get_local_goal-Keeps (record p { goal_update = false })) (λ p' k. k))
          (refl, refl, refl, refl, refl))

  conclude-Keeps :
      (reached : Bool) (p p' : CarDwaPlanner lib) → Keeps p p' → Keeps p (conclude lib reached p')
  unfolding conclude
  conclude-Keeps true p p' k = k
  conclude-Keeps false p p' k = k

  pub plan_round-Keeps : (p : CarDwaPlanner lib) → Holds (Keeps p) (plan_round lib p)
  unfolding plan_round
  plan_round-Keeps p =
      if_either (Holds (Keeps p)) (is_ready lib p) _ _
        (Holds-then (λ r. Keeps p r.1) (Keeps p) (goal_reached lib p) _ (goal_reached-Keeps p)
          (λ r k. conclude-Keeps r.0 p r.1 k))
        (refl, refl, refl, refl, refl)

  pub is_ready-all :
      (p : CarDwaPlanner lib)
      → is_ready lib p ≡ true
      → (p.goal_update ≡ true)
        × (p.odom_watch.update ≡ true)
        × (p.pose_watch.update ≡ true)
        × (p.map_watch.update ≡ true)
  is_ready-all p e =
      let (e', m) = and→ (p.goal_update && p.odom_watch.update && p.pose_watch.update) _ e in
      let (e'', at) = and→ (p.goal_update && p.odom_watch.update) _ e' in
      let (g, o) = and→ p.goal_update _ e'' in (g, o, at, m)
