-- ===== src/Planner/Waypoints.antt =====
-- The way from point to point: goalCallback and goalReached of
-- src/LocalPlanner/src/base/BaseDwaPlanner.cpp and getLocalGoal of
-- src/LocalPlanner/src/car/CarDwaPlanner.cpp, in whole executions of the planner.
use mid_napi.Prelude.{
  ℕ, zero, suc, ◌+◌, ◌-◌, ◌≤◌, ◌<◌, ◌≡◌, refl, subst, sym, ap, ◌∙◌, inl, inr, Bool, true, false,
  Option, none, some, ◌>>=◌, List, [], ◌∷◌, ◌++◌, arith, length, length-append, get_elem?, ltb, leb,
  ◌==◌, All, Bool-cases, Option-cases, if◌then◌else◌, ne→not-==,
}
use mid_napi.Planner.{
  FloatLibrary, Watch, cnt_max, watch_tick, Pose, OccupancyGrid, CarDwaPlanner, odom_callback,
  pose_callback, map_callback, max_vel_callback, replan_callback, goal_callback, on_timer,
  plan_round, is_outside, look_ahead, go_to, get_local_goal, goal_reached, conclude, is_ready,
  is_close, last_index, goal_of, distance_to_goal,
}
use mid_napi.Planner.Events.{
  Event, odom, pose, map, max_vel, replan, goals, timer, round, step, run_events, IsNew,
  is_ready-all,
}

module _ {A : Type 0} where
  get_elem?-some : (xs : List A) (i : ℕ) → i < length xs → (q : A) × (get_elem? xs i ≡ some q)
  get_elem?-some [] i h = absurd (omega (arith, h))
  get_elem?-some (x ∷ xs) zero h = (x, refl)
  get_elem?-some (x ∷ xs) (suc i) h = get_elem?-some xs i (omega (arith, h))

  get_elem?-lt : (xs : List A) (i : ℕ) (q : A) → get_elem? xs i ≡ some q → i < length xs
  get_elem?-lt [] i q e = absurd (ground (arith, e))
  get_elem?-lt (x ∷ xs) zero q e = omega arith
  get_elem?-lt (x ∷ xs) (suc i) q e = omega (arith, get_elem?-lt xs i q e)

  get_elem?-append :
      (xs ys : List A) (i : ℕ) (q : A) → get_elem? xs i ≡ some q → get_elem? (xs ++ ys) i ≡ some q
  get_elem?-append [] ys i q e = absurd (ground (arith, e))
  get_elem?-append (x ∷ xs) ys zero q e = e
  get_elem?-append (x ∷ xs) ys (suc i) q e = get_elem?-append xs ys i q e

module _ (lib : FloatLibrary) where
  open lib use {less}

  -- The local goal is the point of the current step.
  abbrev pub IsPointed : CarDwaPlanner lib → Type 0
  IsPointed p =
      (q : Pose lib) × (get_elem? p.points p.current_step ≡ some q) × (p.local_goal ≡ goal_of lib q)

  -- Without a map its flag is not raised.
  abbrev pub NeedsMap : Option (OccupancyGrid lib) → Watch → Type 0
  NeedsMap none w = (w.update ≡ false) × (cnt_max ≤ w.count)
  NeedsMap (some info) w = Unit

  abbrev pub IsSound : CarDwaPlanner lib → Type 0
  IsSound p = (p.goal_update ≡ true → IsPointed p) × NeedsMap p.costmap p.map_watch

  -- A plan has a point.
  abbrev pub HasPoint : Event lib → Type 0
  HasPoint (goals [] back_up) = ⊥
  HasPoint e = Unit

  -- A step that succeeds, and what holds then.
  abbrev Ends : Option (CarDwaPlanner lib) → (CarDwaPlanner lib → Type 0) → Type 0
  Ends o P = (p : CarDwaPlanner lib) × (o ≡ some p) × P p

  look_ahead-some :
      (n i : ℕ) (info : OccupancyGrid lib) (at : Pose lib) (points : List (Pose lib))
      → n + i ≤ length points
      → (j : ℕ) × (look_ahead lib n i info at points ≡ some j) × (j ≤ n + i)
  unfolding look_ahead
  look_ahead-some zero i info at points h = (i, refl, omega arith)
  look_ahead-some (suc n) i info at points h =
      let (q, e) = get_elem?-some points i (omega (arith, h)) in
      let (j, e', le) = look_ahead-some n (suc i) info at points (omega (arith, h)) in
      elim (Bool-cases (is_outside lib info at q)) [
        | inl b ↦ (i, rw (e, b) refl, omega arith)
        | inr b ↦ (j, rw (e, b) e', omega (arith, le))
      ]

  abbrev Arrives : CarDwaPlanner lib → CarDwaPlanner lib → Type 0
  Arrives p p' = IsPointed p' × (p'.costmap ≡ p.costmap) × (p'.map_watch ≡ p.map_watch)

  go_to-Arrives :
      (i : ℕ) (p : CarDwaPlanner lib) → i < length p.points → Ends (go_to lib i p) (Arrives p)
  unfolding go_to
  go_to-Arrives i p h =
      let (q, e) = get_elem?-some p.points i h in
      (
        record p {
          current_step = i;
          last_goal = goal_of lib p.current_pose;
          local_goal = goal_of lib q;
        },
        rw (ne→not-== i (length p.points) (λ eq. absurd (omega (arith, h, eq))), e) refl,
        ((q, e, refl), refl, refl),
      )

  -- The part of `getLocalGoal` that looks ahead, up to an index in bounds.
  look_ahead-Arrives :
      (forward : ℕ) (p : CarDwaPlanner lib) (info : OccupancyGrid lib)
      → p.current_step < forward
      → forward ≤ length p.points
      → Ends
          (look_ahead lib (forward - p.current_step) p.current_step info p.current_pose p.points
            >>= (λ i. go_to lib (if i == forward then i - 1 else i) p))
          (Arrives p)
  look_ahead-Arrives forward p info lo hi =
      let (i, e, le) =
        look_ahead-some (forward - p.current_step) p.current_step info p.current_pose p.points
          (omega (arith, lo, hi)) in
      rw e (go_to-Arrives (if i == forward then i - 1 else i) p (ground (arith, lo, hi, le)))

  get_local_goal-Arrives :
      (p : CarDwaPlanner lib) (info : OccupancyGrid lib)
      → p.current_step < length p.points
      → p.costmap ≡ some info
      → Ends (get_local_goal lib p) (Arrives p)
  unfolding get_local_goal
  get_local_goal-Arrives p info h e =
      let forward =
        if ltb (length p.points) (p.current_step + 3)
        then length p.points
        else p.current_step + 3 in
      let ahead : OccupancyGrid lib → Option (CarDwaPlanner lib) = λ info.
        look_ahead lib (forward - p.current_step) p.current_step info p.current_pose p.points
        >>= (λ i. go_to lib (if i == forward then i - 1 else i) p) in
      let (p', e', a) = look_ahead-Arrives forward p info (ground (arith, h)) (ground (arith, h)) in
      (
        p',
        ap (λ b. if b then some p else (p.costmap >>= ahead))
              (ne→not-== p.current_step (length p.points) (λ eq. absurd (omega (arith, h, eq))))
            ∙ ap (λ c. c >>= ahead) e
            ∙ e',
        a,
      )

  -- With a map, a round for a local goal that stands among the points.
  goal_reached-IsSound :
      (p : CarDwaPlanner lib) (info : OccupancyGrid lib)
      → IsPointed p
      → p.costmap ≡ some info
      → (b : Bool) × (p' : CarDwaPlanner lib) × (goal_reached lib p ≡ some (b, p'))
        × IsPointed p'
        × (p'.costmap ≡ p.costmap)
  unfolding goal_reached
  goal_reached-IsSound p info (q, at, eq) e =
      let (p', e', (k, c, _)) =
        get_local_goal-Arrives (record p { goal_update = false }) info
          (get_elem?-lt p.points p.current_step q at) e in
      elim (Bool-cases (leb (last_index lib p.points) p.current_step)) [
        | inl b ↦ (less (distance_to_goal lib p) p.goal_tolerance, p, rw b refl, (q, at, eq), refl)
        | inr b ↦ elim (Bool-cases (is_close lib p)) [
          | inl b' ↦ (false, record p' { goal_update = true }, rw (b, b', e') refl, k, c)
          | inr b' ↦ (false, p, rw (b, b') refl, (q, at, eq), refl)
        ]
      ]

  conclude-IsSound :
      (reached : Bool) (p : CarDwaPlanner lib)
      → IsPointed p
      → NeedsMap p.costmap p.map_watch
      → IsSound (conclude lib reached p)
  unfolding conclude
  conclude-IsSound true p k m = (λ e. absurd (ground (arith, e)), m)
  conclude-IsSound false p k m = (λ e. k, m)

  plan_round-IsSound : (p : CarDwaPlanner lib) → IsSound p → Ends (plan_round lib p) IsSound
  unfolding plan_round
  plan_round-IsSound p (pointed, needs) = elim (Bool-cases (is_ready lib p)) [
    | inr b ↦ (p, rw b refl, (pointed, needs))
    | inl b ↦
        let (g, _, _, raised) = is_ready-all lib p b in
        elim (Option-cases p.costmap) [
          | inl e ↦ absurd (unraised (subst (λ c. NeedsMap c p.map_watch) e needs) raised)
          | inr (info, e) ↦
              let (reached, p', e', k, c) = goal_reached-IsSound p info (pointed g) e in
              (
                conclude lib reached p',
                rw (b, e') refl,
                conclude-IsSound reached p' k
                    (subst (λ c'. NeedsMap c' p'.map_watch) (sym (c ∙ e)) tt),
              )
        ]
  ]
    where
      unraised : {w : Watch} → NeedsMap none w → w.update ≡ true → ⊥
      unraised (e, _) e' = absurd (ground (arith, e, e'))

  goal_callback-IsSound :
      (q : Pose lib) (qs : List (Pose lib)) (back_up : Bool) (p : CarDwaPlanner lib)
      → IsSound p
      → Ends (goal_callback lib (q ∷ qs) back_up p) IsSound
  unfolding goal_callback
  goal_callback-IsSound q qs back_up p (pointed, needs) =
      let (first, e) =
        get_elem?-some (p.points ++ q ∷ qs) 0 (omega (arith, length-append p.points (q ∷ qs))) in
      elim (Bool-cases p.pose_watch.update) [
        | inl b ↦ (
          record p {
            points = p.points ++ q ∷ qs;
            allow_back = back_up;
            current_step = 0;
            last_goal = goal_of lib p.current_pose;
            local_goal = goal_of lib first;
            goal_update = true;
          },
          rw (b, e) refl,
          ((λ g. (first, e, refl)), needs),
        )
        | inr b ↦ (
          record p { points = p.points ++ q ∷ qs; allow_back = back_up },
          rw b refl,
          (
            (λ g.
                let (at, e', eq) = pointed g in
                (at, get_elem?-append p.points (q ∷ qs) p.current_step at e', eq)),
            needs,
          ),
        )
      ]

  watch_tick-NeedsMap :
      (o : Option (OccupancyGrid lib)) (w : Watch) → NeedsMap o w → NeedsMap o (watch_tick w)
  unfolding watch_tick
  watch_tick-NeedsMap none w h = ground arith
  watch_tick-NeedsMap (some info) w h = tt

  step-IsSound :
      (e : Event lib) (p : CarDwaPlanner lib) → HasPoint e → IsSound p → Ends (step lib e p) IsSound
  unfolding step odom_callback pose_callback map_callback max_vel_callback replan_callback on_timer
      goal_callback
  step-IsSound (odom msg) p h s = (_, refl, s)
  step-IsSound (pose msg) p h s = (_, refl, s)
  step-IsSound (map msg) p h s = (_, refl, (s.0, tt))
  step-IsSound (max_vel v) p h s = (_, refl, s)
  step-IsSound replan p h s = (_, refl, ((λ e. absurd (ground (arith, e))), s.1))
  step-IsSound (goals [] back_up) p h s = absurd h
  step-IsSound (goals (q ∷ qs) back_up) p h s = goal_callback-IsSound q qs back_up p s
  step-IsSound timer p h s = (_, refl, (s.0, watch_tick-NeedsMap p.costmap p.map_watch s.1))
  step-IsSound round p h s = plan_round-IsSound p s

  run_from-IsSound :
      (es : List (Event lib)) (p : CarDwaPlanner lib)
      → All HasPoint es
      → IsSound p
      → Ends (run_events lib es p) IsSound
  unfolding run_events
  run_from-IsSound [] p h s = (p, refl, s)
  run_from-IsSound (e ∷ es) p (h, hs) s =
      let (p1, e1, s1) = step-IsSound e p h s in
      let (p2, e2, s2) = run_from-IsSound es p1 hs s1 in (p2, rw e1 e2, s2)

  -- Every execution from the start in which each plan that arrives has a point succeeds: no map is
  -- asked for before there is one, and no index of a point is out of bounds. At its end, while there is
  -- a goal, the local goal is the point of the current step, which is one of the points.
  pub run_events-IsSound :
      (es : List (Event lib)) (p : CarDwaPlanner lib)
      → IsNew lib p
      → All HasPoint es
      → (p' : CarDwaPlanner lib) × (run_events lib es p ≡ some p')
        × (p'.goal_update ≡ true → IsPointed p')
  run_events-IsSound es p new h =
      let (p', e, s) = run_from-IsSound es p h (new_sound new) in (p', e, s.0)
    where
      new_sound : IsNew lib p → IsSound p
      new_sound (o, at, m, g, i, ps, c, out) =
          ((λ e. absurd (ground (arith, e, g))), rw (c, m) (refl, ground arith))
