-- ===== src/Planner/Watchdog.antt =====
-- The watch over the messages: BaseDwaPlanner::on_timer of src/LocalPlanner/src/base/BaseDwaPlanner.cpp
-- in whole executions of the planner.
use mid_napi.Prelude.{
  Holds, Holds-then, Holds-bind, Holds-some, Holds-map, if_either, get_elem?, ◌++◌, ℕ, suc, ◌≤◌,
  ◌≡◌, refl, inl, inr, Bool, true, false, Option, none, some, List, [], ◌∷◌, arith, Bool-cases,
}
use mid_napi.Planner.{
  FloatLibrary, Watch, cnt_max, watch_tick, fed, Pose, CarDwaPlanner, odom_callback, pose_callback,
  map_callback, max_vel_callback, replan_callback, goal_callback, on_timer, plan_round, is_ready,
}
use mid_napi.Planner.Events.{
  Event, odom, pose, map, max_vel, replan, goals, timer, round, step, run_events, IsNew, Keeps,
  plan_round-Keeps, is_ready-all,
}

pub data Topic : Type 0 where
  odom_topic pose_topic map_topic : Topic

module _ (lib : FloatLibrary) where
  open lib use {Double}

  abbrev pub watch_of : Topic → CarDwaPlanner lib → Watch
  watch_of odom_topic p = p.odom_watch
  watch_of pose_topic p = p.pose_watch
  watch_of map_topic p = p.map_watch

  -- How many times the timer went off since the last message on a topic.
  abbrev pub one_older : Option ℕ → Option ℕ
  one_older none = none
  one_older (some n) = some (suc n)

  abbrev pub age_after : Event lib → Topic → Option ℕ → Option ℕ
  age_after (odom msg) odom_topic a = some 0
  age_after (pose msg) pose_topic a = some 0
  age_after (map msg) map_topic a = some 0
  age_after timer t a = one_older a
  age_after e t a = a

  abbrev pub age : Topic → List (Event lib) → Option ℕ → Option ℕ
  age t [] a = a
  age t (e ∷ es) a = age t es (age_after e t a)

  -- A flag and its counter against the age of the last message.
  abbrev pub Watches : Watch → Option ℕ → Type 0
  Watches w none = (w.update ≡ false) × (cnt_max ≤ w.count)
  Watches w (some n) =
      (n ≤ cnt_max → w.count ≡ n)
      × (cnt_max ≤ n → cnt_max ≤ w.count)
      × (1 ≤ n → n ≤ cnt_max → w.update ≡ true)
      × (suc cnt_max ≤ n → w.update ≡ false)

  watch_tick-Watches-none : (w : Watch) → Watches w none → Watches (watch_tick w) none
  unfolding watch_tick
  watch_tick-Watches-none w h = ground arith

  watch_tick-Watches-some :
      (w : Watch) (n : ℕ) → Watches w (some n) → Watches (watch_tick w) (some (suc n))
  unfolding watch_tick
  watch_tick-Watches-some w n h = ground arith

  fed-Watches : (w : Watch) → Watches (fed w) (some 0)
  unfolding fed
  fed-Watches w = ground arith

  timer-Watches : (w : Watch) (a : Option ℕ) → Watches w a → Watches (watch_tick w) (one_older a)
  timer-Watches w none h = watch_tick-Watches-none w h
  timer-Watches w (some n) h = watch_tick-Watches-some w n h

  -- A step that keeps all three.
  abbrev Same : CarDwaPlanner lib → CarDwaPlanner lib → Type 0
  Same p p' =
      (p'.odom_watch ≡ p.odom_watch) × (p'.pose_watch ≡ p.pose_watch) × (p'.map_watch ≡ p.map_watch)

  Same-Watches :
      (t : Topic) (a : Option ℕ) (p p' : CarDwaPlanner lib)
      → Same p p'
      → Watches (watch_of t p) a
      → Watches (watch_of t p') a
  Same-Watches odom_topic a p p' (e, _, _) h = rw e h
  Same-Watches pose_topic a p p' (_, e, _) h = rw e h
  Same-Watches map_topic a p p' (_, _, e) h = rw e h

  goal_callback-Same :
      (poses : List (Pose lib)) (back_up : Bool) (p : CarDwaPlanner lib)
      → Holds (Same p) (goal_callback lib poses back_up p)
  unfolding goal_callback
  goal_callback-Same poses back_up p =
      if_either (Holds (Same p)) p.pose_watch.update _ _
        (Holds-bind (Same p) (get_elem? (p.points ++ poses) 0) _ (λ q. (refl, refl, refl)))
        (refl, refl, refl)

  step-Watches :
      (t : Topic) (e : Event lib) (p : CarDwaPlanner lib) (a : Option ℕ)
      → Watches (watch_of t p) a
      → Holds (λ p'. Watches (watch_of t p') (age_after e t a)) (step lib e p)
  unfolding step odom_callback pose_callback map_callback max_vel_callback replan_callback on_timer
  step-Watches odom_topic (odom msg) p a h = fed-Watches p.odom_watch
  step-Watches pose_topic (odom msg) p a h = h
  step-Watches map_topic (odom msg) p a h = h
  step-Watches odom_topic (pose msg) p a h = h
  step-Watches pose_topic (pose msg) p a h = fed-Watches p.pose_watch
  step-Watches map_topic (pose msg) p a h = h
  step-Watches odom_topic (map msg) p a h = h
  step-Watches pose_topic (map msg) p a h = h
  step-Watches map_topic (map msg) p a h = fed-Watches p.map_watch
  step-Watches odom_topic timer p a h = timer-Watches p.odom_watch a h
  step-Watches pose_topic timer p a h = timer-Watches p.pose_watch a h
  step-Watches map_topic timer p a h = timer-Watches p.map_watch a h
  step-Watches t (max_vel v) p a h = Same-Watches t a p _ (refl, refl, refl) h
  step-Watches t replan p a h = Same-Watches t a p _ (refl, refl, refl) h
  step-Watches t (goals poses back_up) p a h =
      Holds-map (Same p) (λ p'. Watches (watch_of t p') a) (goal_callback lib poses back_up p)
        (goal_callback-Same poses back_up p) (λ p' k. Same-Watches t a p p' k h)
  step-Watches t round p a h =
      Holds-map (Keeps lib p) (λ p'. Watches (watch_of t p') a) (plan_round lib p)
        (plan_round-Keeps lib p) (λ p' k. Same-Watches t a p p' (k.0, k.1, k.2) h)

  run_events-Watches :
      (t : Topic) (es : List (Event lib)) (p : CarDwaPlanner lib) (a : Option ℕ)
      → Watches (watch_of t p) a
      → Holds (λ p'. Watches (watch_of t p') (age t es a)) (run_events lib es p)
  unfolding run_events
  run_events-Watches t [] p a h = h
  run_events-Watches t (e ∷ es) p a h =
      Holds-then (λ p'. Watches (watch_of t p') (age_after e t a))
        (λ p'. Watches (watch_of t p') (age t es (age_after e t a))) (step lib e p)
        (run_events lib es) (step-Watches t e p a h)
        (λ p' k. run_events-Watches t es p' (age_after e t a) k)

  -- In every execution from the start: a flag is raised only if a message of its topic has arrived and
  -- the timer went off at most 20 times since, and it is raised if it went off 1 to 20 times since.
  pub update-age :
      (t : Topic) (es : List (Event lib)) (p : CarDwaPlanner lib)
      → IsNew lib p
      → Holds (λ p'. Watches (watch_of t p') (age t es none)) (run_events lib es p)
  update-age t es p new = run_events-Watches t es p none (unseen t new)
    where
      unseen : (t : Topic) → IsNew lib p → Watches (watch_of t p) none
      unseen odom_topic k = rw (k.0) (refl, ground arith)
      unseen pose_topic k = rw (k.1) (refl, ground arith)
      unseen map_topic k = rw (k.2) (refl, ground arith)

  Watches-fresh :
      (w : Watch) (a : Option ℕ)
      → Watches w a
      → w.update ≡ true
      → (n : ℕ) × (a ≡ some n) × (n ≤ cnt_max)
  Watches-fresh w none h u = absurd (ground (arith, h, u))
  Watches-fresh w (some n) h u = (n, refl, ground (arith, h, u))

  plan_round-ready :
      (p : CarDwaPlanner lib)
      → ¬ (plan_round lib p ≡ some p)
      → (t : Topic) → (watch_of t p).update ≡ true
  unfolding plan_round
  plan_round-ready p h t = elim (Bool-cases (is_ready lib p)) [
    | inr e ↦ absurd (h (rw e refl))
    | inl e ↦ raised t (is_ready-all lib p e)
  ]
    where
      raised :
          (t : Topic)
          → (p.goal_update ≡ true)
            × (p.odom_watch.update ≡ true)
            × (p.pose_watch.update ≡ true)
            × (p.map_watch.update ≡ true)
          → (watch_of t p).update ≡ true
      raised odom_topic k = k.1
      raised pose_topic k = k.2
      raised map_topic k = k.3

  -- When a round of the planning loop after an execution from the start changes anything or publishes
  -- a command, then of odometry, position and map a message has arrived, and the timer went off at most
  -- 20 times since.
  pub plan_round-fresh :
      (es : List (Event lib)) (p p' : CarDwaPlanner lib) (t : Topic)
      → IsNew lib p
      → run_events lib es p ≡ some p'
      → ¬ (plan_round lib p' ≡ some p')
      → (n : ℕ) × (age t es none ≡ some n) × (n ≤ cnt_max)
  plan_round-fresh es p p' t new e moved =
      Watches-fresh (watch_of t p') (age t es none)
        (Holds-some (λ q. Watches (watch_of t q) (age t es none)) (run_events lib es p) p' e
          (update-age t es p new))
        (plan_round-ready p' moved t)
