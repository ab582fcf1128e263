-- ===== src/Planner/Tests.antt =====
-- A planner over whole numbers: a plan of two points, messages on all topics, and two rounds.
use mid_napi.Prelude.{
  ℕ, ◌+◌, ◌-◌, ◌*◌, ◌/◌, ◌≡◌, refl, ap, ◌≤◌, true, false, none, some, List, [], ◌∷◌, length, ltb,
  leb, arith, Option,
}
use mid_napi.Planner.{
  FloatLibrary, Pose, Watch, Odometry, OccupancyGrid, Goal, CarDwaPlanner, follow, goal_of,
  plan_round, cnt_max,
}
use mid_napi.Planner.Events.{Event, odom, pose, map, goals, timer, round, run_events}
use mid_napi.Planner.Watchdog.{odom_topic, age, plan_round-fresh}
use mid_napi.Planner.Waypoints.{IsPointed, run_events-IsSound}

abbrev naturals : FloatLibrary
naturals = record {
  Double = ℕ;
  literal = λ n digits. n;
  of_uint32 = λ n. n;
  to_float = λ x. x;
  negate = λ x. 0 - x;
  plus = λ x y. x + y;
  minus = λ x y. (x - y) + (y - x);
  times = λ x y. x * y;
  divide = λ x y. x / y;
  abs = λ x. x;
  hypot = λ x y. x + y;
  atan2 = λ x y. y;
  less = ltb;
  at_most = leb;
}

abbrev at : ℕ → Pose naturals
at n = record { x = n; y = 0; orientation = record { x = 0; y = 0; z = 0; w = 1 } }

abbrev speed : Odometry naturals
speed = record { linear_x = 0; angular_z = 0 }

abbrev cells : OccupancyGrid naturals
cells = record { width = 100; height = 100; resolution = 1 }

abbrev still : Watch
still = record { update = false; count = 1000 }

abbrev new_planner : CarDwaPlanner naturals
new_planner = record {
  goal_tolerance = 2;
  allow_back = false;
  max_vel_from_global = 0;
  points = [];
  current_pose = at 0;
  odom = speed;
  costmap = none;
  odom_watch = still;
  pose_watch = still;
  map_watch = still;
  goal_update = false;
  current_step = 0;
  last_goal = goal_of naturals (at 0);
  local_goal = goal_of naturals (at 0);
  published = [];
}

abbrev day : List (Event naturals)
day = odom speed ∷ pose (at 3) ∷ map cells ∷ timer ∷ goals (at 3 ∷ at 9 ∷ []) false ∷ round ∷ []

abbrev at_end : CarDwaPlanner naturals
at_end = record new_planner {
  points = at 3 ∷ at 9 ∷ [];
  current_pose = at 3;
  costmap = some cells;
  odom_watch = record { update = true; count = 1 };
  pose_watch = record { update = true; count = 1 };
  map_watch = record { update = true; count = 1 };
  goal_update = true;
  current_step = 1;
  last_goal = goal_of naturals (at 3);
  local_goal = goal_of naturals (at 9);
  published =
      follow (goal_of naturals (at 3)) speed (goal_of naturals (at 3)) (goal_of naturals (at 9))
        false 0
      ∷ [];
}

day_run : run_events naturals day new_planner ≡ some at_end
unfolding run_events
day_run = refl

run_events-IsSound_example :
    (p' : CarDwaPlanner naturals) × (run_events naturals day new_planner ≡ some p')
    × (p'.goal_update ≡ true → IsPointed naturals p')
run_events-IsSound_example =
    run_events-IsSound naturals day new_planner (refl, refl, refl, refl, refl, refl, refl, refl)
      (tt, (tt, (tt, (tt, (tt, (tt, tt))))))

abbrev commands : Option (CarDwaPlanner naturals) → ℕ
commands none = 0
commands (some p) = length p.published

round_moves : ¬ (plan_round naturals at_end ≡ some at_end)
unfolding plan_round
round_moves e = absurd (omega (arith, ap commands e))

plan_round-fresh_example : (n : ℕ) × (age naturals odom_topic day none ≡ some n) × (n ≤ cnt_max)
plan_round-fresh_example =
    plan_round-fresh naturals day new_planner at_end odom_topic
      (refl, refl, refl, refl, refl, refl, refl, refl) day_run round_moves

abbrev second_goal : Option (CarDwaPlanner naturals) → Option (Goal naturals)
second_goal none = none
second_goal (some p) = some p.local_goal

-- A second plan, which leads to 50, starts at the first point of the plan before it.
second_plan :
    second_goal (run_events naturals (goals (at 50 ∷ []) false ∷ []) at_end)
    ≡ some (goal_of naturals (at 3))
unfolding run_events
second_plan = refl
