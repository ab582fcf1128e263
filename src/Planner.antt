-- ===== src/Planner.antt =====
-- The local planner of a car: BaseDwaPlanner and CarDwaPlanner of src/LocalPlanner/src/base and
-- src/LocalPlanner/src/car, their watch over the messages they need and their way from point to point.
-- Floating-point numbers are a parameter. A null pointer that is dereferenced, and an index out of
-- bounds, is `none`. The search for a trajectory (raycast, BaseGeneratePath) is not modelled: a round
-- of the loop records what it asks for. Callbacks, timer and loop share the state without a lock;
-- here each call, and each round of the loop, is one step.
pub mod Events
pub mod Watchdog
pub mod Waypoints
pub mod Tests
use mid_napi.Prelude.{
  ℕ, zero, suc, ◌+◌, ◌-◌, ◌^◌, Bool, true, false, ◌&&◌, ◌||◌, Option, none, some, ◌>>=◌, List, [],
  ◌∷◌, ◌++◌, length, get_elem?, ltb, leb, ◌==◌, if◌then◌else◌,
}

pub record FloatLibrary : Type 1 where
  pub Double : Type 0
  -- A literal, as a whole number and how many of its digits stand behind the point.
  pub literal : ℕ → ℕ → Double
  pub of_uint32 : ℕ → Double
  -- The conversion to float and back.
  pub to_float : Double → Double
  pub negate : Double → Double
  pub plus : Double → Double → Double
  pub minus : Double → Double → Double
  pub times : Double → Double → Double
  pub divide : Double → Double → Double
  pub abs : Double → Double
  pub hypot : Double → Double → Double
  pub atan2 : Double → Double → Double
  pub less : Double → Double → Bool
  pub at_most : Double → Double → Bool

-- One of the flags `..._update_` with its entry of `watch_cnt`.
pub record Watch : Type 0 where
  pub update : Bool
  pub count : ℕ

abbrev pub cnt_max : ℕ
cnt_max = 20

-- A turn of both loops of `on_timer` for one flag.
unfoldable pub watch_tick : Watch → Watch
watch_tick w = record {
  update = ltb w.count cnt_max;
  count = if ltb 1000000 (w.count + 1) then cnt_max + 1 else w.count + 1;
}

-- A message sets `watch_cnt` to 0.
unfoldable pub fed : Watch → Watch
fed w = record w { count = 0 }

module _ (lib : FloatLibrary) where
  open lib use {
    Double, literal, of_uint32, to_float, negate, plus, minus, times, divide, abs, hypot, atan2,
    less, at_most,
  }

  pub record Quaternion : Type 0 where
    pub x : Double
    pub y : Double
    pub z : Double
    pub w : Double

  -- The height is not read.
  pub record Pose : Type 0 where
    pub x : Double
    pub y : Double
    pub orientation : Quaternion

  -- What is read of it.
  pub record Odometry : Type 0 where
    pub linear_x : Double
    pub angular_z : Double

  -- The size of the map; its cells are read by `raycast` only.
  pub record OccupancyGrid : Type 0 where
    pub width : ℕ
    pub height : ℕ
    pub resolution : Double

  -- An `Eigen::Vector3d` with a place and a direction.
  pub record Goal : Type 0 where
    pub x : Double
    pub y : Double
    pub yaw : Double

  -- What is published on `cmd_vel`: a halt, or the first step of the trajectory that is generated from
  -- this place and this speed, these goals, `allow_back_` and `max_vel_from_global_`.
  pub data Command : Type 0 where
    halt : Command
    follow : Goal → Odometry → Goal → Goal → Bool → Double → Command

  pub record CarDwaPlanner : Type 0 where
    pub goal_tolerance : Double
    pub allow_back : Bool
    pub max_vel_from_global : Double
    pub points : List Pose
    pub current_pose : Pose
    pub odom : Odometry
    -- A null pointer before the first map.
    pub costmap : Option OccupancyGrid
    pub odom_watch : Watch
    pub pose_watch : Watch
    pub map_watch : Watch
    pub goal_update : Bool
    pub current_step : ℕ
    pub last_goal : Goal
    pub local_goal : Goal
    -- Oldest first.
    pub published : List Command

  unfoldable pub get_yaw : Quaternion → Double
  get_yaw q =
      let sqx = times q.x q.x in
      let sqy = times q.y q.y in
      let sqz = times q.z q.z in
      let sqw = times q.w q.w in
      let two = literal 2 0 in
      let sarg =
        divide (times (negate two) (minus (times q.x q.z) (times q.w q.y)))
          (plus (plus (plus sqx sqy) sqz) sqw) in
      if at_most sarg (negate (literal 99999 5))
      then times (negate two) (atan2 q.y q.x)
      else if at_most (literal 99999 5) sarg
      then times two (atan2 q.y q.x)
      else atan2 (times two (plus (times q.x q.y) (times q.w q.z)))
          (minus (minus (plus sqw sqx) sqy) sqz)

  unfoldable pub goal_of : Pose → Goal
  unfolding get_yaw
  goal_of q = record { x = q.x; y = q.y; yaw = get_yaw q.orientation }

  unfoldable pub odom_callback : Odometry → CarDwaPlanner → CarDwaPlanner
  unfolding fed
  odom_callback odom p = record p { odom = odom; odom_watch = fed p.odom_watch }

  unfoldable pub pose_callback : Pose → CarDwaPlanner → CarDwaPlanner
  unfolding fed
  pose_callback pose p = record p { current_pose = pose; pose_watch = fed p.pose_watch }

  unfoldable pub map_callback : OccupancyGrid → CarDwaPlanner → CarDwaPlanner
  unfolding fed
  map_callback msg p = record p { costmap = some msg; map_watch = fed p.map_watch }

  unfoldable pub max_vel_callback : Double → CarDwaPlanner → CarDwaPlanner
  max_vel_callback v p = record p { max_vel_from_global = v }

  unfoldable pub replan_callback : CarDwaPlanner → CarDwaPlanner
  replan_callback p = record p { published = p.published ++ halt ∷ []; goal_update = false }

  -- The points of an earlier plan stay in front.
  unfoldable pub goal_callback : List Pose → Bool → CarDwaPlanner → Option CarDwaPlanner
  unfolding goal_of
  goal_callback poses back_up p =
      let p' = record p { points = p.points ++ poses; allow_back = back_up } in
      if p.pose_watch.update
      then (do
        first ← get_elem? p'.points 0
        some (record p' {
          current_step = 0;
          last_goal = goal_of p.current_pose;
          local_goal = goal_of first;
          goal_update = true;
        }))
      else some p'

  unfoldable pub on_timer : CarDwaPlanner → CarDwaPlanner
  unfolding watch_tick
  on_timer p = record p {
    odom_watch = watch_tick p.odom_watch;
    pose_watch = watch_tick p.pose_watch;
    map_watch = watch_tick p.map_watch;
  }

  -- Whether a point is outside of the map around the car.
  unfoldable pub is_outside : OccupancyGrid → Pose → Pose → Bool
  is_outside info at q =
      let half = literal 5 1 in
      let semi_costmap_width =
        to_float (times (times half (of_uint32 info.width)) info.resolution) in
      let semi_costmap_height =
        to_float (times (times half (of_uint32 info.height)) info.resolution) in
      less semi_costmap_height (abs (minus at.x q.x))
      || less semi_costmap_width (abs (minus at.y q.y))

  -- The loop of `getLocalGoal`, with the turns that are left: the index where it ends.
  unfoldable pub look_ahead : ℕ → ℕ → OccupancyGrid → Pose → List Pose → Option ℕ
  unfolding is_outside
  look_ahead zero i info at points = some i
  look_ahead (suc n) i info at points =
      let rest = look_ahead n (suc i) info at points in
      do q ← get_elem? points i; if is_outside info at q then some i else rest

  -- The end of `getLocalGoal`, where `current_step_` gets a new value.
  unfoldable pub go_to : ℕ → CarDwaPlanner → Option CarDwaPlanner
  unfolding goal_of
  go_to step p =
      let arrived = (do
        q ← get_elem? p.points step
        some (record p {
          current_step = step;
          last_goal = goal_of p.current_pose;
          local_goal = goal_of q;
        })) in
      if step == length p.points then some (record p { current_step = step }) else arrived

  -- CarDwaPlanner::getLocalGoal; no caller looks at its result.
  unfoldable pub get_local_goal : CarDwaPlanner → Option CarDwaPlanner
  unfolding look_ahead go_to
  get_local_goal p =
      let size = length p.points in
      let forward = if ltb size (p.current_step + 3) then size else p.current_step + 3 in
      let moved = (do
        info ← p.costmap
        i ← look_ahead (forward - p.current_step) p.current_step info p.current_pose p.points
        go_to (if i == forward then i - 1 else i) p) in
      if p.current_step == size then some p else moved

  unfoldable pub distance_to_goal : CarDwaPlanner → Double
  distance_to_goal p =
      hypot (minus p.local_goal.x p.current_pose.x) (minus p.local_goal.y p.current_pose.y)

  -- `points_.size() - 1`, a size_t.
  abbrev pub last_index : List Pose → ℕ
  last_index [] = 2 ^ 64 - 1
  last_index (q ∷ qs) = length qs

  abbrev pub is_close : CarDwaPlanner → Bool
  is_close p = less (distance_to_goal p) (times (literal 15 1) p.goal_tolerance)

  unfoldable pub goal_reached : CarDwaPlanner → Option (Bool × CarDwaPlanner)
  unfolding distance_to_goal get_local_goal
  goal_reached p =
      let next = get_local_goal (record p { goal_update = false }) in
      if leb (last_index p.points) p.current_step
      then some (less (distance_to_goal p) p.goal_tolerance, p)
      else if is_close p
      then (do p' ← next; some (false, record p' { goal_update = true }))
      else some (false, p)

  -- A round of `plan` after `goalReached`.
  unfoldable pub conclude : Bool → CarDwaPlanner → CarDwaPlanner
  unfolding goal_of
  conclude true p = record p { published = p.published ++ halt ∷ []; goal_update = false }
  conclude false p = record p {
    published =
        p.published
        ++ follow (goal_of p.current_pose) p.odom p.last_goal p.local_goal p.allow_back
            p.max_vel_from_global
          ∷ [];
  }

  abbrev pub is_ready : CarDwaPlanner → Bool
  is_ready p = p.goal_update && p.odom_watch.update && p.pose_watch.update && p.map_watch.update

  -- A round of the loop of `plan`.
  unfoldable pub plan_round : CarDwaPlanner → Option CarDwaPlanner
  unfolding goal_reached conclude
  plan_round p =
      let done = (do (reached, p') ← goal_reached p; some (conclude reached p')) in
      if is_ready p then done else some p
