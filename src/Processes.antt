-- ===== src/Processes.antt =====
-- The processes that a master starts: ProcessManager of src/Master/src/ProcessManager.cpp. A child is
-- whether it still runs, `started` are the paths in the order of their starts. What a start returns
-- is an argument, and an exception is `none`.
pub mod Signals
pub mod Tests
use mid_napi.Prelude.{
  ℕ, zero, suc, ◌+◌, Bool, true, false, not, ◌||◌, ◌&&◌, Option, none, some, ◌>>=◌, List, [], ◌∷◌,
  ◌++◌, Bytes, codes, set, if◌then◌else◌,
}

pub data Signal : Type 0 where
  sigint sigchld : Signal

pub record ProcessManager : Type 0 where
  pub execs : List Bytes
  pub processes : List Bool
  pub started : List Bytes
  -- Whether an async_wait on the signals is pending.
  pub waits : Bool
  pub exited : Bool

abbrev pub new_manager : ProcessManager
new_manager = record { execs = []; processes = []; started = []; waits = false; exited = false }

-- The loop of `run` over the entries of "launch", each with whether its child runs after the start.
unfoldable pub launch_each : Bytes → List (Bytes × Bool) → ProcessManager → Option ProcessManager
launch_each directory [] m = some m
launch_each directory ((name, runs) ∷ launch) m =
    let path = directory ++ codes "/" ++ name in
    let rest = launch_each directory launch in
    if not runs
    then none
    else rest (record m {
      execs = m.execs ++ path ∷ [];
      processes = m.processes ++ runs ∷ [];
      started = m.started ++ path ∷ [];
    })

unfoldable pub run_processes : Bytes → List (Bytes × Bool) → ProcessManager → Option ProcessManager
unfolding launch_each
run_processes directory launch m = do
  m' ← launch_each directory launch m
  some (record m' { waits = true })

-- The loop over the children at SIGCHLD: which of them run, and the paths that were started again.
-- `runs i` is whether the child at `i` runs after its start.
unfoldable pub restart_each :
    (ℕ → Bool) → ℕ → List Bytes → List Bool → Option (List Bool × List Bytes)
restart_each runs i execs [] = some ([], [])
restart_each runs i [] (p ∷ processes) = none
restart_each runs i (path ∷ execs) (p ∷ processes) =
    let rest = restart_each runs (i + 1) execs processes in
    if p
    then (do (after, started) ← rest; some (true ∷ after, started))
    else if not (runs i)
    then none
    else (do (after, started) ← rest; some (true ∷ after, path ∷ started))

-- The handler, which a pending async_wait calls once; it does not wait again. At SIGINT the children
-- are awaited before the exit.
unfoldable pub on_signal : Bool → Signal → (ℕ → Bool) → ProcessManager → Option ProcessManager
unfolding restart_each
on_signal failed sigint runs m = some (record m { waits = false; exited = true })
on_signal true sigchld runs m = some (record m { waits = false; exited = true })
on_signal false sigchld runs m = do
  (after, started) ← restart_each runs 0 m.execs m.processes
  some (record m { processes = after; started = m.started ++ started; waits = false })

pub data Event : Type 0 where
  -- The child at this index ends.
  ends : ℕ → Event
  -- A signal comes, with what the starts return.
  signals : Signal → (ℕ → Bool) → Event

-- A signal for which no async_wait is pending waits for the next one.
unfoldable pub step : Event → ProcessManager → Option ProcessManager
unfolding on_signal
step (ends i) m = some (record m { processes = set m.processes i false })
step (signals s runs) m =
    let handled = on_signal false s runs m in if m.waits then handled else some m

unfoldable pub run_events : List Event → ProcessManager → Option ProcessManager
unfolding step
run_events [] m = some m
run_events (e ∷ es) m = step e m >>= run_events es
