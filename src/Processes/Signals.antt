-- ===== src/Processes/Signals.antt =====
-- What the signals do: ProcessManager::onSignal of src/Master/src/ProcessManager.cpp.
use mid_napi.Prelude.{
  ℕ, ◌+◌, ◌≡◌, refl, ap, ◌∙◌, Bool, true, false, some, ◌>>=◌, List, [], ◌∷◌, ◌++◌, Bytes, arith,
  length, set, replicate, if◌then◌else◌,
}
use mid_napi.Processes.{
  sigchld, ProcessManager, restart_each, on_signal, Event, ends, signals, step, run_events,
}

-- The children after some events, if nothing starts them again.
abbrev pub after_ends : List Event → List Bool → List Bool
after_ends [] processes = processes
after_ends (ends i ∷ es) processes = after_ends es (set processes i false)
after_ends (signals s runs ∷ es) processes = after_ends es processes

-- The paths of the children that do not run.
abbrev pub ended_paths : List Bytes → List Bool → List Bytes
ended_paths [] processes = []
ended_paths (path ∷ execs) [] = []
ended_paths (path ∷ execs) (p ∷ processes) =
    if p then ended_paths execs processes else path ∷ ended_paths execs processes

restart_each-all :
    (runs : ℕ → Bool) (i : ℕ) (execs : List Bytes) (processes : List Bool)
    → ((j : ℕ) → runs j ≡ true)
    → length execs ≡ length processes
    → restart_each runs i execs processes
      ≡ some (replicate (length processes) true, ended_paths execs processes)
unfolding restart_each
restart_each-all runs i [] [] all e = refl
restart_each-all runs i [] (p ∷ ps) all e = absurd (omega (arith, e))
restart_each-all runs i (x ∷ xs) [] all e = absurd (omega (arith, e))
restart_each-all runs i (x ∷ xs) (true ∷ ps) all e =
    rw (restart_each-all runs (i + 1) xs ps all (omega (arith, e))) refl
restart_each-all runs i (x ∷ xs) (false ∷ ps) all e =
    rw (all i, restart_each-all runs (i + 1) xs ps all (omega (arith, e))) refl

run_events-unheard :
    (es : List Event) (m : ProcessManager)
    → m.waits ≡ false
    → run_events es m ≡ some (record m { processes = after_ends es m.processes })
unfolding run_events step
run_events-unheard [] m h = refl
run_events-unheard (ends i ∷ es) m h =
    run_events-unheard es (record m { processes = set m.processes i false }) h
run_events-unheard (signals s runs ∷ es) m h =
    ap (λ b. (if b then on_signal false s runs m else some m) >>= run_events es) h
    ∙ run_events-unheard es m h

-- When a child has ended and its signal is handled, and every start succeeds, all children run again,
-- and just those that had ended were started, in order; but the handler is not called any more:
-- whatever happens then, a child that ends stays down, and SIGINT does not end the master.
pub restarts_once :
    (runs : ℕ → Bool) (es : List Event) (m : ProcessManager)
    → m.waits ≡ true
    → ((j : ℕ) → runs j ≡ true)
    → length m.execs ≡ length m.processes
    → run_events (signals sigchld runs ∷ es) m
      ≡ some (record m {
        processes = after_ends es (replicate (length m.processes) true);
        started = m.started ++ ended_paths m.execs m.processes;
        waits = false;
      })
unfolding run_events step on_signal
restarts_once runs es m w all e =
    rw (w, restart_each-all runs 0 m.execs m.processes all e)
      (run_events-unheard es
        (record m {
          processes = replicate (length m.processes) true;
          started = m.started ++ ended_paths m.execs m.processes;
          waits = false;
        })
        refl)
