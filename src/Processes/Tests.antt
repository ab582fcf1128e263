-- ===== src/Processes/Tests.antt =====
-- Two children, of which the second has ended.
use mid_napi.Prelude.{ℕ, ◌≡◌, refl, Bool, true, false, some, List, [], ◌∷◌, codes}
use mid_napi.Processes.{
  sigint, sigchld, ProcessManager, new_manager, run_processes, Event, ends, signals, run_events,
}
use mid_napi.Processes.Signals.{restarts_once}

abbrev one_down : ProcessManager
one_down = record {
  execs = codes "/a" ∷ codes "/b" ∷ [];
  processes = true ∷ false ∷ [];
  started = codes "/a" ∷ codes "/b" ∷ [];
  waits = true;
  exited = false;
}

abbrev always : ℕ → Bool
always i = true

-- The first child ends as well, and then the master is interrupted.
abbrev later : List Event
later = ends 0 ∷ signals sigchld always ∷ signals sigint always ∷ []

restarts_once_example :
    run_events (signals sigchld always ∷ later) one_down
    ≡ some (record one_down {
      processes = false ∷ true ∷ [];
      started = codes "/a" ∷ codes "/b" ∷ codes "/b" ∷ [];
      waits = false;
    })
restarts_once_example = restarts_once always later one_down refl (λ j. refl) refl

run_processes-new_manager :
    run_processes (codes "/opt") ((codes "a", true) ∷ []) new_manager
    ≡ some (record {
      execs = codes "/opt/a" ∷ [];
      processes = true ∷ [];
      started = codes "/opt/a" ∷ [];
      waits = true;
      exited = false;
    })
unfolding run_processes
run_processes-new_manager = refl
