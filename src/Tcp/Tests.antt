-- ===== src/Tcp/Tests.antt =====
-- A connection that is set up, loses a write, and goes on.
use mid_napi.Prelude.{ℕ, ◌≡◌, refl, true, false, List, [], ◌∷◌, ◌++◌}
use mid_napi.Tcp.{
  new_interface, Call, runs, sends, connected, written, step, run_calls, do_connect, run_host,
  do_write, on_connect, send_request, on_write, write_next,
}
use mid_napi.Tcp.Order.{requests, run_calls_in_order}

abbrev day : List (Call ℕ)
day =
    runs
    ∷ sends 1
    ∷ sends 2
    ∷ connected true
    ∷ written false
    ∷ sends 3
    ∷ connected true
    ∷ written true
    ∷ []

run_calls_in_order_example :
    let s = run_calls day new_interface in
    requests s.finished ++ (s.in_flight ++ s.request_queue) ≡ 1 ∷ 2 ∷ 3 ∷ []
run_calls_in_order_example = run_calls_in_order day

-- The first request was lost with its write; the third is in flight.
lost_write : (run_calls day new_interface).finished ≡ (1, false) ∷ (2, true) ∷ []
unfolding run_calls step run_host do_connect do_write on_connect send_request on_write write_next
lost_write = refl
