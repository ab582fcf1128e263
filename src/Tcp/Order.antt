-- ===== src/Tcp/Order.antt =====
-- What becomes of the requests of a connection: src/Master/src/tcp/TcpHostInterface.cpp.
use mid_napi.Prelude.{
  ◌≡◌, refl, sym, ap, ◌∙◌, inl, inr, Bool, true, false, not, List, [], ◌∷◌, ◌++◌, arith,
  append_assoc, append-nil, Bool-cases, if_either,
}
use mid_napi.Tcp.{
  TcpHostInterface, new_interface, do_connect, run_host, write_next, do_write, on_connect,
  send_request, finish, on_write, on_timeout, on_reconnect_timeout, Call, runs, sends, connected,
  written, times_out, reconnects, step, run_calls,
}

abbrev pub requests : {Request : Type 0} → List (Request × Bool) → List Request
requests [] = []
requests ((r, ok) ∷ rs) = r ∷ requests rs

-- All requests that were taken and are still known: ended, in flight, waiting.
abbrev pub history : {Request : Type 0} → TcpHostInterface Request → List Request
history s = requests s.finished ++ (s.in_flight ++ s.request_queue)

-- The requests that are handed over.
abbrev pub taken_by : {Request : Type 0} → Call Request → List Request
taken_by (sends req) = req ∷ []
taken_by _ = []

abbrev pub taken : {Request : Type 0} → List (Call Request) → List Request
taken [] = []
taken (c ∷ cs) = taken_by c ++ taken cs

-- A ready interface writes nothing.
abbrev pub IsIdle : {Request : Type 0} → TcpHostInterface Request → Type 0
IsIdle s = s.is_ready ≡ true → s.in_flight ≡ []

module _ {Request : Type 0} where
  requests-append :
      (xs ys : List (Request × Bool)) → requests (xs ++ ys) ≡ requests xs ++ requests ys
  requests-append [] ys = refl
  requests-append ((r, ok) ∷ xs) ys = ap (◌∷◌ r) (requests-append xs ys)

  requests-finish : (rs : List Request) (ok : Bool) → requests (finish rs ok) ≡ rs
  requests-finish [] ok = refl
  requests-finish (r ∷ rs) ok = ap (◌∷◌ r) (requests-finish rs ok)

  do_connect-history : (s : TcpHostInterface Request) → history (do_connect s) ≡ history s
  unfolding do_connect
  do_connect-history s = ground arith

  write_next-history :
      (q : List Request) (s : TcpHostInterface Request)
      → s.request_queue ≡ q
      → s.in_flight ≡ []
      → history (write_next q s) ≡ history s
  unfolding write_next
  write_next-history [] s e f = refl
  write_next-history (r ∷ rs) s e f = rw (e, f) refl

  write_next-IsIdle :
      (q : List Request) (s : TcpHostInterface Request) → IsIdle s → IsIdle (write_next q s)
  unfolding write_next
  write_next-IsIdle [] s i = i
  write_next-IsIdle (r ∷ rs) s i = λ e. cc

  do_write-history : (s : TcpHostInterface Request) → IsIdle s → history (do_write s) ≡ history s
  unfolding do_write
  do_write-history s i = elim (Bool-cases s.is_ready) [
    | inl ready ↦ elim (Bool-cases s.is_connected) [
      | inl up ↦ simp (ready, up) (write_next-history s.request_queue s refl (i ready))
      | inr down ↦ simp (ready, down) refl
    ]
    | inr busy ↦ simp busy refl
  ]

  queued-history :
      (req : Request) (s : TcpHostInterface Request)
      → history (record s { request_queue = s.request_queue ++ req ∷ [] }) ≡ history s ++ req ∷ []
  queued-history req s = simp append_assoc

  ended-history :
      (ok : Bool) (s : TcpHostInterface Request)
      → history (record s {
        is_ready = true;
        in_flight = [];
        finished = s.finished ++ finish s.in_flight ok;
      })
        ≡ history s
  ended-history ok s = rw (
    requests-append s.finished (finish s.in_flight ok),
    requests-finish s.in_flight ok,
    append_assoc,
  )

  step-history :
      (c : Call Request) (s : TcpHostInterface Request)
      → IsIdle s
      → history (step c s) ≡ history s ++ taken_by c
  unfolding step run_host on_connect send_request on_write on_timeout on_reconnect_timeout
  step-history runs s i = do_connect-history s ∙ sym (append-nil (history s))
  step-history (sends req) s i =
      let queued = record s { request_queue = s.request_queue ++ req ∷ [] } in
      if_either (λ z. history z ≡ history s ++ req ∷ []) (not s.is_connected) (do_connect queued)
        (do_write queued) (do_connect-history queued ∙ queued-history req s)
        (do_write-history queued i ∙ queued-history req s)
  step-history (connected true) s i =
      do_write-history (record s { is_connecting = false; is_connected = true }) i
      ∙ sym (append-nil (history s))
  step-history (connected false) s i = sym (append-nil (history s))
  step-history (written true) s i =
      do_write-history _ (λ r. refl) ∙ ended-history true s ∙ sym (append-nil (history s))
  step-history (written false) s i =
      do_connect-history _ ∙ ended-history false s ∙ sym (append-nil (history s))
  step-history (times_out true) s i = sym (append-nil (history s))
  step-history (times_out false) s i = sym (append-nil (history s))
  step-history (reconnects true) s i =
      if_either (λ z. history z ≡ history s) (not s.is_connected) (do_connect s) s
        (do_connect-history s) refl
      ∙ sym (append-nil (history s))
  step-history (reconnects false) s i = sym (append-nil (history s))

  do_write-IsIdle : (s : TcpHostInterface Request) → IsIdle s → IsIdle (do_write s)
  unfolding do_write write_next
  do_write-IsIdle s i = elim (Bool-cases s.is_ready) [
    | inl ready ↦ elim (Bool-cases s.is_connected) [
      | inl up ↦ simp (ready, up) (write_next-IsIdle s.request_queue s i)
      | inr down ↦ simp (ready, down) (λ r. i ready)
    ]
    | inr busy ↦ simp busy (λ r. cc)
  ]

  do_connect-IsIdle : (s : TcpHostInterface Request) → IsIdle s → IsIdle (do_connect s)
  unfolding do_connect
  do_connect-IsIdle s i = ground arith

  step-IsIdle : (c : Call Request) (s : TcpHostInterface Request) → IsIdle s → IsIdle (step c s)
  unfolding step run_host on_connect send_request on_write on_timeout on_reconnect_timeout
  step-IsIdle runs s i = do_connect-IsIdle s i
  step-IsIdle (sends req) s i =
      let queued = record s { request_queue = s.request_queue ++ req ∷ [] } in
      if_either IsIdle (not s.is_connected) (do_connect queued) (do_write queued)
        (do_connect-IsIdle queued i) (do_write-IsIdle queued i)
  step-IsIdle (connected true) s i =
      do_write-IsIdle (record s { is_connecting = false; is_connected = true }) i
  step-IsIdle (connected false) s i = i
  step-IsIdle (written true) s i = do_write-IsIdle _ (λ r. refl)
  step-IsIdle (written false) s i = do_connect-IsIdle _ (λ r. refl)
  step-IsIdle (times_out true) s i = i
  step-IsIdle (times_out false) s i = i
  step-IsIdle (reconnects true) s i =
      if_either IsIdle (not s.is_connected) (do_connect s) s (do_connect-IsIdle s i) i
  step-IsIdle (reconnects false) s i = i

  run_calls-history :
      (cs : List (Call Request)) (s : TcpHostInterface Request)
      → IsIdle s
      → history (run_calls cs s) ≡ history s ++ taken cs
  unfolding run_calls
  run_calls-history [] s i = sym (append-nil (history s))
  run_calls-history (c ∷ cs) s i =
      run_calls-history cs (step c s) (step-IsIdle c s i)
      ∙ ap (λ h. h ++ taken cs) (step-history c s i)
      ∙ append_assoc (history s) (taken_by c) (taken cs)

  -- In every execution from the start, the requests whose write has ended, the one in flight and
  -- those that wait are, in this order, just the requests that were taken for sending: none is
  -- lost, doubled or overtaken, though a write may have ended with an error.
  pub run_calls_in_order :
      (cs : List (Call Request))
      → let s = run_calls cs new_interface in
        requests s.finished ++ (s.in_flight ++ s.request_queue) ≡ taken cs
  run_calls_in_order cs = run_calls-history cs new_interface (λ r. refl)
