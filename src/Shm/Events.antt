-- ===== src/Shm/Events.antt =====
-- Whatever happens to a MiddlewareManager of src/Master/src/MiddlewareManager.cpp, one thing after
-- another: its io_context runs every handler on one thread.
use mid_napi.Prelude.{
  ℕ, zero, suc, refl, inl, inr, Bool, true, false, Option, some, ◌>>=◌, List, [], ◌∷◌, Bytes, arith,
  lookup, bytes_eq, Option-cases, Holds, Holds-bind, Holds-then,
}
use mid_napi.Http.{HttpLibrary}
use mid_napi.Registry.Manager.{InterfaceManager, publish}
use mid_napi.Shm.{Endpoint, Endpoints, Node, queue_size, Channel, Master}
use mid_napi.Shm.Library.{SharedLibrary}
use mid_napi.Shm.Answers.{TextLibrary}
use mid_napi.Shm.Controllers.{RunResults}
use mid_napi.Shm.Router.{handle_local}
use mid_napi.Shm.Transfer.{
  publish_to_node, publish_to_each, transfer_message, transfer_each, read_eventfd, on_eventfd_read,
  transfer_inner_message,
}
use mid_napi.Shm.Agreement.{Agrees}
use mid_napi.Shm.WellFormed.{IsWellFormed, publishes_of, subscribes_of}
use mid_napi.Shm.Invariant.{handle_local-IsWellFormed}

module _ (http : HttpLibrary) (lib : SharedLibrary queue_size) (texts : TextLibrary) where
  open http use {Request}

  pub data Event : Type 0 where
    -- A local node sends a request.
    asks : RunResults http lib → Request → Event
    -- The read of a publisher's eventfd completes.
    reads : Endpoint → Bool → Event
    -- Another host sends a message.
    hears : Bytes → Bytes → Event

  unfoldable pub step : Event → Master lib Request → Option (Master lib Request)
  unfolding handle_local on_eventfd_read read_eventfd transfer_inner_message
  step (asks r req) m = do (response, m') ← handle_local http lib texts r req m; some m'
  step (reads p failed) m =
      let (count, m') = read_eventfd http lib p m in on_eventfd_read http lib failed count p m'
  step (hears topic message) m = some (transfer_inner_message http lib topic message m)

  unfoldable pub run_events : List Event → Master lib Request → Option (Master lib Request)
  unfolding step
  run_events [] m = some m
  run_events (e ∷ es) m = step e m >>= run_events es

  -- Before the first request.
  abbrev pub start : InterfaceManager Request → (ℕ → Channel lib) → Master lib Request
  start interface channels = record {
    nodes = [];
    publishes = [];
    subscribes = [];
    pub_channels = channels;
    sub_channels = channels;
    next_id = 0;
    reading = λ i. false;
    interface = interface;
  }

  publish_to_each-IsWellFormed :
      (ss : List Endpoint) (message : Bytes) (m : Master lib Request)
      → IsWellFormed http lib m
      → IsWellFormed http lib (publish_to_each http lib ss message m)
  unfolding publish_to_each publish_to_node
  publish_to_each-IsWellFormed [] message m w = w
  publish_to_each-IsWellFormed (s ∷ ss) message m w =
      publish_to_each-IsWellFormed ss message (publish_to_node http lib s message m)
        (record { names = w.names; pubs = w.pubs; subs = w.subs })

  transfer_inner_message-IsWellFormed :
      (topic message : Bytes) (m : Master lib Request)
      → IsWellFormed http lib m
      → IsWellFormed http lib (transfer_inner_message http lib topic message m)
  unfolding transfer_inner_message
  transfer_inner_message-IsWellFormed topic message m w =
      elim (Option-cases (lookup topic m.subscribes)) [
        | inl e ↦ rw (e, transfer_inner_message) w
        | inr (ss, e) ↦ rw (e, transfer_inner_message) (publish_to_each-IsWellFormed ss message m w)
      ]

  transfer_message-Holds :
      (topic message : Bytes) (m : Master lib Request)
      → IsWellFormed http lib m
      → Holds (IsWellFormed http lib) (transfer_message http lib topic message m)
  unfolding transfer_message
  transfer_message-Holds topic message m w =
      Holds-bind _ (publish http topic message m.interface) _ (λ i.
        let w' : IsWellFormed http lib (record m { interface = i }) = record {
          names = w.names;
          pubs = w.pubs;
          subs = w.subs;
        } in
        elim (Option-cases (lookup topic m.subscribes)) [
          | inl e ↦ rw e w'
          | inr (ss, e) ↦ rw e (publish_to_each-IsWellFormed ss message _ w')
        ])

  transfer_each-Holds :
      (n : ℕ) (p : Endpoint) (m : Master lib Request)
      → IsWellFormed http lib m
      → Holds (IsWellFormed http lib) (transfer_each http lib n p m)
  unfolding transfer_each
  transfer_each-Holds zero p m w = w
  transfer_each-Holds (suc n) p m w =
      Holds-then (IsWellFormed http lib) (IsWellFormed http lib)
        (transfer_message http lib p.topic _ _) (transfer_each http lib n p)
        (transfer_message-Holds p.topic _ _
          (record { names = w.names; pubs = w.pubs; subs = w.subs }))
        (λ m' w'. transfer_each-Holds n p m' w')

  on_eventfd_read-Holds :
      (failed : Bool) (n : ℕ) (p : Endpoint) (m : Master lib Request)
      → IsWellFormed http lib m
      → Holds (IsWellFormed http lib) (on_eventfd_read http lib failed n p m)
  unfolding on_eventfd_read
  on_eventfd_read-Holds true n p m w = record { names = w.names; pubs = w.pubs; subs = w.subs }
  on_eventfd_read-Holds false n p m w =
      Holds-then (IsWellFormed http lib) (IsWellFormed http lib) (transfer_each http lib n p m) _
        (transfer_each-Holds n p m w)
        (λ m' w'. record { names = w'.names; pubs = w'.pubs; subs = w'.subs })

  step-Holds :
      (e : Event) (m : Master lib Request)
      → IsWellFormed http lib m
      → Holds (IsWellFormed http lib) (step e m)
  unfolding step read_eventfd
  step-Holds (asks r req) m w =
      Holds-then (λ a. IsWellFormed http lib a.1) (IsWellFormed http lib)
        (handle_local http lib texts r req m) _ (handle_local-IsWellFormed http lib texts r req m w)
        (λ a w'. w')
  step-Holds (reads p failed) m w =
      on_eventfd_read-Holds failed _ p _ (record { names = w.names; pubs = w.pubs; subs = w.subs })
  step-Holds (hears topic message) m w = transfer_inner_message-IsWellFormed topic message m w

  pub start-IsWellFormed :
      (interface : InterfaceManager Request) (channels : ℕ → Channel lib)
      → IsWellFormed http lib (start interface channels)
  start-IsWellFormed interface channels = record {
    names = λ node n h. absurd (ground (arith, h));
    pubs = nothing_agrees publishes_of;
    subs = nothing_agrees subscribes_of;
  }
    where
      nothing_agrees : (kind : Node → Endpoints) → Agrees kind [] [] 0
      nothing_agrees kind = record {
        matches = λ node topic i. refl;
        distinct = λ topic. tt;
        fresh = λ topic i h. absurd (ground (arith, h));
      }

  run_from-Holds :
      (es : List Event) (m : Master lib Request)
      → IsWellFormed http lib m
      → Holds (IsWellFormed http lib) (run_events es m)
  unfolding run_events
  run_from-Holds [] m w = w
  run_from-Holds (e ∷ es) m w =
      Holds-then (IsWellFormed http lib) (IsWellFormed http lib) (step e m) (run_events es)
        (step-Holds e m w) (run_from-Holds es)

  -- In every execution from the start that does not end in a null pointer or an exception: under each
  -- topic stand just the publishers and the subscribers that the nodes have for it, none is entered
  -- twice, and each node stands under its own name.
  pub run_events-IsWellFormed :
      (es : List Event) (interface : InterfaceManager Request) (channels : ℕ → Channel lib)
      → Holds (IsWellFormed http lib) (run_events es (start interface channels))
  run_events-IsWellFormed es interface channels =
      run_from-Holds es (start interface channels) (start-IsWellFormed interface channels)
