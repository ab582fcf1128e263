-- ===== src/Shm/Controllers.antt =====
-- What the requests of the local nodes change: addNode, addPublish, addSubscrie and handleDelete of
-- NodeController.cpp, NodePubController.cpp and NodeSubController.cpp in
-- src/Master/src/shm/controller, and Publish::run and Subscribe::run. A step that dereferences a
-- null pointer is `none`.
use mid_napi.Prelude.{
  ℕ, ◌+◌, Bool, true, false, Option, none, some, ◌>>=◌, List, [], ◌∷◌, Bytes, lookup, insert, erase,
  ◌==◌, bytes_eq, if◌then◌else◌,
}
use mid_napi.Http.{HttpLibrary}
use mid_napi.Registry.Manager.{announce_node, announce_deleted_node, announce_sub, announce_pub}
use mid_napi.Shm.{
  ℤ, Endpoint, Node, queue_size, new_node, contains_publish, contains_subscribe, add_publish,
  add_subscribe, remove_all_publish, remove_all_subscribe, endpoints_of, enter, at_id, Channel,
  Master,
}
use mid_napi.Shm.Library.{SharedLibrary}

-- `std::remove` of a pointer.
abbrev pub without : ℕ → List Endpoint → List Endpoint
without i [] = []
without i (e ∷ es) = if e.id == i then without i es else e ∷ without i es

abbrev pub put_endpoints :
    Bytes → List Endpoint → List (Bytes × List Endpoint) → List (Bytes × List Endpoint)
put_endpoints topic [] table = erase topic table
put_endpoints topic (e ∷ es) table = insert topic (e ∷ es) table

-- The loop body of `handleDelete`: a topic that has no object left is erased.
unfoldable pub leave : Endpoint → List (Bytes × List Endpoint) → List (Bytes × List Endpoint)
leave e table = put_endpoints e.topic (without e.id (endpoints_of e.topic table)) table

unfoldable pub leave_each :
    List Endpoint → List (Bytes × List Endpoint) → List (Bytes × List Endpoint)
unfolding leave
leave_each [] table = table
leave_each (e ∷ es) table = leave_each es (leave e table)

abbrev pub cancel_each : List Endpoint → (ℕ → Bool) → ℕ → Bool
cancel_each [] reading = reading
cancel_each (p ∷ ps) reading = cancel_each ps (at_id p.id false reading)

module _ (http : HttpLibrary) (lib : SharedLibrary queue_size) where
  open http use {Request}
  open lib use {new_queue, Eventfd}

  -- What the system calls of `run` return: pidfd_open, pidfd_getfd, and whether the shared memory
  -- is created.
  pub record RunResults : Type 0 where
    pub pidfd_opened : Bool
    pub eventfd : Option Eventfd
    pub memory_created : Bool

  unfoldable pub run_endpoint : RunResults → Option (Channel lib)
  run_endpoint r =
      if r.pidfd_opened
      then (elim r.eventfd [
        | none ↦ none
        | some fd ↦
            if r.memory_created then some (record { queue = new_queue; eventfd = fd }) else none
      ])
      else none

  -- NodeController::addNode
  unfoldable pub add_local_node :
      Bytes → ℤ → Master lib Request → Option (Bool × Master lib Request)
  unfolding announce_node
  add_local_node node pid m = elim (lookup node m.nodes) [
    | some there ↦ some (false, m)
    | none ↦ do
      interface ← announce_node http node m.interface
      some (
        true,
        record m { nodes = insert node (some (new_node node pid)) m.nodes; interface = interface },
      )
  ]

  abbrev pub new_endpoint : Bytes → Bytes → Node → Master lib Request → Endpoint
  new_endpoint topic type n m = record {
    id = m.next_id;
    topic = topic;
    node_name = n.name;
    type = type;
  }

  -- The state after a Publish was entered for its node and its topic.
  unfoldable pub with_publish :
      Bytes → Node → Endpoint → Channel lib → Master lib Request → Master lib Request
  with_publish node n p ch m = record m {
    nodes = insert node (some (add_publish p n)) m.nodes;
    publishes = enter p m.publishes;
    pub_channels = at_id p.id ch m.pub_channels;
    reading = at_id p.id true m.reading;
    next_id = m.next_id + 1;
  }

  unfoldable pub with_subscribe :
      Bytes → Node → Endpoint → Channel lib → Master lib Request → Master lib Request
  with_subscribe node n s ch m = record m {
    nodes = insert node (some (add_subscribe s n)) m.nodes;
    subscribes = enter s m.subscribes;
    sub_channels = at_id s.id ch m.sub_channels;
    next_id = m.next_id + 1;
  }

  -- NodePubController::addPublish
  unfoldable pub add_local_pub :
      RunResults → Bytes → Bytes → Bytes → Master lib Request → Option (Bool × Master lib Request)
  unfolding contains_publish run_endpoint announce_pub
  add_local_pub r node topic type m = elim (lookup node m.nodes) [
    | none ↦ some (false, m)
    | some none ↦ none
    | some (some n) ↦ if contains_publish topic n then some (false, m) else elim (run_endpoint r) [
      | none ↦ some (false, m)
      | some ch ↦ do
        interface ← announce_pub http node topic type m.interface
        some (
          true,
          record (with_publish node n (new_endpoint topic type n m) ch m) { interface = interface },
        )
    ]
  ]

  -- NodeSubController::addSubscrie
  unfoldable pub add_local_sub :
      RunResults → Bytes → Bytes → Bytes → Master lib Request → Option (Bool × Master lib Request)
  unfolding contains_subscribe run_endpoint announce_sub
  add_local_sub r node topic type m = elim (lookup node m.nodes) [
    | none ↦ some (false, m)
    | some none ↦ none
    | some (some n) ↦
        if contains_subscribe topic n then some (false, m) else elim (run_endpoint r) [
          | none ↦ some (false, m)
          | some ch ↦ do
            interface ← announce_sub http node topic type m.interface
            some (
              true,
              record (with_subscribe node n (new_endpoint topic type n m) ch m) {
                interface = interface;
              },
            )
        ]
  ]

  -- The state of NodeController::handleDelete before the other hosts are told.
  unfoldable pub without_node : Bytes → Node → Master lib Request → Master lib Request
  unfolding leave_each remove_all_publish remove_all_subscribe
  without_node node n m =
      let (n1, subs) = remove_all_subscribe n in
      let (n2, pubs) = remove_all_publish n1 in
      record m {
        nodes = erase node m.nodes;
        subscribes = leave_each subs m.subscribes;
        publishes = leave_each pubs m.publishes;
        reading = cancel_each pubs m.reading;
      }

  -- A node that is not known gets a null pointer as its entry.
  unfoldable pub delete_local_node : Bytes → Master lib Request → Option (Bool × Master lib Request)
  unfolding announce_deleted_node
  delete_local_node node m = elim (lookup node m.nodes) [
    | none ↦ some (false, record m { nodes = insert node none m.nodes })
    | some none ↦ some (false, m)
    | some (some n) ↦ do
      interface ← announce_deleted_node http node m.interface
      some (true, record (without_node node n m) { interface = interface })
  ]
