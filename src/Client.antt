-- ===== src/Client.antt =====
-- The library of a local node: Node, NodeImpl, Publisher and Subscriber of src/Node. A message is the
-- bytes that protobuf writes and reads. What the operating system and the connection answer are
-- arguments: an operation that throws an exception is `none`.

pub mod Fifo
pub mod Calls
pub mod Requests
pub mod Tests
use mid_napi.Prelude.{
  ℕ, zero, suc, ◌-◌, Bool, true, false, not, ◌&&◌, Option, none, some, ◌>>=◌, List, [], ◌∷◌, Bytes,
  codes, lookup, insert, ◌==◌, bytes_eq, if◌then◌else◌,
}
use mid_napi.Http.{Verb, post, delete, HttpLibrary}
use mid_napi.Registry.Manager.{new_request}
use mid_napi.Shm.{queue_size, has_entry, Channel}
use mid_napi.Shm.Library.{SharedLibrary}
use mid_napi.Shm.Router.{Status, ok, bad_request, not_found}

-- What one exchange with the master returns: connect, write, and the status that is read.
pub record Exchange : Type 0 where
  pub connected : Bool
  pub written : Bool
  pub response : Option Status

-- What `run` of a Publisher or a Subscriber meets: also eventfd, the opening of the shared memory,
-- and whether it holds the queue.
pub record RunOutcome : Type 0 where
  pub eventfd_created : Bool
  pub exchange : Exchange
  pub memory_opened : Bool
  pub queue_found : Bool

abbrev pub is_bad_request : Status → Bool
is_bad_request ok = false
is_bad_request bad_request = true
is_bad_request not_found = false

-- The part that all three `run` share. Only one status counts as an error.
unfoldable pub accepted : Exchange → Bool
accepted x =
    if not x.connected
    then false
    else if not x.written
    then false
    else elim x.response [ none ↦ false | some status ↦ not (is_bad_request status) ]

-- Publisher::run and Subscriber::run
unfoldable pub run_client : RunOutcome → Bool
unfolding accepted
run_client x =
    if not x.eventfd_created
    then false
    else if not (accepted x.exchange)
    then false
    else if not x.memory_opened
    then false
    else x.queue_found

-- A Publisher or a Subscriber.
pub record Peer : Type 0 where
  pub topic_name : Bytes
  pub type : Bytes

pub record NodeImpl : Type 0 where
  pub name : Bytes
  pub publishes : List (Bytes × Peer)
  pub subscribes : List (Bytes × Peer)

-- NodeImpl::run of a new node.
unfoldable pub run_node : Bytes → Exchange → Option NodeImpl
unfolding accepted
run_node name x =
    if accepted x then some (record { name = name; publishes = []; subscribes = [] }) else none

-- `m[topic]`; a missing entry becomes a null pointer, which no caller reaches.
abbrev pub contains_publisher : Bytes → NodeImpl → Bool
contains_publisher topic n = has_entry (lookup topic n.publishes)

abbrev pub contains_subscriber : Bytes → NodeImpl → Bool
contains_subscriber topic n = has_entry (lookup topic n.subscribes)

abbrev pub add_publisher : Bytes → Peer → NodeImpl → NodeImpl
add_publisher topic p n = record n { publishes = insert topic p n.publishes }

abbrev pub add_subscriber : Bytes → Peer → NodeImpl → NodeImpl
add_subscriber topic s n = record n { subscribes = insert topic s n.subscribes }

abbrev pub new_peer : Bytes → Bytes → Peer
new_peer topic type = record { topic_name = topic; type = type }

-- Node::createPublisher: a second call for a topic returns the first one's object.
unfoldable pub create_publisher : Bytes → Bytes → RunOutcome → NodeImpl → Option (Peer × NodeImpl)
unfolding run_client
create_publisher topic type x n = elim (lookup topic n.publishes) [
  | some there ↦ some (there, n)
  | none ↦
      if not (run_client x)
      then none
      else some (new_peer topic type, add_publisher topic (new_peer topic type) n)
]

unfoldable pub create_subscriber : Bytes → Bytes → RunOutcome → NodeImpl → Option (Peer × NodeImpl)
unfolding run_client
create_subscriber topic type x n = elim (lookup topic n.subscribes) [
  | some there ↦ some (there, n)
  | none ↦
      if not (run_client x)
      then none
      else some (new_peer topic type, add_subscriber topic (new_peer topic type) n)
]

module _ (http : HttpLibrary) where
  open http use {Request, set, prepare_payload}

  -- The request of NodeImpl::run.
  unfoldable pub node_post : Bytes → Bytes → Request
  node_post name pid =
      prepare_payload
        (set (codes "pid") pid (set (codes "node") name (new_request http post (codes "/node"))))

  -- The request of NodeImpl::onSignal and of ~NodeImpl.
  unfoldable pub node_delete : Bytes → Request
  node_delete name =
      prepare_payload (set (codes "node") name (new_request http delete (codes "/node")))

  -- The request of Publisher::run.
  unfoldable pub publisher_post : Bytes → Bytes → Bytes → Bytes → Request
  publisher_post node topic fd type = prepare_payload (
      set (codes "type") type (
        set (codes "eventfd") fd (
          set (codes "node") node
            (set (codes "pub") topic (new_request http post (codes "/node/pub"))))))

  -- The request of Subscriber::run.
  unfoldable pub subscriber_post : Bytes → Bytes → Bytes → Bytes → Request
  subscriber_post node topic fd type = prepare_payload (
      set (codes "type") type (
        set (codes "eventfd") fd (
          set (codes "node") node
            (set (codes "sub") topic (new_request http post (codes "/node/sub"))))))

module _ (lib : SharedLibrary queue_size) where
  open lib use {Queue, push, pop, write_available, signal}

  -- Publisher::publish, with the bytes of the message.
  unfoldable pub publish_client : Bytes → Channel lib → Channel lib
  publish_client message ch =
      if write_available ch.queue == 0
      then ch
      else record { queue = (push message ch.queue).1; eventfd = signal ch.eventfd }

  -- The loop of Subscriber::onRead: the messages for the callback, and the queue that is left.
  unfoldable pub deliver_each : ℕ → Queue → List Bytes × Queue
  deliver_each zero q = ([], q)
  deliver_each (suc n) q =
      let (popped, q') = pop q in
      let rest = deliver_each n q' in
      elim popped [ none ↦ rest | some message ↦ (message ∷ rest.0, rest.1) ]

  -- Subscriber::onRead with its error and `m_eventfdValue`; whether it waits again is the last part.
  unfoldable pub on_read : Bool → ℕ → Queue → List Bytes × Queue × Bool
  unfolding deliver_each
  on_read failed count q =
      let (messages, q') = deliver_each count q in
      if failed then ([], q, false) else (messages, q', true)
