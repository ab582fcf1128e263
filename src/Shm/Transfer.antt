-- ===== src/Shm/Transfer.antt =====
-- Messages of the local nodes: Publish::onEventfdRead of src/Master/src/shm/Publish.cpp,
-- Subscribe::publish2Node of src/Master/src/shm/Subscribe.cpp, and MiddlewareManager::transferMessage
-- and transferInnerMessage of src/Master/src/MiddlewareManager.cpp.
use mid_napi.Prelude.{
  ℕ, zero, suc, Bool, true, false, Option, none, some, ◌>>=◌, List, [], ◌∷◌, Bytes, lookup,
  bytes_eq, if◌then◌else◌,
}
use mid_napi.Http.{HttpLibrary}
use mid_napi.Registry.Manager.{publish}
use mid_napi.Shm.{Endpoint, queue_size, at_id, Channel, Master}
use mid_napi.Shm.Library.{SharedLibrary}

module _ (http : HttpLibrary) (lib : SharedLibrary queue_size) where
  open http use {Request}
  open lib use {push, pop, signal, read}

  -- A push into a full queue fails, and then nothing is signalled.
  unfoldable pub publish_to_channel : Bytes → Channel lib → Channel lib
  publish_to_channel message ch =
      let (pushed, queue) = push message ch.queue in
      record { queue = queue; eventfd = if pushed then signal ch.eventfd else ch.eventfd }

  unfoldable pub publish_to_node : Endpoint → Bytes → Master lib Request → Master lib Request
  unfolding publish_to_channel
  publish_to_node s message m = record m {
    sub_channels = at_id s.id (publish_to_channel message (m.sub_channels s.id)) m.sub_channels;
  }

  unfoldable pub publish_to_each : List Endpoint → Bytes → Master lib Request → Master lib Request
  unfolding publish_to_node
  publish_to_each [] message m = m
  publish_to_each (s ∷ ss) message m = publish_to_each ss message (publish_to_node s message m)

  unfoldable pub transfer_inner_message : Bytes → Bytes → Master lib Request → Master lib Request
  unfolding publish_to_each
  transfer_inner_message topic message m = elim (lookup topic m.subscribes) [
    | none ↦ m
    | some subscribes ↦ publish_to_each subscribes message m
  ]

  -- The other hosts first.
  unfoldable pub transfer_message : Bytes → Bytes → Master lib Request → Option (Master lib Request)
  unfolding publish publish_to_each
  transfer_message topic message m = do
    interface ← publish http topic message m.interface
    let m' = record m { interface = interface }
    elim (lookup topic m'.subscribes) [
      | none ↦ some m'
      | some subscribes ↦ some (publish_to_each subscribes message m')
    ]

  -- A message that no pop has filled is empty.
  abbrev pub popped : Option Bytes → Bytes
  popped none = []
  popped (some message) = message

  -- The loop of `onEventfdRead`. The result of the pop is not looked at.
  unfoldable pub transfer_each : ℕ → Endpoint → Master lib Request → Option (Master lib Request)
  unfolding transfer_message
  transfer_each zero p m = some m
  transfer_each (suc n) p m =
      let ch = m.pub_channels p.id in
      let (message, queue) = pop ch.queue in
      let rest = transfer_each n p in
      transfer_message p.topic (popped message)
        (record m { pub_channels = at_id p.id (record ch { queue = queue }) m.pub_channels })
      >>= rest

  -- The kernel completes the read: the counter goes to `m_eventfdValue`.
  unfoldable pub read_eventfd : Endpoint → Master lib Request → ℕ × Master lib Request
  read_eventfd p m =
      let ch = m.pub_channels p.id in
      let (count, eventfd) = read ch.eventfd in
      (
        count,
        record m { pub_channels = at_id p.id (record ch { eventfd = eventfd }) m.pub_channels },
      )

  -- The handler of the read, with its error and `m_eventfdValue`. An error ends the reading.
  unfoldable pub on_eventfd_read :
      Bool → ℕ → Endpoint → Master lib Request → Option (Master lib Request)
  unfolding transfer_each
  on_eventfd_read failed count p m =
      let done = transfer_each count p m in
      if failed
      then some (record m { reading = at_id p.id false m.reading })
      else (do m' ← done; some (record m' { reading = at_id p.id true m'.reading }))
