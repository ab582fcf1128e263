-- ===== src/Shm/Tests.antt =====
-- Two local nodes of a master a that knows of no other host: n1 publishes the topic t and n2
-- subscribes it.
use mid_napi.Prelude.{
  arith, Option, ltb, if◌then◌else◌, ◌*◌, ◌-◌, ◌+◌, ℕ, ◌≡◌, refl, true, false, none, some, ◌>>=◌,
  List, [], ◌∷◌, Bytes, bytes_beq, bytes_eq, codes, lookup, not, ◌&&◌, ◌≟◌, Holds,
}
use mid_napi.Http.Sample.{sample, Message}
use mid_napi.Registry.Manager.{InterfaceManager}
use mid_napi.Registry.Tests.{master}
use mid_napi.Shm.{ℤ, pos, Endpoint, Node, new_node, endpoints_of, at_id, Channel, Master}
use mid_napi.Http.{post}
use mid_napi.Registry.Manager.{announce_deleted_node, broadcast, send_each}
use mid_napi.Shm.{add_publish, values}
use mid_napi.Shm.Sample.{queues}
use mid_napi.Shm.Transfer.{transfer_inner_message, read_eventfd, on_eventfd_read}
use mid_napi.Shm.Answers.{TextLibrary, get_all_node_info}
use mid_napi.Shm.Controllers.{
  RunResults, add_local_node, add_local_pub, with_publish, delete_local_node,
}
use mid_napi.Shm.Delivery.{
  with_channels, transfer_all, resumed, transfer_inner_message-contents,
  on_eventfd_read-transfer_all,
}
use mid_napi.Shm.Tables.{has_from}
use mid_napi.Shm.WellFormed.{IsWellFormed, insert_new-IsWellFormed, with_publish-IsWellFormed}
use mid_napi.Shm.Router.{Response, handle_local}
use mid_napi.Shm.Answering.{IsReady, handle_local-answers}
use mid_napi.Shm.Events.{
  Event, asks, reads, hears, run_events, start, start-IsWellFormed, run_events-IsWellFormed,
}
use mid_napi.Shm.Deletion.{delete_local_node-removes, unknown_deletion_breaks}

abbrev pub alone : InterfaceManager Message
alone = record master { topic2host = []; hostlist = [] }

abbrev pub publisher : Endpoint
publisher = record { id = 0; topic = codes "t"; node_name = codes "n1"; type = codes "T" }

abbrev pub subscriber : Endpoint
subscriber = record { id = 1; topic = codes "t"; node_name = codes "n2"; type = codes "T" }

abbrev pub n1 : Node
n1 = record {
  name = codes "n1";
  pid = pos 7;
  publishes = (codes "t", publisher) ∷ [];
  subscribes = [];
}

abbrev pub n2 : Node
n2 = record {
  name = codes "n2";
  pid = pos 8;
  publishes = [];
  subscribes = (codes "t", subscriber) ∷ [];
}

abbrev pub empty_channel : Channel queues
empty_channel = record { queue = []; eventfd = 0 }

-- Two messages of n1 wait.
abbrev pub two : Master queues Message
two = record {
  nodes = (codes "n1", some n1) ∷ (codes "n2", some n2) ∷ [];
  publishes = (codes "t", publisher ∷ []) ∷ [];
  subscribes = (codes "t", subscriber ∷ []) ∷ [];
  pub_channels =
      at_id 0 (record { queue = codes "x" ∷ codes "y" ∷ []; eventfd = 2 }) (λ i. empty_channel);
  sub_channels = λ i. empty_channel;
  next_id = 2;
  reading = λ i. true;
  interface = alone;
}

on_eventfd_read-transfer_all_example :
    (ch : Channel queues) × (queues.contents ch.queue ≡ [])
    × (queues.value ch.eventfd ≡ 0)
    × (on_eventfd_read sample queues false
          (read_eventfd sample queues publisher two).0
          publisher
          (read_eventfd sample queues publisher two).1
        ≡ (transfer_all sample queues
              (codes "t")
              (codes "x" ∷ codes "y" ∷ [])
              (with_channels (at_id 0 ch two.pub_channels) two)
            >>= resumed sample queues publisher))
on_eventfd_read-transfer_all_example = on_eventfd_read-transfer_all sample queues publisher two refl

transfer_inner_message-contents_example :
    let ch' = (transfer_inner_message sample queues (codes "t") (codes "z") two).sub_channels 1 in
    (queues.contents ch'.queue ≡ codes "z" ∷ []) × (queues.value ch'.eventfd ≡ 1)
unfolding bytes_beq
transfer_inner_message-contents_example =
    transfer_inner_message-contents sample queues (codes "t") (codes "z") two 1 (refl, tt)

-- A number without a sign; nothing else is read.
abbrev digits_from : ℕ → Bytes → Option ℤ
digits_from n [] = some (pos n)
digits_from n (c ∷ s) =
    let rest = digits_from (n * 10 + (c - b'0')) s in
    if ltb c b'0' then none else if ltb b'9' c then none else rest

abbrev pub stoi : Bytes → Option ℤ
stoi [] = none
stoi (c ∷ s) = digits_from 0 (c ∷ s)

abbrev pub texts : TextLibrary
texts = record {
  stoi = stoi;
  write_lists = λ root. [];
  write_topic = λ topic info. [];
  write_nodes = λ nodes. [];
}

unknown_deletion_breaks_example :
    (m' : Master queues Message) × (delete_local_node sample queues (codes "n3") two
      ≡ some (false, m'))
    × ((pid : ℤ) → add_local_node sample queues (codes "n3") pid m' ≡ some (false, m'))
    × ((r : RunResults sample queues) (topic type : Bytes)
        → add_local_pub sample queues r (codes "n3") topic type m' ≡ none)
    × (get_all_node_info queues texts m' ≡ none)
unfolding bytes_beq
unknown_deletion_breaks_example = unknown_deletion_breaks sample queues texts (codes "n3") two refl

abbrev post_request : Bytes → List (Bytes × Bytes) → Message
post_request path fields = record { verb = post; path = path; fields = fields; content = [] }

abbrev pub all_run : RunResults sample queues
all_run = record { pidfd_opened = true; eventfd = some 0; memory_created = true }

-- n1 comes, publishes t, sends a message and goes.
abbrev n1_events : List (Event sample queues texts)
n1_events =
    asks all_run
      (post_request (codes "/node") ((codes "node", codes "n1") ∷ (codes "pid", codes "7") ∷ []))
    ∷ asks all_run (
        post_request (codes "/node/pub") (
          (codes "node", codes "n1")
          ∷ (codes "pub", codes "t")
          ∷ (codes "type", codes "T")
          ∷ (codes "eventfd", codes "3")
          ∷ []))
    ∷ reads publisher false
    ∷ hears (codes "t") (codes "z")
    ∷ []

run_events-IsWellFormed_example : Holds (IsWellFormed sample queues) (
    run_events sample queues texts n1_events (start sample queues texts alone (λ i. empty_channel)))
run_events-IsWellFormed_example =
    run_events-IsWellFormed sample queues texts n1_events alone (λ i. empty_channel)

-- After n1 was added, and after it published t.
abbrev greeted : Master queues Message
greeted = record (start sample queues texts alone (λ i. empty_channel)) {
  nodes = (codes "n1", some (new_node (codes "n1") (pos 7))) ∷ [];
}

abbrev publishing : Master queues Message
publishing =
    record (with_publish sample queues (codes "n1") (new_node (codes "n1") (pos 7)) publisher
      empty_channel greeted) { interface = alone }

publishing-IsWellFormed : IsWellFormed sample queues publishing
unfolding bytes_beq values
publishing-IsWellFormed =
    with_publish-IsWellFormed sample queues (codes "n1") (codes "t") (codes "T")
      (new_node (codes "n1") (pos 7)) empty_channel alone greeted refl refl
      (insert_new-IsWellFormed sample queues (codes "n1") (some (new_node (codes "n1") (pos 7)))
        alone (start sample queues texts alone (λ i. empty_channel)) refl refl refl refl
        (start-IsWellFormed sample queues texts alone (λ i. empty_channel)))

delete_local_node-removes_example :
    (m' : Master queues Message) × (delete_local_node sample queues (codes "n1") publishing
      ≡ some (true, m'))
    × (lookup (codes "n1") m'.nodes ≡ none)
    × ((name topic : Bytes) (i : ℕ)
        → (has_from name i (endpoints_of topic m'.publishes) ≡ (
            has_from name i (endpoints_of topic publishing.publishes) && not (codes "n1" ≟ name)))
          × (has_from name i (endpoints_of topic m'.subscribes) ≡ (
              has_from name i (endpoints_of topic publishing.subscribes)
              && not (codes "n1" ≟ name))))
unfolding bytes_beq with_publish add_publish announce_deleted_node broadcast send_each
delete_local_node-removes_example =
    delete_local_node-removes sample queues (codes "n1")
      (add_publish publisher (new_node (codes "n1") (pos 7))) alone publishing
      publishing-IsWellFormed refl refl

publishing-IsReady : IsReady sample queues publishing
unfolding with_publish add_publish
publishing-IsReady = record { no_null = λ node h. ground (arith, h); reached = tt }

handle_local-answers_example :
    (a : Response × Master queues Message) × (handle_local sample queues texts all_run
        (post_request (codes "/node/sub") (
          (codes "node", codes "n1")
          ∷ (codes "sub", codes "u")
          ∷ (codes "eventfd", codes "3")
          ∷ []))
        publishing
      ≡ some a)
    × IsWellFormed sample queues a.1
unfolding bytes_beq
handle_local-answers_example =
    handle_local-answers sample queues texts all_run
      (post_request (codes "/node/sub")
        ((codes "node", codes "n1") ∷ (codes "sub", codes "u") ∷ (codes "eventfd", codes "3") ∷ []))
      publishing (pos 3, refl) publishing-IsReady publishing-IsWellFormed
