-- ===== src/Client/Tests.antt =====
-- One queue with one message in it, whose writer pushes a second one while the reader reads.
use mid_napi.Prelude.{◌≡◌, refl, false, true, List, [], ◌∷◌, Bytes, codes, arith}
use mid_napi.Shm.Sample.{queues}
use mid_napi.Http.Sample.{sample}
use mid_napi.Shm.{pos}
use mid_napi.Shm.Controllers.{add_local_node, add_local_pub, add_local_sub, delete_local_node}
use mid_napi.Shm.Router.{answered, handle_local}
use mid_napi.Shm.Tests.{texts, all_run, two}
use mid_napi.Client.{on_read, node_post, node_delete, publisher_post, subscriber_post}
use mid_napi.Client.Requests.{client_requests-handled}
use mid_napi.Client.Calls.{on_read-contents}
use mid_napi.Client.Fifo.{
  idle, Label, accepts, delivers, silent, FifoRun, Shared, Run, ends, goes, checks, pushes, reads,
  signals, tries, IsBalanced, Run-FifoRun,
}

abbrev one_waits : Shared queues
one_waits = record { queue = codes "x" ∷ []; eventfd = 1; writer = idle; in_hand = 0 }

abbrev second_waits : Shared queues
second_waits = record { queue = codes "y" ∷ []; eventfd = 1; writer = idle; in_hand = 0 }

abbrev labels : List Label
labels = silent ∷ accepts (codes "y") ∷ silent ∷ delivers (codes "x") ∷ silent ∷ []

-- The reader reads between the push and the signal, so it pops the first message only.
overtaking : Run queues one_waits labels second_waits
overtaking = goes (checks (codes "y") _ refl refl) (
    goes (pushes (codes "y") _ refl)
      (goes (reads _ refl) (goes (tries 0 _ refl) (goes (signals _ refl) ends))))

Run-FifoRun_example :
    IsBalanced queues second_waits × FifoRun (codes "x" ∷ []) labels (codes "y" ∷ [])
Run-FifoRun_example = Run-FifoRun queues overtaking (refl, omega arith, tt)

on_read-contents_example :
    (left : List Bytes) × (left ≡ [])
    × (on_read queues false 2 (codes "x" ∷ codes "y" ∷ [])
        ≡ (codes "x" ∷ codes "y" ∷ [], left, true))
on_read-contents_example = on_read-contents queues (codes "x" ∷ codes "y" ∷ []) 2 refl

client_requests-handled_example :
    (handle_local sample queues texts all_run (node_post sample (codes "n3") (codes "9")) two
      ≡ answered sample queues texts (add_local_node sample queues (codes "n3") (pos 9) two))
    × (handle_local sample queues texts all_run
          (publisher_post sample (codes "n3") (codes "u") (codes "9") (codes "U"))
          two
        ≡ answered sample queues texts
            (add_local_pub sample queues all_run (codes "n3") (codes "u") (codes "U") two))
    × (handle_local sample queues texts all_run
          (subscriber_post sample (codes "n3") (codes "u") (codes "9") (codes "U"))
          two
        ≡ answered sample queues texts
            (add_local_sub sample queues all_run (codes "n3") (codes "u") (codes "U") two))
    × (handle_local sample queues texts all_run (node_delete sample (codes "n3")) two
        ≡ answered sample queues texts (delete_local_node sample queues (codes "n3") two))
client_requests-handled_example =
    client_requests-handled sample queues texts all_run (codes "n3") (codes "u") (codes "U")
      (codes "9") two
