-- ===== src/Registry/Tests.antt =====
-- A master a that knows of a host b with two nodes, over the requests of Http/Sample.
use mid_napi.Prelude.{
  ◌≡◌, refl, true, ◌≟◌, if◌then◌else◌, false, none, some, List, [], ◌∷◌, arith, Bytes, bytes_beq,
  codes, lookup, bytes_eq,
}
use mid_napi.Http.Sample.{sample, Message, sub_request}
use mid_napi.Routing.{empty_map, HostEntry}
use mid_napi.Registry.Setup.{attach_hosts, local_interfaces}
use mid_napi.Registry.{Host, delete_node, add_sub}
use mid_napi.Registry.Manager.{
  InterfaceManager, broadcast, publish, publish_request, deleted_sub_request, subscription_request,
  addressed,
}
use mid_napi.Registry.Controllers.{NodeInfo, handle, delete_remote_node}
use mid_napi.Registry.Topics.{listens, delete_remote_node-unlistens}
use mid_napi.Registry.Requests.{deleted_sub_ignored, announced_sub_learned}
use mid_napi.Registry.Delivery.{
  IsReachable, sent, requests_to, publish_sends, broadcast_unreachable,
}

abbrev b_host : Host
b_host = record {
  node_list = codes "n1" ∷ codes "n2" ∷ [];
  node2pubtopic2type = [];
  node2subtopic2type =
      (codes "n1", (codes "t", codes "T") ∷ []) ∷ (codes "n2", (codes "t", codes "T") ∷ []) ∷ [];
}

abbrev pub master : InterfaceManager Message
master = record {
  host_name = codes "a";
  topic2host = (codes "t", codes "b" ∷ []) ∷ [];
  route = (codes "b", (codes "a1", codes "b1")) ∷ [];
  hostlist = (codes "b", b_host) ∷ [];
  interface_list = (codes "a1", codes "b1" ∷ []) ∷ [];
  map = empty_map;
  outbox = [];
  inner = [];
}

abbrev no_nodes : Bytes → List NodeInfo
no_nodes body = []

delete_remote_node-unlistens_example :
    (m : InterfaceManager Message) × (delete_remote_node (codes "b") (codes "n1") master ≡ some m)
    × (lookup (codes "b") m.hostlist ≡ some (delete_node (codes "n1") b_host).0)
    × (lookup (codes "n2") (delete_node (codes "n1") b_host).0.node2subtopic2type
        ≡ some ((codes "t", codes "T") ∷ []))
    × (listens (codes "b") (codes "t") m ≡ false)
unfolding bytes_beq
delete_remote_node-unlistens_example =
    delete_remote_node-unlistens (codes "b") (codes "n1") (codes "n2") (codes "t")
      ((codes "t", codes "T") ∷ []) b_host master refl refl refl (ground arith)

deleted_sub_ignored_example :
    handle sample no_nodes []
      (addressed sample
        (codes "b")
        (codes "a")
        (deleted_sub_request sample (codes "n1") (codes "t")))
      master
    ≡ some master
deleted_sub_ignored_example =
    deleted_sub_ignored sample no_nodes [] (codes "b") (codes "n1") (codes "t") master

announced_sub_learned_example :
    (m : InterfaceManager Message) × (handle sample no_nodes []
        (addressed sample
          (codes "b")
          (codes "a")
          (subscription_request sample (codes "n1") (codes "u") (codes "U")))
        master
      ≡ some m)
    × (lookup (codes "b") m.hostlist ≡ some (add_sub (codes "n1") (codes "u") (codes "U") b_host))
    × ((t : Bytes)
        → listens (codes "b") t m ≡ (if codes "u" ≟ t then true else listens (codes "b") t master))
unfolding bytes_beq
announced_sub_learned_example =
    announced_sub_learned sample no_nodes [] (codes "b") (codes "n1") (codes "u") (codes "U") b_host
      master refl

b-IsReachable : IsReachable master.route master.interface_list (codes "b")
unfolding bytes_beq
b-IsReachable = record { attached = codes "b1" ∷ []; listed = refl; joined = refl }

publish_sends_example :
    publish sample (codes "t") (codes "hello") master
    ≡ some (
        sent
          (requests_to sample
            (codes "b" ∷ [])
            (publish_request sample (codes "a") (codes "t") (codes "hello"))
            master.route)
          master)
unfolding bytes_beq
publish_sends_example = publish_sends sample (codes "t") (codes "hello") master (b-IsReachable, tt)

broadcast_unreachable_example : broadcast sample sub_request (record master { route = [] }) ≡ none
unfolding bytes_beq
broadcast_unreachable_example =
    broadcast_unreachable sample (codes "b") sub_request (record master { route = [] }) refl refl
      refl

-- The local host a shares segment 1 with b, and segment 2 has b only.
abbrev hosts : List HostEntry
hosts =
    record {
      name = codes "a";
      interfaces = record { name = codes "a1"; kind = codes "tcp"; segment = 1 } ∷ [];
    }
    ∷ record {
      name = codes "b";
      interfaces =
          record { name = codes "b1"; kind = codes "uwb"; segment = 1 }
          ∷ record { name = codes "b2"; kind = codes "tcp"; segment = 2 }
          ∷ [];
    }
    ∷ []

attach_hosts-local_interfaces :
    attach_hosts (codes "a") hosts (local_interfaces (codes "a") hosts)
    ≡ some ((codes "a1", some (record { segment = 1; attached = codes "b1" ∷ [] })) ∷ [])
unfolding attach_hosts local_interfaces bytes_beq
attach_hosts-local_interfaces = refl
