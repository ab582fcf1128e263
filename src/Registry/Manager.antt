-- ===== src/Registry/Manager.antt =====
-- The interface manager: InterfaceManager of src/Master/src/InterfaceManager.hpp and
-- InterfaceManager.cpp. A step that dereferences a null pointer is `none`: a host without an entry
-- in `hostlist`, an interface without one in `interfaceList` or in the interface's own table.
-- `getRoute` has no result where an int overflows. What is handed to an interface is in `outbox`,
-- and what is handed to the local nodes in `inner`, each oldest first. The order of an unordered
-- map is that of the list.
use mid_napi.Prelude.{
  emplace, Option, none, some, ◌>>=◌, List, [], ◌∷◌, ◌++◌, Bytes, codes, lookup, bytes_eq,
  if◌then◌else◌,
}
use mid_napi.Http.{Verb, post, delete, HttpLibrary}
use mid_napi.Routing.{Map, set_max_weight, set_init_weight}
use mid_napi.Routing.Route.{done, overflows, starves, get_route}
use mid_napi.Registry.{Host, member}

pub record InterfaceManager (Request : Type 0) : Type 0 where
  pub host_name : Bytes
  pub topic2host : List (Bytes × List Bytes)
  pub route : List (Bytes × (Bytes × Bytes))
  pub hostlist : List (Bytes × Host)
  -- The names in `name2hostInterface` of each interface.
  pub interface_list : List (Bytes × List Bytes)
  pub map : Map
  pub outbox : List (Bytes × (Bytes × Request))
  pub inner : List (Bytes × Bytes)

-- `route[host]`
abbrev pub hop_in : Bytes → List (Bytes × (Bytes × Bytes)) → Bytes × Bytes
hop_in host route = elim (lookup host route) [ none ↦ ([], []) | some hop ↦ hop ]

-- `topic2host[topic]`
abbrev pub hosts_of : Bytes → List (Bytes × List Bytes) → List Bytes
hosts_of topic m = elim (lookup topic m) [ none ↦ [] | some hosts ↦ hosts ]

-- `interfaceList[name]->send(next, req)`
unfoldable pub send_via :
    {Request : Type 0}
    → Bytes
    → Bytes
    → Request
    → InterfaceManager Request
    → Option (InterfaceManager Request)
send_via name next req m = elim (lookup name m.interface_list) [
  | none ↦ none
  | some attached ↦
      if member next attached
      then some (record m { outbox = m.outbox ++ (name, (next, req)) ∷ [] })
      else none
]

abbrev pub send_to :
    {Request : Type 0}
    → Bytes
    → Request
    → InterfaceManager Request
    → Option (InterfaceManager Request)
send_to host req m = send_via (hop_in host m.route).0 (hop_in host m.route).1 req m

-- `getRoute` into `route`.
unfoldable pub reroute :
    {Request : Type 0} → Map → InterfaceManager Request → Option (InterfaceManager Request)
reroute map m = elim (get_route map) [
  | done route ↦ some (record m { map = map; route = route })
  | overflows ↦ none
  | starves ↦ none
]

-- setMaxWeight(host1, host2) and setInitWeight(host1, host2).
unfoldable pub set_max_between :
    {Request : Type 0}
    → Bytes
    → Bytes
    → InterfaceManager Request
    → Option (InterfaceManager Request)
unfolding reroute
set_max_between host1 host2 m = reroute (set_max_weight host1 host2 m.map) m

unfoldable pub set_init_between :
    {Request : Type 0}
    → Bytes
    → Bytes
    → InterfaceManager Request
    → Option (InterfaceManager Request)
unfolding reroute
set_init_between host1 host2 m = reroute (set_init_weight host1 host2 m.map) m

module _ (lib : HttpLibrary) where
  open lib use {Request, blank, set_method, set_target, set_body, set}

  abbrev pub new_request : Verb → Bytes → Request
  new_request verb path = set_target path (set_method verb blank)

  abbrev pub addressed : Bytes → Bytes → Request → Request
  addressed src dest req = set (codes "dest") dest (set (codes "src") src req)

  -- The loop of `broadcast` and of `publish` over host names.
  unfoldable pub send_each :
      List Bytes → Request → InterfaceManager Request → Option (InterfaceManager Request)
  unfolding send_via
  send_each [] req m = some m
  send_each (host ∷ hosts) req m =
      send_to host (set (codes "dest") host req) m >>= send_each hosts (set (codes "dest") host req)

  abbrev pub host_names : List (Bytes × Host) → List Bytes
  host_names [] = []
  host_names ((name, h) ∷ hs) = name ∷ host_names hs

  unfoldable pub broadcast : Request → InterfaceManager Request → Option (InterfaceManager Request)
  unfolding send_each
  broadcast req m = send_each (host_names m.hostlist) (set (codes "src") m.host_name req) m

  unfoldable pub transfer :
      Bytes → Request → InterfaceManager Request → Option (InterfaceManager Request)
  unfolding send_via
  transfer dest req m = send_to dest req m

  abbrev pub node_request : Verb → Bytes → Bytes → Request
  node_request verb path node = set (codes "node") node (new_request verb path)

  unfoldable pub announce_node :
      Bytes → InterfaceManager Request → Option (InterfaceManager Request)
  announce_node node m = broadcast (node_request post (codes "/node") node) m

  unfoldable pub announce_deleted_node :
      Bytes → InterfaceManager Request → Option (InterfaceManager Request)
  announce_deleted_node node m = broadcast (node_request delete (codes "/node") node) m

  unfoldable pub subscription_request : Bytes → Bytes → Bytes → Request
  subscription_request node topic type =
      set (codes "type") type (set (codes "sub") topic (node_request post (codes "/node/sub") node))

  unfoldable pub announce_sub :
      Bytes → Bytes → Bytes → InterfaceManager Request → Option (InterfaceManager Request)
  announce_sub node topic type m = broadcast (subscription_request node topic type) m

  unfoldable pub deleted_sub_request : Bytes → Bytes → Request
  deleted_sub_request node topic =
      set (codes "sub") topic (node_request delete (codes "/node/sub") node)

  unfoldable pub announce_deleted_sub :
      Bytes → Bytes → InterfaceManager Request → Option (InterfaceManager Request)
  announce_deleted_sub node topic m = broadcast (deleted_sub_request node topic) m

  unfoldable pub announce_pub :
      Bytes → Bytes → Bytes → InterfaceManager Request → Option (InterfaceManager Request)
  announce_pub node topic type m =
      broadcast
        (set (codes "type") type
          (set (codes "pub") topic (node_request post (codes "/node/pub") node)))
        m

  unfoldable pub announce_deleted_pub :
      Bytes → Bytes → InterfaceManager Request → Option (InterfaceManager Request)
  announce_deleted_pub node topic m =
      broadcast (set (codes "pub") topic (node_request delete (codes "/node/pub") node)) m

  -- The request of `publish`, but for "dest".
  unfoldable pub publish_request : Bytes → Bytes → Bytes → Request
  publish_request src topic content =
      set (codes "src") src
        (set_body content (set (codes "topic") topic (new_request post (codes "/publish"))))

  -- `topic2host[topic]` enters the topic if it is not there.
  abbrev pub touched : Bytes → InterfaceManager Request → InterfaceManager Request
  touched topic m = record m { topic2host = emplace topic [] m.topic2host }

  unfoldable pub publish :
      Bytes → Bytes → InterfaceManager Request → Option (InterfaceManager Request)
  unfolding send_each
  publish topic content m =
      send_each (hosts_of topic m.topic2host) (publish_request m.host_name topic content)
        (touched topic m)

  abbrev pub weight_request : Bytes → Bytes → Bytes → Request
  weight_request host1 host2 type =
      set (codes "type") type
        (set (codes "host2") host2 (set (codes "host1") host1 (new_request post (codes "/weight"))))

  unfoldable pub set_max_to : Bytes → InterfaceManager Request → Option (InterfaceManager Request)
  unfolding set_max_between broadcast
  set_max_to host m =
      set_max_between m.host_name host m
      >>= broadcast (weight_request m.host_name host (codes "max"))

  unfoldable pub set_init_to : Bytes → InterfaceManager Request → Option (InterfaceManager Request)
  unfolding set_init_between broadcast
  set_init_to host m =
      set_init_between m.host_name host m
      >>= broadcast (weight_request m.host_name host (codes "init"))
