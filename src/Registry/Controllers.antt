-- ===== src/Registry/Controllers.antt =====
-- The requests of other masters: InterfaceRouter::handle and the controllers of
-- src/Master/src/interface/controller, and HostInterface::onNew and onFail of HostInterface.cpp.
-- The JSON reader is a library: `parse_nodes` is what it reads from a body, no node where it
-- fails. `all_node_info` is the text of MiddlewareManager::getAllNodeInfo.
use mid_napi.Prelude.{
  ℕ, ◌+◌, not, Option, none, some, ◌>>=◌, List, [], ◌∷◌, ◌++◌, Bytes, codes, lookup, insert, ◌≟◌,
  ltb, bytes_eq, if◌then◌else◌,
}
use mid_napi.Http.{Verb, post, put, delete, HttpLibrary}
use mid_napi.Registry.{
  Host, Topic2Type, add_member, drop_member, add_node, delete_node, add_sub, add_pub, clear,
}
use mid_napi.Registry.Manager.{
  InterfaceManager, set_max_between, set_init_between, new_request, addressed, broadcast, transfer,
  hosts_of, set_max_to, set_init_to,
}

-- An element of "nodes".
pub record NodeInfo : Type 0 where
  pub name : Bytes
  pub subtopics : Topic2Type
  pub pubtopics : Topic2Type

-- The loop over all topics at the head of NewController's handlers.
abbrev pub forget_in : Bytes → List (Bytes × List Bytes) → List (Bytes × List Bytes)
forget_in host [] = []
forget_in host ((topic, hosts) ∷ m) = (topic, drop_member host hosts) ∷ forget_in host m

module _ {Request : Type 0} where
  -- `hostlist[host]->f()`
  abbrev pub with_host :
      Bytes → (Host → Host) → InterfaceManager Request → Option (InterfaceManager Request)
  with_host host f m = elim (lookup host m.hostlist) [
    | none ↦ none
    | some h ↦ some (record m { hostlist = insert host (f h) m.hostlist })
  ]

  -- `topic2host[topic].insert(host)`
  abbrev pub listen : Bytes → Bytes → InterfaceManager Request → InterfaceManager Request
  listen topic host m = record m {
    topic2host = insert topic (add_member host (hosts_of topic m.topic2host)) m.topic2host;
  }

  -- `topic2host[topic].erase(host)`
  abbrev pub unlisten : Bytes → Bytes → InterfaceManager Request → InterfaceManager Request
  unlisten topic host m = record m {
    topic2host = insert topic (drop_member host (hosts_of topic m.topic2host)) m.topic2host;
  }

  unfoldable pub unlisten_each :
      List Bytes → Bytes → InterfaceManager Request → InterfaceManager Request
  unlisten_each [] host m = m
  unlisten_each (topic ∷ topics) host m = unlisten_each topics host (unlisten topic host m)

  abbrev pub forget : Bytes → InterfaceManager Request → InterfaceManager Request
  forget host m = record m { topic2host = forget_in host m.topic2host }

  unfoldable pub learn_sub :
      Bytes → Bytes → Bytes → Bytes → InterfaceManager Request → Option (InterfaceManager Request)
  unfolding add_sub
  learn_sub host node topic type m = do
    m' ← with_host host (add_sub node topic type) m
    some (listen topic host m')

  unfoldable pub learn_subs :
      Bytes → Bytes → Topic2Type → InterfaceManager Request → Option (InterfaceManager Request)
  unfolding learn_sub
  learn_subs host node [] m = some m
  learn_subs host node ((topic, type) ∷ subs) m =
      learn_sub host node topic type m >>= learn_subs host node subs

  unfoldable pub learn_pubs :
      Bytes → Bytes → Topic2Type → InterfaceManager Request → Option (InterfaceManager Request)
  unfolding add_pub
  learn_pubs host node [] m = some m
  learn_pubs host node ((topic, type) ∷ pubs) m =
      with_host host (add_pub node topic type) m >>= learn_pubs host node pubs

  unfoldable pub learn_nodes :
      Bytes → List NodeInfo → InterfaceManager Request → Option (InterfaceManager Request)
  unfolding add_node learn_subs learn_pubs
  learn_nodes host [] m = some m
  learn_nodes host (n ∷ ns) m = do
    m1 ← with_host host (add_node n.name) m
    m2 ← learn_subs host n.name n.subtopics m1
    m3 ← learn_pubs host n.name n.pubtopics m2
    learn_nodes host ns m3

  -- NodeController::handleDelete
  unfoldable pub delete_remote_node :
      Bytes → Bytes → InterfaceManager Request → Option (InterfaceManager Request)
  unfolding delete_node unlisten_each
  delete_remote_node host node m = elim (lookup host m.hostlist) [
    | none ↦ none
    | some h ↦
        let (h', topics) = delete_node node h in
        some (unlisten_each topics host (record m { hostlist = insert host h' m.hostlist }))
  ]

module _ (lib : HttpLibrary) (parse_nodes : Bytes → List NodeInfo) (all_node_info : Bytes) where
  open lib use {Request, method, target, body, field, set_body}

  -- The common part of NewController's handlers.
  unfoldable pub learn_host : Request → InterfaceManager Request → Option (InterfaceManager Request)
  unfolding clear learn_nodes
  learn_host req m =
      let host = field req (codes "src") in
      do m' ← with_host host clear (forget host m); learn_nodes host (parse_nodes (body req)) m'

  unfoldable pub post_new : Request → InterfaceManager Request → Option (InterfaceManager Request)
  unfolding learn_host transfer
  post_new req m =
      let host = field req (codes "src") in
      do
        m' ← learn_host req m
        transfer lib host
            (addressed lib m'.host_name host
              (set_body all_node_info (new_request lib put (codes "/new"))))
            m'

  unfoldable pub post_node : Request → InterfaceManager Request → Option (InterfaceManager Request)
  unfolding add_node
  post_node req m = with_host (field req (codes "src")) (add_node (field req (codes "node"))) m

  unfoldable pub delete_node_request :
      Request → InterfaceManager Request → Option (InterfaceManager Request)
  unfolding delete_remote_node
  delete_node_request req m =
      delete_remote_node (field req (codes "src")) (field req (codes "node")) m

  unfoldable pub post_pub : Request → InterfaceManager Request → Option (InterfaceManager Request)
  unfolding add_pub
  post_pub req m =
      with_host (field req (codes "src"))
        (add_pub (field req (codes "node")) (field req (codes "pub")) (field req (codes "type"))) m

  unfoldable pub post_sub : Request → InterfaceManager Request → Option (InterfaceManager Request)
  unfolding learn_sub
  post_sub req m =
      learn_sub (field req (codes "src")) (field req (codes "node")) (field req (codes "sub"))
        (field req (codes "type")) m

  -- The message goes to the local nodes.
  unfoldable pub post_publish :
      Request → InterfaceManager Request → Option (InterfaceManager Request)
  post_publish req m =
      some (record m { inner = m.inner ++ (field req (codes "topic"), body req) ∷ [] })

  unfoldable pub post_weight :
      Request → InterfaceManager Request → Option (InterfaceManager Request)
  unfolding set_max_between set_init_between
  post_weight req m =
      let host1 = field req (codes "host1") in
      let host2 = field req (codes "host2") in
      let raised = set_max_between host1 host2 m in
      let restored = set_init_between host1 host2 m in
      if field req (codes "type") ≟ codes "max"
      then raised
      else if field req (codes "type") ≟ codes "init"
      then restored
      else some m

  -- The handlers that CONTROLLER_REGISTER enters for a path.
  unfoldable pub controller :
      Bytes → Verb → Option (Request → InterfaceManager Request → Option (InterfaceManager Request))
  controller path verb =
      if path ≟ codes "/new"
      then (elim verb [ post ↦ some post_new | put ↦ some learn_host | _ ↦ none ])
      else if path ≟ codes "/node"
      then (elim verb [ post ↦ some post_node | delete ↦ some delete_node_request | _ ↦ none ])
      else if path ≟ codes "/node/pub"
      then (elim verb [ post ↦ some post_pub | _ ↦ none ])
      else if path ≟ codes "/node/sub"
      then (elim verb [ post ↦ some post_sub | _ ↦ none ])
      else if path ≟ codes "/publish"
      then (elim verb [ post ↦ some post_publish | _ ↦ none ])
      else if path ≟ codes "/weight"
      then (elim verb [ post ↦ some post_weight | _ ↦ none ])
      else none

  -- A request for another host is passed on; one without a controller is dropped.
  unfoldable pub handle : Request → InterfaceManager Request → Option (InterfaceManager Request)
  unfolding controller transfer
  handle req m =
      if not (field req (codes "dest") ≟ m.host_name)
      then transfer lib (field req (codes "dest")) req m
      else elim (controller (target req) (method req)) [ none ↦ some m | some f ↦ f req m ]

  -- HostInterface::onNew: the host answers again. The new count of failures is 0.
  unfoldable pub on_new :
      Bytes → ℕ → InterfaceManager Request → Option (ℕ × InterfaceManager Request)
  unfolding broadcast set_init_to
  on_new host fail_times m = do
    m' ← broadcast lib (set_body all_node_info (new_request lib post (codes "/new"))) m
    m'' ← set_init_to lib host m'
    some (0, m'')

  -- HostInterface::onFail: the sixth failure in a row raises the weight.
  unfoldable pub on_fail :
      Bytes → ℕ → InterfaceManager Request → Option (ℕ × InterfaceManager Request)
  unfolding set_max_to
  on_fail host fail_times m =
      let raised = set_max_to lib host m in
      if ltb 5 fail_times
      then some (fail_times, m)
      else if ltb 5 (fail_times + 1)
      then (do m' ← raised; some (fail_times + 1, m'))
      else some (fail_times + 1, m)
