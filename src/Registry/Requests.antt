-- ===== src/Registry/Requests.antt =====
-- What one master announces and another one does about it: the requests of
-- src/Master/src/InterfaceManager.cpp under InterfaceRouter::handle of
-- src/Master/src/interface/InterfaceRouter.cpp.
use mid_napi.Prelude.{
  ◌≡◌, refl, ◌∙◌, none, some, List, arith, Bytes, codes, bytes_eq, bytes_beq, eq→beq, lookup, true,
  if◌then◌else◌, ◌≟◌,
}
use mid_napi.Http.{Verb, post, delete, HttpLibrary}
use mid_napi.Registry.Manager.{
  InterfaceManager, node_request, addressed, deleted_sub_request, subscription_request,
}
use mid_napi.Registry.{Host, add_sub}
use mid_napi.Registry.Topics.{listens, learn_sub-listens}
use mid_napi.Registry.Controllers.{NodeInfo, controller, handle, post_sub, learn_sub}

module _ (lib : HttpLibrary) (parse_nodes : Bytes → List NodeInfo) (all_node_info : Bytes) where
  open lib use {
    Request, method, target, body, field, set, method-set, target-set, field-set_self,
    field-set_other, method-set_method, target-set_target, method-set_target,
  }

  -- A request for this host reaches the handler that is entered for its path and verb.
  handle-here :
      (req : Request) (m : InterfaceManager Request)
      → field req (codes "dest") ≡ m.host_name
      → handle lib parse_nodes all_node_info req m
        ≡ (elim (controller lib parse_nodes all_node_info (target req) (method req)) [
          | none ↦ some m
          | some f ↦ f req m
        ])
  unfolding handle
  handle-here req m e = rw (eq→beq (field req (codes "dest")) m.host_name e)

  -- No handler is entered for a deletion at "/node/sub".
  no_controller : controller lib parse_nodes all_node_info (codes "/node/sub") delete ≡ none
  unfolding controller bytes_beq
  no_controller = refl

  sub_controller :
      controller lib parse_nodes all_node_info (codes "/node/sub") post
      ≡ some (post_sub lib parse_nodes all_node_info)
  unfolding controller bytes_beq
  sub_controller = refl

  node_request-target :
      (verb : Verb) (path node : Bytes) → target (node_request lib verb path node) ≡ path
  node_request-target verb path node = target-set _ _ _ ∙ target-set_target _ _

  node_request-method :
      (verb : Verb) (path node : Bytes) → method (node_request lib verb path node) ≡ verb
  node_request-method verb path node =
      method-set _ _ _ ∙ method-set_target _ _ ∙ method-set_method _ _

  -- The request by which a master announces that a node of it no longer subscribes a topic is
  -- dropped by every master that it is addressed to, whatever the state.
  pub deleted_sub_ignored :
      (src node topic : Bytes) (m : InterfaceManager Request)
      → handle lib parse_nodes all_node_info
          (addressed lib src m.host_name (deleted_sub_request lib node topic))
          m
        ≡ some m
  unfolding deleted_sub_request
  deleted_sub_ignored src node topic m =
      handle-here req m (field-set_self _ _ _) ∙ rw (path, verb, no_controller) refl
    where
      req : Request
      req = addressed lib src m.host_name (deleted_sub_request lib node topic)

      path : target req ≡ codes "/node/sub"
      path =
          target-set _ _ _
          ∙ target-set _ _ _
          ∙ target-set _ _ _
          ∙ node_request-target delete (codes "/node/sub") node

      verb : method req ≡ delete
      verb =
          method-set _ _ _
          ∙ method-set _ _ _
          ∙ method-set _ _ _
          ∙ node_request-method delete (codes "/node/sub") node

  -- The request by which a master announces a subscription of a node meets, at the master that it is
  -- addressed to, the handler with just that: the sender, the node, the topic and its type.
  subscription_request-handled :
      (src node topic type : Bytes) (m : InterfaceManager Request)
      → handle lib parse_nodes all_node_info
          (addressed lib src m.host_name (subscription_request lib node topic type))
          m
        ≡ learn_sub src node topic type m
  unfolding subscription_request post_sub
  subscription_request-handled src node topic type m =
      handle-here req m (field-set_self _ _ _)
      ∙ rw (path, verb, sub_controller) (rw (from, its_node, its_topic, its_type) refl)
    where
      req : Request
      req = addressed lib src m.host_name (subscription_request lib node topic type)

      path : target req ≡ codes "/node/sub"
      path =
          target-set _ _ _
          ∙ target-set _ _ _
          ∙ target-set _ _ _
          ∙ target-set _ _ _
          ∙ node_request-target post (codes "/node/sub") node

      verb : method req ≡ post
      verb =
          method-set _ _ _
          ∙ method-set _ _ _
          ∙ method-set _ _ _
          ∙ method-set _ _ _
          ∙ node_request-method post (codes "/node/sub") node

      from : field req (codes "src") ≡ src
      from = field-set_other _ _ _ _ (ground arith) ∙ field-set_self _ _ _

      its_type : field req (codes "type") ≡ type
      its_type =
          field-set_other _ _ _ _ (ground arith)
          ∙ field-set_other _ _ _ _ (ground arith)
          ∙ field-set_self _ _ _

      its_topic : field req (codes "sub") ≡ topic
      its_topic =
          field-set_other _ _ _ _ (ground arith)
          ∙ field-set_other _ _ _ _ (ground arith)
          ∙ field-set_other _ _ _ _ (ground arith)
          ∙ field-set_self _ _ _

      its_node : field req (codes "node") ≡ node
      its_node =
          field-set_other _ _ _ _ (ground arith)
          ∙ field-set_other _ _ _ _ (ground arith)
          ∙ field-set_other _ _ _ _ (ground arith)
          ∙ field-set_other _ _ _ _ (ground arith)
          ∙ field-set_self _ _ _

  -- When a master that knows the sender is addressed by the request that announces a subscription, it
  -- enters the subscription of the node, with its type, in its record of the sender, and the sender
  -- listens to the topic then, and to every other topic as before.
  pub announced_sub_learned :
      (src node topic type : Bytes) (h : Host) (m : InterfaceManager Request)
      → lookup src m.hostlist ≡ some h
      → (m' : InterfaceManager Request) × (handle lib parse_nodes all_node_info
            (addressed lib src m.host_name (subscription_request lib node topic type))
            m
          ≡ some m')
        × (lookup src m'.hostlist ≡ some (add_sub node topic type h))
        × ((t : Bytes) → listens src t m' ≡ (if topic ≟ t then true else listens src t m))
  announced_sub_learned src node topic type h m known =
      let (m', e, entered, heard) = learn_sub-listens src node topic type h m known in
      (m', subscription_request-handled src node topic type m ∙ e, entered, heard)
