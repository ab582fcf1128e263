-- ===== src/Client/Requests.antt =====
-- What the requests of the client library, src/Node, make the master do: they meet the controllers of
-- src/Master/src/shm/controller.
use mid_napi.Prelude.{
  ◌≡◌, ◌≢◌, refl, ap, ◌∙◌, some, ◌>>=◌, arith, Bytes, codes, bytes_eq, bytes_beq,
}
use mid_napi.Http.{Verb, post, delete, lower, HttpLibrary}
use mid_napi.Registry.Manager.{new_request}
use mid_napi.Shm.{queue_size, Master}
use mid_napi.Shm.Library.{SharedLibrary}
use mid_napi.Shm.Answers.{TextLibrary}
use mid_napi.Shm.Controllers.{
  RunResults, add_local_node, add_local_pub, add_local_sub, delete_local_node,
}
use mid_napi.Shm.Router.{
  Handler, answered, handle_node_post, handle_node_delete, handle_pub_post, handle_sub_post,
  local_controller, handle_local,
}
use mid_napi.Client.{node_post, node_delete, publisher_post, subscriber_post}

module _ (http : HttpLibrary) (lib : SharedLibrary queue_size) (texts : TextLibrary) where
  open http use {
    Request, method, target, field, set, prepare_payload, method-set, target-set, field-set_self,
    field-set_other, method-set_method, target-set_target, method-set_target, field-prepare_payload,
    method-prepare_payload, target-prepare_payload,
  }

  node_controller :
      (local_controller http lib texts (codes "/node") post
        ≡ some (handle_node_post http lib texts))
      × (local_controller http lib texts (codes "/node") delete
          ≡ some (handle_node_delete http lib texts))
  unfolding local_controller bytes_beq
  node_controller = (refl, refl)

  pub_controller :
      (local_controller http lib texts (codes "/node/pub") post
        ≡ some (handle_pub_post http lib texts))
      × (local_controller http lib texts (codes "/node/sub") post
          ≡ some (handle_sub_post http lib texts))
  unfolding local_controller bytes_beq
  pub_controller = (refl, refl)

  new_request-target : (verb : Verb) (path : Bytes) → target (new_request http verb path) ≡ path
  new_request-target verb path = target-set_target _ _

  new_request-method : (verb : Verb) (path : Bytes) → method (new_request http verb path) ≡ verb
  new_request-method verb path = method-set_target _ _ ∙ method-set_method _ _

  handle_local-finds :
      (r : RunResults http lib) (req : Request) (m : Master lib Request) (path : Bytes)
      (verb : Verb) (f : Handler http lib texts)
      → target req ≡ path
      → method req ≡ verb
      → local_controller http lib texts path verb ≡ some f
      → handle_local http lib texts r req m ≡ f r req m
  unfolding handle_local
  handle_local-finds r req m path verb f p v c =
      let found : local_controller http lib texts (target req) (method req) ≡ some f =
        ap (λ x. local_controller http lib texts x (method req)) p
        ∙ ap (local_controller http lib texts path) v
        ∙ c in
      rw (found, handle_local) refl

  -- The requests of a publisher and of a subscriber, by the path and the name of the topic's field.
  abbrev endpoint_post : Bytes → Bytes → Bytes → Bytes → Bytes → Bytes → Request
  endpoint_post path key node topic fd type = prepare_payload (
      set (codes "type") type (
        set (codes "eventfd") fd
          (set (codes "node") node (set key topic (new_request http post path)))))

  -- What is read from them.
  record IsPost (req : Request) (path key node topic fd type : Bytes) : Type 0 where
    its_path : target req ≡ path
    its_verb : method req ≡ post
    its_fd : field req (codes "eventfd") ≡ fd
    its_node : field req (codes "node") ≡ node
    its_topic : field req key ≡ topic
    its_type : field req (codes "type") ≡ type

  endpoint_post-IsPost :
      (path key node topic fd type : Bytes)
      → lower key ≢ lower (codes "Content-Length")
      → lower key ≢ lower (codes "Transfer-Encoding")
      → lower (codes "type") ≢ lower key
      → lower (codes "eventfd") ≢ lower key
      → lower (codes "node") ≢ lower key
      → IsPost (endpoint_post path key node topic fd type) path key node topic fd type
  endpoint_post-IsPost path key node topic fd type l e t f n = record {
    its_path =
        target-prepare_payload _
        ∙ target-set _ _ _
        ∙ target-set _ _ _
        ∙ target-set _ _ _
        ∙ target-set _ _ _
        ∙ target-set_target _ _;
    its_verb =
        method-prepare_payload _
        ∙ method-set _ _ _
        ∙ method-set _ _ _
        ∙ method-set _ _ _
        ∙ method-set _ _ _
        ∙ method-set_target _ _
        ∙ method-set_method _ _;
    its_fd =
        field-prepare_payload _ _ (ground arith) (ground arith)
        ∙ field-set_other _ _ _ _ (ground arith)
        ∙ field-set_self _ _ _;
    its_node =
        field-prepare_payload _ _ (ground arith) (ground arith)
        ∙ field-set_other _ _ _ _ (ground arith)
        ∙ field-set_other _ _ _ _ (ground arith)
        ∙ field-set_self _ _ _;
    its_topic =
        field-prepare_payload _ _ l e
        ∙ field-set_other _ _ _ _ t
        ∙ field-set_other _ _ _ _ f
        ∙ field-set_other _ _ _ _ n
        ∙ field-set_self _ _ _;
    its_type = field-prepare_payload _ _ (ground arith) (ground arith) ∙ field-set_self _ _ _;
  }

  publisher_post-handled :
      (r : RunResults http lib) (node topic fd type : Bytes) (m : Master lib Request)
      → handle_local http lib texts r (publisher_post http node topic fd type) m ≡ (
          texts.stoi fd >>= λ n.
          answered http lib texts (add_local_pub http lib r node topic type m))
  unfolding publisher_post handle_pub_post
  publisher_post-handled r node topic fd type m =
      let p =
        endpoint_post-IsPost (codes "/node/pub") (codes "pub") node topic fd type (ground arith)
          (ground arith) (ground arith) (ground arith) (ground arith) in
      handle_local-finds r (publisher_post http node topic fd type) m _ _ _ p.its_path p.its_verb
        pub_controller.0
      ∙ rw (p.its_fd, p.its_node, p.its_topic, p.its_type) refl

  subscriber_post-handled :
      (r : RunResults http lib) (node topic fd type : Bytes) (m : Master lib Request)
      → handle_local http lib texts r (subscriber_post http node topic fd type) m ≡ (
          texts.stoi fd >>= λ n.
          answered http lib texts (add_local_sub http lib r node topic type m))
  unfolding subscriber_post handle_sub_post
  subscriber_post-handled r node topic fd type m =
      let p =
        endpoint_post-IsPost (codes "/node/sub") (codes "sub") node topic fd type (ground arith)
          (ground arith) (ground arith) (ground arith) (ground arith) in
      handle_local-finds r (subscriber_post http node topic fd type) m _ _ _ p.its_path p.its_verb
        pub_controller.1
      ∙ rw (p.its_fd, p.its_node, p.its_topic, p.its_type) refl

  node_post-handled :
      (r : RunResults http lib) (name pid : Bytes) (m : Master lib Request)
      → handle_local http lib texts r (node_post http name pid) m
        ≡ (texts.stoi pid >>= λ n. answered http lib texts (add_local_node http lib name n m))
  unfolding node_post handle_node_post
  node_post-handled r name pid m =
      handle_local-finds r req m _ _ _
        (target-prepare_payload _ ∙ target-set _ _ _ ∙ target-set _ _ _ ∙ target-set_target _ _)
        (method-prepare_payload _
          ∙ method-set _ _ _
          ∙ method-set _ _ _
          ∙ method-set_target _ _
          ∙ method-set_method _ _)
        node_controller.0
      ∙ rw (its_pid, its_name) refl
    where
      req : Request
      req = node_post http name pid

      its_pid : field req (codes "pid") ≡ pid
      its_pid = field-prepare_payload _ _ (ground arith) (ground arith) ∙ field-set_self _ _ _

      its_name : field req (codes "node") ≡ name
      its_name =
          field-prepare_payload _ _ (ground arith) (ground arith)
          ∙ field-set_other _ _ _ _ (ground arith)
          ∙ field-set_self _ _ _

  node_delete-handled :
      (r : RunResults http lib) (name : Bytes) (m : Master lib Request)
      → handle_local http lib texts r (node_delete http name) m
        ≡ answered http lib texts (delete_local_node http lib name m)
  unfolding node_delete handle_node_delete
  node_delete-handled r name m =
      handle_local-finds r (node_delete http name) m _ _ _
        (target-prepare_payload _ ∙ target-set _ _ _ ∙ target-set_target _ _)
        (method-prepare_payload _
          ∙ method-set _ _ _
          ∙ method-set_target _ _
          ∙ method-set_method _ _)
        node_controller.1
      ∙ rw its_name refl
    where
      its_name : field (node_delete http name) (codes "node") ≡ name
      its_name = field-prepare_payload _ _ (ground arith) (ground arith) ∙ field-set_self _ _ _

  -- The requests of the client library make the master do what they are for, with the name of the
  -- node, the topic and its type as the client gave them: those by which a node, a publisher and a
  -- subscriber start, if the number is read as one, and the one by which a node ends.
  pub client_requests-handled :
      (r : RunResults http lib) (node topic type number : Bytes) (m : Master lib Request)
      → (handle_local http lib texts r (node_post http node number) m
          ≡ (texts.stoi number >>= λ n. answered http lib texts (add_local_node http lib node n m)))
        × (handle_local http lib texts r (publisher_post http node topic number type) m ≡ (
            texts.stoi number >>= λ n.
            answered http lib texts (add_local_pub http lib r node topic type m)))
        × (handle_local http lib texts r (subscriber_post http node topic number type) m ≡ (
            texts.stoi number >>= λ n.
            answered http lib texts (add_local_sub http lib r node topic type m)))
        × (handle_local http lib texts r (node_delete http node) m
            ≡ answered http lib texts (delete_local_node http lib node m))
  client_requests-handled r node topic type number m = (
    node_post-handled r node number m,
    publisher_post-handled r node topic number type m,
    subscriber_post-handled r node topic number type m,
    node_delete-handled r node m,
  )
