-- ===== src/Shm/Invariant.antt =====
-- What holds of a MiddlewareManager of src/Master/src/MiddlewareManager.cpp after every request of a
-- local node and after every message.
use mid_napi.Prelude.{
  ◌≡◌, refl, subst, inl, inr, Bool, false, Option, none, some, Bytes, arith, lookup, bytes_eq,
  Bool-cases, Option-cases, codes, Holds, Holds-bind,
}
use mid_napi.Http.{HttpLibrary}
use mid_napi.Registry.Manager.{announce_node, announce_deleted_node, announce_sub, announce_pub}
use mid_napi.Shm.{
  ℤ, Node, queue_size, new_node, contains_publish, contains_subscribe, values, Master,
}
use mid_napi.Shm.Library.{SharedLibrary}
use mid_napi.Shm.Controllers.{
  RunResults, run_endpoint, add_local_node, add_local_pub, add_local_sub, delete_local_node,
}
use mid_napi.Shm.Paths.{controller_either}
use mid_napi.Shm.WellFormed.{
  IsWellFormed, insert_new-IsWellFormed, with_publish-IsWellFormed, with_subscribe-IsWellFormed,
  without_node-IsWellFormed,
}
use mid_napi.Http.{Verb}
use mid_napi.Shm.Answers.{TextLibrary, topic_answer}
use mid_napi.Shm.Router.{
  answered, Handler, handle_node_post, handle_node_get, handle_node_delete, handle_pub_post,
  handle_sub_post, handle_topic_get, handle_topic_info, local_controller, handle_local,
}

module _ (http : HttpLibrary) (lib : SharedLibrary queue_size) where
  open http use {Request}

  abbrev IsDone : Bool × Master lib Request → Type 0
  IsDone r = IsWellFormed http lib r.1

  add_local_node-Holds :
      (node : Bytes) (pid : ℤ) (m : Master lib Request)
      → IsWellFormed http lib m
      → Holds IsDone (add_local_node http lib node pid m)
  unfolding add_local_node values
  add_local_node-Holds node pid m w = elim (Option-cases (lookup node m.nodes)) [
    | inl e ↦
        rw (e, add_local_node)
          (Holds-bind IsDone (announce_node http node m.interface) _ (λ i.
            insert_new-IsWellFormed http lib node (some (new_node node pid)) i m refl refl refl e
              w))
    | inr (o, e) ↦ rw (e, add_local_node) w
  ]

  contains_publish→none :
      (topic : Bytes) (n : Node)
      → contains_publish topic n ≡ false
      → lookup topic n.publishes ≡ none
  unfolding contains_publish
  contains_publish→none topic n h = elim (Option-cases (lookup topic n.publishes)) [
    | inl e ↦ e
    | inr (p, e) ↦ absurd (ground (arith, h, e))
  ]

  contains_subscribe→none :
      (topic : Bytes) (n : Node)
      → contains_subscribe topic n ≡ false
      → lookup topic n.subscribes ≡ none
  unfolding contains_subscribe
  contains_subscribe→none topic n h = elim (Option-cases (lookup topic n.subscribes)) [
    | inl e ↦ e
    | inr (p, e) ↦ absurd (ground (arith, h, e))
  ]

  add_local_pub-Holds :
      (r : RunResults http lib) (node topic type : Bytes) (m : Master lib Request)
      → IsWellFormed http lib m
      → Holds IsDone (add_local_pub http lib r node topic type m)
  unfolding add_local_pub
  add_local_pub-Holds r node topic type m w = elim (Option-cases (lookup node m.nodes)) [
    | inl e ↦ rw (e, add_local_pub) w
    | inr (none, e) ↦ rw (e, add_local_pub) tt
    | inr (some n, e) ↦ elim (Bool-cases (contains_publish topic n)) [
      | inl c ↦ rw (e, add_local_pub, c) w
      | inr c ↦ elim (Option-cases (run_endpoint http lib r)) [
        | inl f ↦ rw (e, add_local_pub, c, f) w
        | inr (ch, f) ↦
            rw (e, add_local_pub, c, f)
              (Holds-bind IsDone (announce_pub http node topic type m.interface) _ (λ i.
                with_publish-IsWellFormed http lib node topic type n ch i m e
                  (contains_publish→none topic n c) w))
      ]
    ]
  ]

  add_local_sub-Holds :
      (r : RunResults http lib) (node topic type : Bytes) (m : Master lib Request)
      → IsWellFormed http lib m
      → Holds IsDone (add_local_sub http lib r node topic type m)
  unfolding add_local_sub
  add_local_sub-Holds r node topic type m w = elim (Option-cases (lookup node m.nodes)) [
    | inl e ↦ rw (e, add_local_sub) w
    | inr (none, e) ↦ rw (e, add_local_sub) tt
    | inr (some n, e) ↦ elim (Bool-cases (contains_subscribe topic n)) [
      | inl c ↦ rw (e, add_local_sub, c) w
      | inr c ↦ elim (Option-cases (run_endpoint http lib r)) [
        | inl f ↦ rw (e, add_local_sub, c, f) w
        | inr (ch, f) ↦
            rw (e, add_local_sub, c, f)
              (Holds-bind IsDone (announce_sub http node topic type m.interface) _ (λ i.
                with_subscribe-IsWellFormed http lib node topic type n ch i m e
                  (contains_subscribe→none topic n c) w))
      ]
    ]
  ]

  delete_local_node-Holds :
      (node : Bytes) (m : Master lib Request)
      → IsWellFormed http lib m
      → Holds IsDone (delete_local_node http lib node m)
  unfolding delete_local_node
  delete_local_node-Holds node m w = elim (Option-cases (lookup node m.nodes)) [
    | inl e ↦
        rw (e, delete_local_node)
          (insert_new-IsWellFormed http lib node none m.interface m tt refl refl e w)
    | inr (none, e) ↦ rw (e, delete_local_node) w
    | inr (some n, e) ↦
        rw (e, delete_local_node)
          (Holds-bind IsDone (announce_deleted_node http node m.interface) _
            (λ i. without_node-IsWellFormed http lib node n i m e w))
  ]

  module _ (texts : TextLibrary) where
    -- What every handler keeps.
    abbrev Keeps : Option (Handler http lib texts) → Type 0
    Keeps none = Unit
    Keeps (some f) =
        (r : RunResults http lib) (req : Request) (m : Master lib Request)
        → IsWellFormed http lib m
        → Holds (λ a. IsWellFormed http lib a.1) (f r req m)

    answered-Holds :
        (o : Option (Bool × Master lib Request))
        → Holds IsDone o
        → Holds (λ a. IsWellFormed http lib a.1) (answered http lib texts o)
    answered-Holds none h = tt
    answered-Holds (some a) h = h

    node_post-Keeps : Keeps (some (handle_node_post http lib texts))
    unfolding handle_node_post
    node_post-Keeps r req m w =
        Holds-bind _ (texts.stoi (http.field req (codes "pid"))) _
          (λ pid. answered-Holds _ (add_local_node-Holds _ pid m w))

    pub_post-Keeps : Keeps (some (handle_pub_post http lib texts))
    unfolding handle_pub_post
    pub_post-Keeps r req m w =
        Holds-bind _ (texts.stoi (http.field req (codes "eventfd"))) _
          (λ fd. answered-Holds _ (add_local_pub-Holds r _ _ _ m w))

    sub_post-Keeps : Keeps (some (handle_sub_post http lib texts))
    unfolding handle_sub_post
    sub_post-Keeps r req m w =
        Holds-bind _ (texts.stoi (http.field req (codes "eventfd"))) _
          (λ fd. answered-Holds _ (add_local_sub-Holds r _ _ _ m w))

    node_delete-Keeps : Keeps (some (handle_node_delete http lib texts))
    unfolding handle_node_delete
    node_delete-Keeps r req m w = answered-Holds _ (delete_local_node-Holds _ m w)

    node_get-Keeps : Keeps (some (handle_node_get http lib texts))
    unfolding handle_node_get
    node_get-Keeps r req m w = w

    topic_get-Keeps : Keeps (some (handle_topic_get http lib texts))
    unfolding handle_topic_get
    topic_get-Keeps r req m w = w

    topic_info-Keeps : Keeps (some (handle_topic_info http lib texts))
    unfolding handle_topic_info
    topic_info-Keeps r req m w =
        elim (Option-cases (topic_answer lib (http.field req (codes "topic")) m)) [
          | inl e ↦ rw (e, handle_topic_info) w
          | inr (info, e) ↦ rw (e, handle_topic_info) w
        ]

    controller-Keeps :
        (path : Bytes) (verb : Verb) → Keeps (local_controller http lib texts path verb)
    controller-Keeps =
        controller_either http lib texts (λ name f. Keeps f) tt node_post-Keeps node_get-Keeps
          node_delete-Keeps pub_post-Keeps sub_post-Keeps topic_get-Keeps topic_info-Keeps

    -- Every request of a local node that is answered leaves the maps well formed.
    pub handle_local-IsWellFormed :
        (r : RunResults http lib) (req : Request) (m : Master lib Request)
        → IsWellFormed http lib m
        → Holds (λ a. IsWellFormed http lib a.1) (handle_local http lib texts r req m)
    unfolding handle_local
    handle_local-IsWellFormed r req m w =
        elim (Option-cases (local_controller http lib texts (http.target req) (http.method req))) [
          | inl e ↦ rw (e, handle_local) w
          | inr (f, e) ↦
              rw (e, handle_local)
                (subst Keeps e (controller-Keeps (http.target req) (http.method req)) r req m w)
        ]
