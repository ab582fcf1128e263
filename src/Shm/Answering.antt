-- ===== src/Shm/Answering.antt =====
-- When a request of a local node is answered: UdsRouter::handle of src/Master/src/shm/UdsRouter.cpp and
-- the controllers of src/Master/src/shm/controller.
use mid_napi.Prelude.{
  ◌≡◌, ◌≢◌, refl, sym, subst, inl, inr, Bool, Option, none, some, ◌>>=◌, All, Bytes, codes, lookup,
  bytes_eq, Bool-cases, Option-cases, Holds,
}
use mid_napi.Http.{Verb, HttpLibrary}
use mid_napi.Registry.Manager.{
  InterfaceManager, host_names, broadcast, announce_node, announce_deleted_node, announce_sub,
  announce_pub,
}
use mid_napi.Registry.Delivery.{IsReachable, send_each-reachable}
use mid_napi.Shm.{ℤ, queue_size, contains_publish, contains_subscribe, Master}
use mid_napi.Shm.Library.{SharedLibrary}
use mid_napi.Shm.Answers.{TextLibrary, topic_answer}
use mid_napi.Shm.Controllers.{
  RunResults, run_endpoint, add_local_node, add_local_pub, add_local_sub, delete_local_node,
}
use mid_napi.Shm.Router.{
  Response, answered, Handler, handle_node_post, handle_node_get, handle_node_delete,
  handle_pub_post, handle_sub_post, handle_topic_get, handle_topic_info, local_controller,
  handle_local,
}
use mid_napi.Shm.WellFormed.{IsWellFormed}
use mid_napi.Shm.Invariant.{handle_local-IsWellFormed}
use mid_napi.Shm.Paths.{number_field, controller_either}

-- There is a result.
abbrev pub Returns : {A : Type 0} → Option A → Type 0
Returns {A} o = (a : A) × (o ≡ some a)

Returns-bind :
    {A B : Type 0} (o : Option A) (f : A → Option B)
    → Returns o
    → ((a : A) → Returns (f a))
    → Returns (o >>= f)
Returns-bind o f (a, e) h = subst (λ x. Returns (x >>= f)) (sym e) (h a)

module _ (http : HttpLibrary) where
  open http use {Request}

  -- Every host that is known can be reached.
  abbrev pub AreReachable : InterfaceManager Request → Type 0
  AreReachable m = All (IsReachable m.route m.interface_list) (host_names http m.hostlist)

  broadcast-Returns :
      (req : Request) (m : InterfaceManager Request)
      → AreReachable m
      → Returns (broadcast http req m)
  unfolding broadcast
  broadcast-Returns req m r = (_, send_each-reachable http (host_names http m.hostlist) _ m r)

module _ (http : HttpLibrary) (lib : SharedLibrary queue_size) where
  open http use {Request}

  -- No entry of the nodes is a null pointer, and every host that is known can be reached.
  pub record IsReady (m : Master lib Request) : Type 0 where
    pub no_null : (node : Bytes) → lookup node m.nodes ≢ some none
    pub reached : AreReachable http m.interface

  add_local_node-Returns :
      (node : Bytes) (pid : ℤ) (m : Master lib Request)
      → IsReady m
      → Returns (add_local_node http lib node pid m)
  unfolding add_local_node announce_node
  add_local_node-Returns node pid m w = elim (Option-cases (lookup node m.nodes)) [
    | inl e ↦
        rw (e, add_local_node)
          (Returns-bind (announce_node http node m.interface) _
            (broadcast-Returns http _ m.interface w.reached) (λ i. (_, refl)))
    | inr (o, e) ↦ rw (e, add_local_node) (_, refl)
  ]

  add_local_pub-Returns :
      (r : RunResults http lib) (node topic type : Bytes) (m : Master lib Request)
      → IsReady m
      → Returns (add_local_pub http lib r node topic type m)
  unfolding add_local_pub announce_pub
  add_local_pub-Returns r node topic type m w = elim (Option-cases (lookup node m.nodes)) [
    | inl e ↦ rw (e, add_local_pub) (_, refl)
    | inr (none, e) ↦ absurd (w.no_null node e)
    | inr (some n, e) ↦ elim (Bool-cases (contains_publish topic n)) [
      | inl c ↦ rw (e, add_local_pub, c) (_, refl)
      | inr c ↦ elim (Option-cases (run_endpoint http lib r)) [
        | inl f ↦ rw (e, add_local_pub, c, f) (_, refl)
        | inr (ch, f) ↦
            rw (e, add_local_pub, c, f)
              (Returns-bind (announce_pub http node topic type m.interface) _
                (broadcast-Returns http _ m.interface w.reached) (λ i. (_, refl)))
      ]
    ]
  ]

  add_local_sub-Returns :
      (r : RunResults http lib) (node topic type : Bytes) (m : Master lib Request)
      → IsReady m
      → Returns (add_local_sub http lib r node topic type m)
  unfolding add_local_sub announce_sub
  add_local_sub-Returns r node topic type m w = elim (Option-cases (lookup node m.nodes)) [
    | inl e ↦ rw (e, add_local_sub) (_, refl)
    | inr (none, e) ↦ absurd (w.no_null node e)
    | inr (some n, e) ↦ elim (Bool-cases (contains_subscribe topic n)) [
      | inl c ↦ rw (e, add_local_sub, c) (_, refl)
      | inr c ↦ elim (Option-cases (run_endpoint http lib r)) [
        | inl f ↦ rw (e, add_local_sub, c, f) (_, refl)
        | inr (ch, f) ↦
            rw (e, add_local_sub, c, f)
              (Returns-bind (announce_sub http node topic type m.interface) _
                (broadcast-Returns http _ m.interface w.reached) (λ i. (_, refl)))
      ]
    ]
  ]

  delete_local_node-Returns :
      (node : Bytes) (m : Master lib Request)
      → IsReady m
      → Returns (delete_local_node http lib node m)
  unfolding delete_local_node announce_deleted_node
  delete_local_node-Returns node m w = elim (Option-cases (lookup node m.nodes)) [
    | inl e ↦ rw (e, delete_local_node) (_, refl)
    | inr (none, e) ↦ rw (e, delete_local_node) (_, refl)
    | inr (some n, e) ↦
        rw (e, delete_local_node)
          (Returns-bind (announce_deleted_node http node m.interface) _
            (broadcast-Returns http _ m.interface w.reached) (λ i. (_, refl)))
  ]

  module _ (texts : TextLibrary) where
    -- The field with this name, if there is one, is a number.
    abbrev pub IsNumber : Option Bytes → Request → Type 0
    IsNumber none req = Unit
    IsNumber (some name) req = Returns (texts.stoi (http.field req name))

    -- The field that the handler of this request reads as a number, if it reads one, is a number.
    abbrev pub HasNumbers : Request → Type 0
    HasNumbers req = IsNumber (number_field (http.target req) (http.method req)) req

    abbrev Replies : Option Bytes → Option (Handler http lib texts) → Type 0
    Replies name none = Unit
    Replies name (some f) =
        (r : RunResults http lib) (req : Request) (m : Master lib Request)
        → IsNumber name req
        → IsReady m
        → Returns (f r req m)

    answered-Returns :
        (o : Option (Bool × Master lib Request)) → Returns o → Returns (answered http lib texts o)
    answered-Returns o h = Returns-bind o _ h (λ a. (_, refl))

    topic_info-Replies : Replies none (some (handle_topic_info http lib texts))
    unfolding handle_topic_info
    topic_info-Replies r req m n w =
        elim (Option-cases (topic_answer lib (http.field req (codes "topic")) m)) [
          | inl e ↦ rw (e, handle_topic_info) (_, refl)
          | inr (info, e) ↦ rw (e, handle_topic_info) (_, refl)
        ]

    controller-Replies :
        (path : Bytes) (verb : Verb)
        → Replies (number_field path verb) (local_controller http lib texts path verb)
    unfolding handle_node_post handle_node_get handle_node_delete handle_pub_post handle_sub_post
        handle_topic_get
    controller-Replies =
        controller_either http lib texts Replies tt
          (λ r req m n w.
            Returns-bind _ _ n (λ pid. answered-Returns _ (add_local_node-Returns _ pid m w)))
          (λ r req m n w. (_, refl))
          (λ r req m n w. answered-Returns _ (delete_local_node-Returns _ m w))
          (λ r req m n w.
            Returns-bind _ _ n (λ fd. answered-Returns _ (add_local_pub-Returns r _ _ _ m w)))
          (λ r req m n w.
            Returns-bind _ _ n (λ fd. answered-Returns _ (add_local_sub-Returns r _ _ _ m w)))
          (λ r req m n w. (_, refl)) topic_info-Replies

    -- While no entry of the nodes is a null pointer and every known host can be reached, each request is
    -- answered, whatever its path and whatever the system calls return, and well-formed maps stay so, if
    -- the one field that its handler reads as a number is one: "pid" of a POST to /node, and "eventfd" of
    -- a POST to /node/pub or /node/sub. Other requests need no number.
    pub handle_local-answers :
        (r : RunResults http lib) (req : Request) (m : Master lib Request)
        → HasNumbers req
        → IsReady m
        → IsWellFormed http lib m
        → (a : Response × Master lib Request) × (handle_local http lib texts r req m ≡ some a)
          × IsWellFormed http lib a.1
    unfolding handle_local
    handle_local-answers r req m n ready w =
        let (a, e) = reply in
        (
          a,
          e,
          subst (Holds (λ b. IsWellFormed http lib b.1)) e
              (handle_local-IsWellFormed http lib texts r req m w),
        )
      where
        reply : Returns (handle_local http lib texts r req m)
        reply =
            elim (Option-cases
              (local_controller http lib texts (http.target req) (http.method req))) [
                | inl e ↦ rw (e, handle_local) (_, refl)
                | inr (f, e) ↦
                    rw (e, handle_local)
                      (subst (Replies (number_field (http.target req) (http.method req))) e
                        (controller-Replies (http.target req) (http.method req)) r req m n ready)
              ]
