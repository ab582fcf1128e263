-- ===== src/Shm/WellFormed.antt =====
-- When a MiddlewareManager of src/Master/src/MiddlewareManager.cpp is well formed, and the single
-- changes of its maps that keep it so.
use mid_napi.Prelude.{
  ◌≡◌, refl, sym, ap, subst, ◌∙◌, inl, inr, Option, none, some, List, [], ◌∷◌, ◌++◌, Bytes, arith,
  lookup, insert, erase, lookup-insert, lookup-erase, ◌≟◌, bytes_eq, beq→eq, Bool-cases,
}
use mid_napi.Http.{HttpLibrary}
use mid_napi.Registry.Manager.{InterfaceManager}
use mid_napi.Shm.{
  Endpoint, Endpoints, Node, queue_size, add_publish, add_subscribe, remove_all_publish,
  remove_all_subscribe, values, Channel, Master,
}
use mid_napi.Shm.Library.{SharedLibrary}
use mid_napi.Shm.Controllers.{new_endpoint, with_publish, with_subscribe, without_node}
use mid_napi.Shm.Agreement.{
  Agrees, own, insert-Agrees, next-Agrees, enter-Agrees, leave_each-Agrees,
}

abbrev pub publishes_of : Node → Endpoints
publishes_of n = n.publishes

abbrev pub subscribes_of : Node → Endpoints
subscribes_of n = n.subscribes

-- A node stands under its own name.
abbrev pub NamesAgree : List (Bytes × Option Node) → Type 0
NamesAgree nodes = (node : Bytes) (n : Node) → lookup node nodes ≡ some (some n) → n.name ≡ node

values-insert :
    (e : Endpoint) (es : Endpoints)
    → lookup e.topic es ≡ none
    → values (insert e.topic e es) ≡ values es ++ e ∷ []
unfolding values
values-insert e [] h = refl
values-insert e ((topic, x) ∷ es) h = elim (Bool-cases (topic ≟ e.topic)) [
  | inl g ↦ absurd (ground (arith, g, h))
  | inr g ↦ rw g (ap (◌∷◌ x) (values-insert e es (ground (arith, g, h))))
]

abbrev pub NameIs : Bytes → Option Node → Type 0
NameIs node none = Unit
NameIs node (some n) = n.name ≡ node

pub insert-NamesAgree :
    (node : Bytes) (o : Option Node) (nodes : List (Bytes × Option Node))
    → NameIs node o
    → NamesAgree nodes
    → NamesAgree (insert node o nodes)
insert-NamesAgree node o nodes h a name n l =
    let found = sym (lookup-insert node name o nodes) ∙ l in
    elim (Bool-cases (node ≟ name)) [
      | inl g ↦
          subst (NameIs node) {x = o} {y = some n} (ground (arith, g, found)) h ∙ beq→eq node name g
      | inr g ↦ a name n (ground (arith, g, found))
    ]

pub erase-NamesAgree :
    (node : Bytes) (nodes : List (Bytes × Option Node))
    → NamesAgree nodes
    → NamesAgree (erase node nodes)
erase-NamesAgree node nodes a name n l =
    let found = sym (lookup-erase node name nodes) ∙ l in a name n (ground (arith, found))

module _ (http : HttpLibrary) (lib : SharedLibrary queue_size) where
  open http use {Request}

  -- The tables of the topics and those of the nodes agree, no object is entered twice, and each node
  -- stands under its name.
  pub record IsWellFormed (m : Master lib Request) : Type 0 where
    pub names : NamesAgree m.nodes
    pub pubs : Agrees publishes_of m.nodes m.publishes m.next_id
    pub subs : Agrees subscribes_of m.nodes m.subscribes m.next_id

  -- A node without objects, or a null pointer, where there was no entry.
  pub insert_new-IsWellFormed :
      (node : Bytes) (o : Option Node) (i : InterfaceManager Request) (m : Master lib Request)
      → NameIs node o
      → own publishes_of (some o) ≡ []
      → own subscribes_of (some o) ≡ []
      → lookup node m.nodes ≡ none
      → IsWellFormed m
      → IsWellFormed (record m { nodes = insert node o m.nodes; interface = i })
  insert_new-IsWellFormed node o i m named no_pubs no_subs e w = record {
    names = insert-NamesAgree node o m.nodes named w.names;
    pubs =
        insert-Agrees publishes_of node o m.nodes m.publishes m.next_id
          (no_pubs ∙ ap (own publishes_of) (sym e)) w.pubs;
    subs =
        insert-Agrees subscribes_of node o m.nodes m.subscribes m.next_id
          (no_subs ∙ ap (own subscribes_of) (sym e)) w.subs;
  }

  pub with_publish-IsWellFormed :
      (node topic type : Bytes) (n : Node) (ch : Channel lib) (i : InterfaceManager Request)
      (m : Master lib Request)
      → lookup node m.nodes ≡ some (some n)
      → lookup topic n.publishes ≡ none
      → IsWellFormed m
      → IsWellFormed
          (record (with_publish http lib node n (new_endpoint http lib topic type n m) ch m) {
            interface = i;
          })
  unfolding add_publish with_publish
  with_publish-IsWellFormed node topic type n ch i m e new w =
      let p = new_endpoint http lib topic type n m in
      record {
        names = insert-NamesAgree node (some (add_publish p n)) m.nodes (w.names node n e) w.names;
        pubs =
            enter-Agrees publishes_of node n (add_publish p n) p m.nodes m.publishes e
              (values-insert p n.publishes new) (w.names node n e) w.pubs;
        subs = next-Agrees subscribes_of _ _ _ (
            insert-Agrees subscribes_of node (some (add_publish p n)) m.nodes m.subscribes m.next_id
              (ap (own subscribes_of) (sym e)) w.subs);
      }

  pub with_subscribe-IsWellFormed :
      (node topic type : Bytes) (n : Node) (ch : Channel lib) (i : InterfaceManager Request)
      (m : Master lib Request)
      → lookup node m.nodes ≡ some (some n)
      → lookup topic n.subscribes ≡ none
      → IsWellFormed m
      → IsWellFormed
          (record (with_subscribe http lib node n (new_endpoint http lib topic type n m) ch m) {
            interface = i;
          })
  unfolding add_subscribe with_subscribe
  with_subscribe-IsWellFormed node topic type n ch i m e new w =
      let p = new_endpoint http lib topic type n m in
      record {
        names =
            insert-NamesAgree node (some (add_subscribe p n)) m.nodes (w.names node n e) w.names;
        subs =
            enter-Agrees subscribes_of node n (add_subscribe p n) p m.nodes m.subscribes e
              (values-insert p n.subscribes new) (w.names node n e) w.subs;
        pubs = next-Agrees publishes_of _ _ _ (
            insert-Agrees publishes_of node (some (add_subscribe p n)) m.nodes m.publishes m.next_id
              (ap (own publishes_of) (sym e)) w.pubs);
      }

  pub without_node-IsWellFormed :
      (node : Bytes) (n : Node) (i : InterfaceManager Request) (m : Master lib Request)
      → lookup node m.nodes ≡ some (some n)
      → IsWellFormed m
      → IsWellFormed (record (without_node http lib node n m) { interface = i })
  unfolding without_node remove_all_publish remove_all_subscribe
  without_node-IsWellFormed node n i m e w = record {
    names = erase-NamesAgree node m.nodes w.names;
    pubs = leave_each-Agrees publishes_of node n m.nodes m.publishes m.next_id e w.pubs;
    subs = leave_each-Agrees subscribes_of node n m.nodes m.subscribes m.next_id e w.subs;
  }
