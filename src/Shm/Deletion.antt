-- ===== src/Shm/Deletion.antt =====
-- What a deletion does: NodeController::handleDelete of src/Master/src/shm/controller/NodeController.cpp.
use mid_napi.Prelude.{
  ℕ, ◌≡◌, refl, sym, ap, ◌∙◌, inl, inr, true, false, not, ◌&&◌, Option, none, some, List, [], ◌∷◌,
  Bytes, arith, lookup, insert, lookup-insert, lookup-erase, ◌≟◌, bytes_eq, beq_refl, if_either,
  Bool-cases,
}
use mid_napi.Http.{HttpLibrary}
use mid_napi.Registry.Manager.{InterfaceManager, announce_deleted_node}
use mid_napi.Shm.{
  ℤ, Endpoint, Endpoints, Node, queue_size, values, endpoints_of, remove_all_publish,
  remove_all_subscribe, Master,
}
use mid_napi.Shm.Library.{SharedLibrary}
use mid_napi.Shm.Answers.{TextLibrary, node_infos, get_all_node_info}
use mid_napi.Shm.Controllers.{
  leave_each, RunResults, add_local_node, add_local_pub, without_node, delete_local_node,
}
use mid_napi.Shm.Tables.{has_from, has_for, has_from-leave_each, one_owner}
use mid_napi.Shm.Agreement.{Agrees, own}
use mid_napi.Shm.WellFormed.{IsWellFormed, publishes_of, subscribes_of}

has_from-left :
    (kind : Node → Endpoints) (node name topic : Bytes) (i : ℕ) (n : Node)
    (nodes : List (Bytes × Option Node)) (table : List (Bytes × List Endpoint)) (next : ℕ)
    → lookup node nodes ≡ some (some n)
    → Agrees kind nodes table next
    → has_from name i (endpoints_of topic (leave_each (values (kind n)) table))
      ≡ (has_from name i (endpoints_of topic table) && not (node ≟ name))
has_from-left kind node name topic i n nodes table next found a =
    has_from-leave_each name topic i (values (kind n)) table
    ∙ ap (λ b. has_from name i (endpoints_of topic table) && not b)
        (sym (a.matches node topic i ∙ ap (λ o. has_for topic i (own kind o)) found))
    ∙ ground (
      arith,
      one_owner name node i (endpoints_of topic table) (a.distinct topic),
      bytes_eq.beq_iff node name,
    )

node_infos-null :
    (node : Bytes) (nodes : List (Bytes × Option Node))
    → lookup node nodes ≡ none
    → node_infos (insert node none nodes) ≡ none
unfolding node_infos
node_infos-null node [] h = refl
node_infos-null node ((name, none) ∷ nodes) h =
    if_either (λ ns. node_infos ns ≡ none) (name ≟ node) ((name, none) ∷ nodes)
      ((name, none) ∷ insert node none nodes) refl refl
node_infos-null node ((name, some n) ∷ nodes) h = elim (Bool-cases (name ≟ node)) [
  | inl g ↦ rw g refl
  | inr g ↦ rw (g, node_infos-null node nodes (ground (arith, g, h))) refl
]

module _ (http : HttpLibrary) (lib : SharedLibrary queue_size) where
  open http use {Request}

  -- When a known node is deleted and the other hosts are told: it has no entry any more, and under
  -- every topic just its own publishers and subscribers are gone.
  pub delete_local_node-removes :
      (node : Bytes) (n : Node) (interface : InterfaceManager Request) (m : Master lib Request)
      → IsWellFormed http lib m
      → lookup node m.nodes ≡ some (some n)
      → announce_deleted_node http node m.interface ≡ some interface
      → (m' : Master lib Request) × (delete_local_node http lib node m ≡ some (true, m'))
        × (lookup node m'.nodes ≡ none)
        × ((name topic : Bytes) (i : ℕ)
            → (has_from name i (endpoints_of topic m'.publishes)
                ≡ (has_from name i (endpoints_of topic m.publishes) && not (node ≟ name)))
              × (has_from name i (endpoints_of topic m'.subscribes)
                  ≡ (has_from name i (endpoints_of topic m.subscribes) && not (node ≟ name))))
  unfolding delete_local_node without_node remove_all_publish remove_all_subscribe
  delete_local_node-removes node n interface m w found told = (
    record (without_node http lib node n m) { interface = interface },
    rw (found, delete_local_node, told) refl,
    lookup-erase node node m.nodes ∙ rw (beq_refl node) refl,
    λ name topic i. (
      has_from-left publishes_of node name topic i n m.nodes m.publishes m.next_id found w.pubs,
      has_from-left subscribes_of node name topic i n m.nodes m.subscribes m.next_id found w.subs,
    ),
  )

  -- A deletion of a name that no node has is refused, but it leaves a null pointer under that name:
  -- then the node cannot be added, a publisher for it dereferences the null pointer, and so does the
  -- text that other masters are told about all nodes.
  pub unknown_deletion_breaks :
      (texts : TextLibrary) (node : Bytes) (m : Master lib Request)
      → lookup node m.nodes ≡ none
      → (m' : Master lib Request) × (delete_local_node http lib node m ≡ some (false, m'))
        × ((pid : ℤ) → add_local_node http lib node pid m' ≡ some (false, m'))
        × ((r : RunResults http lib) (topic type : Bytes)
            → add_local_pub http lib r node topic type m' ≡ none)
        × (get_all_node_info lib texts m' ≡ none)
  unfolding delete_local_node add_local_node add_local_pub get_all_node_info
  unknown_deletion_breaks texts node m unknown =
      let there : lookup node (insert node none m.nodes) ≡ some none =
        lookup-insert node node none m.nodes ∙ rw (beq_refl node) refl in
      (
        record m { nodes = insert node none m.nodes },
        rw (unknown, delete_local_node) refl,
        λ pid. rw (there, add_local_node) refl,
        λ r topic type. rw (there, add_local_pub) refl,
        rw (node_infos-null node m.nodes unknown) refl,
      )
