-- ===== src/Shm/Agreement.antt =====
-- The nodes of src/Master/src/MiddlewareManager.hpp agree with its tables of topics: a node has an
-- object for a topic just when the object stands under that topic.
use mid_napi.Prelude.{
  ℕ, ◌+◌, ◌<◌, ◌≡◌, refl, sym, ap, ◌∙◌, Bool, true, false, not, ◌&&◌, ◌||◌, Option, none, some,
  List, [], ◌∷◌, ◌++◌, Bytes, arith, lookup, insert, erase, lookup-insert, lookup-erase, ◌==◌, ◌≟◌,
  bytes_eq, beq→eq, beq_refl, if◌then◌else◌, if_either,
}
use mid_napi.Shm.{Endpoint, Endpoints, Node, values, endpoints_of, enter}
use mid_napi.Shm.Controllers.{leave_each}
use mid_napi.Shm.Delivery.{has_id, AreDistinct}
use mid_napi.Shm.Tables.{
  has_from, has_for, has_id-append, has_for-append, has_from-leave_each, leave_each_keeps,
  endpoints_of-enter, has_from-enter, if_key, without-AreDistinct, append-AreDistinct, one_owner,
  has_id-without,
}

-- The objects of one kind that an entry of the nodes has.
abbrev pub own : (Node → Endpoints) → Option (Option Node) → List Endpoint
own kind none = []
own kind (some none) = []
own kind (some (some n)) = values (kind n)

-- `kind` is the publishers or the subscribers of a node, `table` those of each topic, and `next` the
-- number of the next object.
pub record Agrees (kind : Node → Endpoints) (nodes : List (Bytes × Option Node))
    (table : List (Bytes × List Endpoint)) (next : ℕ) : Type 0 where
  pub matches :
      (node topic : Bytes) (i : ℕ)
      → has_from node i (endpoints_of topic table) ≡ has_for topic i (own kind (lookup node nodes))
  pub distinct : (topic : Bytes) → AreDistinct (endpoints_of topic table)
  pub fresh : (topic : Bytes) (i : ℕ) → has_id i (endpoints_of topic table) ≡ true → i < next

own-if :
    (kind : Node → Endpoints) (b : Bool) (x y : Option (Option Node))
    → own kind (if b then x else y) ≡ (if b then own kind x else own kind y)
own-if kind true x y = refl
own-if kind false x y = refl

own-insert :
    (kind : Node → Endpoints) (node name : Bytes) (o : Option Node)
    (nodes : List (Bytes × Option Node))
    → own kind (lookup name (insert node o nodes))
      ≡ (if node ≟ name then own kind (some o) else own kind (lookup name nodes))
own-insert kind node name o nodes =
    ap (own kind) (lookup-insert node name o nodes)
    ∙ own-if kind (node ≟ name) (some o) (lookup name nodes)

own-erase :
    (kind : Node → Endpoints) (node name : Bytes) (nodes : List (Bytes × Option Node))
    → own kind (lookup name (erase node nodes))
      ≡ (if node ≟ name then [] else own kind (lookup name nodes))
own-erase kind node name nodes =
    ap (own kind) (lookup-erase node name nodes)
    ∙ own-if kind (node ≟ name) none (lookup name nodes)

-- An entry that has the same objects as the one before it changes nothing.
pub insert-Agrees :
    (kind : Node → Endpoints) (node : Bytes) (o : Option Node) (nodes : List (Bytes × Option Node))
    (table : List (Bytes × List Endpoint)) (next : ℕ)
    → own kind (some o) ≡ own kind (lookup node nodes)
    → Agrees kind nodes table next
    → Agrees kind (insert node o nodes) table next
insert-Agrees kind node o nodes table next same a = record {
  matches = λ name topic i.
      a.matches name topic i
      ∙ ap (has_for topic i) (
          sym (
            own-insert kind node name o nodes
            ∙ if_key node name (own kind (some o)) (λ x. own kind (lookup x nodes))
                (λ x. own kind (lookup x nodes)) same (λ h. refl)));
  distinct = a.distinct;
  fresh = a.fresh;
}

-- More numbers in use.
pub next-Agrees :
    (kind : Node → Endpoints) (nodes : List (Bytes × Option Node))
    (table : List (Bytes × List Endpoint)) (next : ℕ)
    → Agrees kind nodes table next
    → Agrees kind nodes table (next + 1)
next-Agrees kind nodes table next a = record {
  matches = a.matches;
  distinct = a.distinct;
  fresh = λ topic i h. omega (arith, a.fresh topic i h);
}

-- The objects of the nodes after one was added to a node.
has_for-insert :
    (kind : Node → Endpoints) (node name topic : Bytes) (i : ℕ) (n n' : Node) (e : Endpoint)
    (nodes : List (Bytes × Option Node))
    → lookup node nodes ≡ some (some n)
    → values (kind n') ≡ values (kind n) ++ e ∷ []
    → has_for topic i (own kind (lookup name (insert node (some n') nodes))) ≡ (
        has_for topic i (own kind (lookup name nodes))
        || (node ≟ name && (e.topic ≟ topic && e.id == i)))
has_for-insert kind node name topic i n n' e nodes found grown =
    ap (has_for topic i) (own-insert kind node name (some n') nodes)
    ∙ ap (has_for topic i) (
        if_key node name (values (kind n')) (λ x. own kind (lookup x nodes))
          (λ x. if node ≟ x then own kind (lookup x nodes) ++ e ∷ [] else own kind (lookup x nodes))
          (rw (beq_refl node) (grown ∙ ap (λ o. own kind o ++ e ∷ []) (sym found)))
          (λ h. rw h refl))
    ∙ added (node ≟ name)
  where
    added :
        (b : Bool)
        → has_for topic i
            (if b then own kind (lookup name nodes) ++ e ∷ [] else own kind (lookup name nodes))
          ≡ (has_for topic i (own kind (lookup name nodes))
              || (b && (e.topic ≟ topic && e.id == i)))
    added true = has_for-append topic i (own kind (lookup name nodes)) e
    added false = ground arith

pub enter-Agrees :
    (kind : Node → Endpoints) (node : Bytes) (n n' : Node) (e : Endpoint)
    (nodes : List (Bytes × Option Node)) (table : List (Bytes × List Endpoint))
    → lookup node nodes ≡ some (some n)
    → values (kind n') ≡ values (kind n) ++ e ∷ []
    → e.node_name ≡ node
    → Agrees kind nodes table e.id
    → Agrees kind (insert node (some n') nodes) (enter e table) (e.id + 1)
enter-Agrees kind node n n' e nodes table found grown owner a = record {
  matches = λ name topic i.
      rw
        (
          has_from-enter name topic i e table,
          has_for-insert kind node name topic i n n' e nodes found grown,
          a.matches name topic i,
          owner,
        )
        (ground arith);
  distinct = λ topic. rw (endpoints_of-enter topic e table) (
      if_either AreDistinct (e.topic ≟ topic) (endpoints_of topic table ++ e ∷ [])
        (endpoints_of topic table)
        (append-AreDistinct (endpoints_of topic table) e (a.distinct topic)
          (ground (arith, a.fresh topic e.id)))
        (a.distinct topic));
  fresh = λ topic i. rw (endpoints_of-enter topic e table) (
      if_either (λ es. has_id i es ≡ true → i < e.id + 1) (e.topic ≟ topic)
        (endpoints_of topic table ++ e ∷ []) (endpoints_of topic table)
        (λ h. ground (arith, a.fresh topic i, has_id-append i (endpoints_of topic table) e))
        (λ h. omega (arith, a.fresh topic i h)));
}

and_not : (b : Bool) → (b && not b) ≡ false
and_not true = refl
and_not false = refl

pub leave_each-Agrees :
    (kind : Node → Endpoints) (node : Bytes) (n : Node) (nodes : List (Bytes × Option Node))
    (table : List (Bytes × List Endpoint)) (next : ℕ)
    → lookup node nodes ≡ some (some n)
    → Agrees kind nodes table next
    → Agrees kind (erase node nodes) (leave_each (values (kind n)) table) next
leave_each-Agrees kind node n nodes table next found a = record {
  matches = λ name topic i. left_objects name topic i;
  distinct = leave_each_keeps AreDistinct (values (kind n)) table without-AreDistinct a.distinct;
  fresh = λ topic i.
      leave_each_keeps (λ es. has_id i es ≡ true → i < next) (values (kind n)) table
        (λ k es h g. ground (arith, h, has_id-without i k es)) (λ t. a.fresh t i) topic;
}
  where
    -- The objects of the deleted node under a topic.
    deleted :
        (topic : Bytes) (i : ℕ)
        → has_for topic i (values (kind n)) ≡ has_from node i (endpoints_of topic table)
    deleted topic i = sym (a.matches node topic i ∙ ap (λ o. has_for topic i (own kind o)) found)

    left_of :
        (name topic : Bytes) (i : ℕ) (b : Bool)
        → (node ≟ name) ≡ b
        → (has_from name i (endpoints_of topic table)
            && not (has_from node i (endpoints_of topic table)))
          ≡ has_for topic i (if b then [] else own kind (lookup name nodes))
    left_of name topic i true h =
        ap
          (λ x.
            has_from x i (endpoints_of topic table)
            && not (has_from node i (endpoints_of topic table)))
          (sym (beq→eq node name h))
        ∙ and_not (has_from node i (endpoints_of topic table))
    left_of name topic i false h = ground (
      arith,
      one_owner name node i (endpoints_of topic table) (a.distinct topic),
      a.matches name topic i,
      bytes_eq.beq_iff node name,
    )

    left_objects :
        (name topic : Bytes) (i : ℕ)
        → has_from name i (endpoints_of topic (leave_each (values (kind n)) table))
          ≡ has_for topic i (own kind (lookup name (erase node nodes)))
    left_objects name topic i =
        has_from-leave_each name topic i (values (kind n)) table
        ∙ ap (λ b. has_from name i (endpoints_of topic table) && not b) (deleted topic i)
        ∙ left_of name topic i (node ≟ name) refl
        ∙ ap (has_for topic i) (sym (own-erase kind node name nodes))
