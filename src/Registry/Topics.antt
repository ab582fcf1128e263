-- ===== src/Registry/Topics.antt =====
-- Who listens to a topic: `topic2host` under the handlers of
-- src/Master/src/interface/controller and Host::deleteNode of src/Master/src/interface/Host.cpp.
use mid_napi.Prelude.{
  ◌≡◌, ◌≢◌, refl, ap, inl, inr, Bool, true, false, ◌||◌, some, ◌>>=◌, List, [], ◌∷◌, ◌++◌, arith,
  Bytes, lookup, insert, lookup-insert, lookup-erase, ◌≟◌, bytes_eq, beq_refl, Bool-cases,
  if◌then◌else◌,
}
use mid_napi.Registry.{
  Host, Topic2Type, member, add_member, drop_member, keys, all_topics, delete_node, add_sub,
}
use mid_napi.Registry.Manager.{InterfaceManager, hosts_of}
use mid_napi.Registry.Controllers.{
  listen, unlisten, unlisten_each, with_host, learn_sub, delete_remote_node,
}

member-add_member :
    (x y : Bytes) (ys : List Bytes)
    → member x (add_member y ys) ≡ (if y ≟ x then true else member x ys)
member-add_member x y [] = ground arith
member-add_member x y (z ∷ ys) = ground (
  arith,
  member-add_member x y ys,
  bytes_eq.beq_iff z y,
  bytes_eq.beq_iff z x,
  bytes_eq.beq_iff y x,
)

member-drop_member :
    (x y : Bytes) (ys : List Bytes)
    → member x (drop_member y ys) ≡ (if y ≟ x then false else member x ys)
member-drop_member x y [] = ground arith
member-drop_member x y (z ∷ ys) = ground (
  arith,
  member-drop_member x y ys,
  bytes_eq.beq_iff z y,
  bytes_eq.beq_iff z x,
  bytes_eq.beq_iff y x,
)

member-append :
    (x : Bytes) (xs ys : List Bytes) → member x (xs ++ ys) ≡ (member x xs || member x ys)
member-append x [] ys = refl
member-append x (z ∷ xs) ys = ground (arith, member-append x xs ys)

hosts_of-insert :
    (topic t : Bytes) (hosts : List Bytes) (m : List (Bytes × List Bytes))
    → hosts_of t (insert topic hosts m) ≡ (if topic ≟ t then hosts else hosts_of t m)
hosts_of-insert topic t hosts m = ground (arith, lookup-insert topic t hosts m)

module _ {Request : Type 0} where
  -- Whether `host` listens to `topic`, so that messages on it are sent there.
  abbrev pub listens : Bytes → Bytes → InterfaceManager Request → Bool
  listens host topic m = member host (hosts_of topic m.topic2host)

  listens-unlisten :
      (host topic t : Bytes) (m : InterfaceManager Request)
      → listens host t (unlisten topic host m) ≡ (if topic ≟ t then false else listens host t m)
  listens-unlisten host topic t m =
      let after =
        hosts_of-insert topic t (drop_member host (hosts_of topic m.topic2host)) m.topic2host in
      let dropped = member-drop_member host host (hosts_of topic m.topic2host) in
      elim (Bool-cases (topic ≟ t)) [
        | inl hit ↦ rw (after, hit) (rw (dropped, beq_refl host))
        | inr miss ↦ rw (after, miss)
      ]

  listens-listen :
      (host topic t : Bytes) (m : InterfaceManager Request)
      → listens host t (listen topic host m) ≡ (if topic ≟ t then true else listens host t m)
  listens-listen host topic t m =
      let after =
        hosts_of-insert topic t (add_member host (hosts_of topic m.topic2host)) m.topic2host in
      let added = member-add_member host host (hosts_of topic m.topic2host) in
      elim (Bool-cases (topic ≟ t)) [
        | inl hit ↦ rw (after, hit) (rw (added, beq_refl host))
        | inr miss ↦ rw (after, miss)
      ]

  listens-unlisten_each :
      (host t : Bytes) (topics : List Bytes) (m : InterfaceManager Request)
      → listens host t (unlisten_each topics host m)
        ≡ (if member t topics then false else listens host t m)
  unfolding unlisten_each
  listens-unlisten_each host t [] m = refl
  listens-unlisten_each host t (topic ∷ topics) m = ground (
    arith,
    listens-unlisten_each host t topics (unlisten topic host m),
    listens-unlisten host topic t m,
  )

member-all_topics :
    (node topic : Bytes) (topics : Topic2Type) (m : List (Bytes × Topic2Type))
    → lookup node m ≡ some topics
    → member topic (keys topics) ≡ true
    → member topic (all_topics m) ≡ true
unfolding all_topics
member-all_topics node topic topics [] e k = cc
member-all_topics node topic topics ((n, ts) ∷ m) e k =
    ground
      (arith, member-append topic (keys ts) (all_topics m), member-all_topics node topic topics m)

module _ {Request : Type 0} where
  pub with_host-known :
      (host : Bytes) (f : Host → Host) (h : Host) (m : InterfaceManager Request)
      → lookup host m.hostlist ≡ some h
      → with_host host f m ≡ some (record m { hostlist = insert host (f h) m.hostlist })
  with_host-known host f h m e = rw (e, with_host)

  hostlist-unlisten_each :
      (host : Bytes) (topics : List Bytes) (m : InterfaceManager Request)
      → (unlisten_each topics host m).hostlist ≡ m.hostlist
  unfolding unlisten_each
  hostlist-unlisten_each host [] m = refl
  hostlist-unlisten_each host (t ∷ topics) m =
      hostlist-unlisten_each host topics (unlisten t host m)

  -- When a known host announces a subscription, it listens to that topic, its other topics stay as
  -- they were, and the record of the host has the subscription of the node.
  pub learn_sub-listens :
      (host node topic type : Bytes) (h : Host) (m : InterfaceManager Request)
      → lookup host m.hostlist ≡ some h
      → (m' : InterfaceManager Request) × (learn_sub host node topic type m ≡ some m')
        × (lookup host m'.hostlist ≡ some (add_sub node topic type h))
        × ((t : Bytes) → listens host t m' ≡ (if topic ≟ t then true else listens host t m))
  unfolding learn_sub
  learn_sub-listens host node topic type h m e =
      let known = record m { hostlist = insert host (add_sub node topic type h) m.hostlist } in
      (
        listen topic host known,
        ap (λ o. o >>= (λ m'. some (listen topic host m')))
            (with_host-known host (add_sub node topic type) h m e),
        rw (lookup-insert host host (add_sub node topic type h) m.hostlist, beq_refl host),
        λ t. listens-listen host topic t known,
      )

  -- When a node of a host is deleted, the host is struck from every topic that any of its nodes
  -- subscribes: a topic of another node, whose subscription stays in the record of the host, is
  -- no longer listened to.
  pub delete_remote_node-unlistens :
      (host node other topic : Bytes) (topics : Topic2Type) (h : Host)
      (m : InterfaceManager Request)
      → lookup host m.hostlist ≡ some h
      → lookup other h.node2subtopic2type ≡ some topics
      → member topic (keys topics) ≡ true
      → node ≢ other
      → (m' : InterfaceManager Request) × (delete_remote_node host node m ≡ some m')
        × (lookup host m'.hostlist ≡ some (delete_node node h).0)
        × (lookup other (delete_node node h).0.node2subtopic2type ≡ some topics)
        × (listens host topic m' ≡ false)
  unfolding delete_node delete_remote_node unlisten_each
  delete_remote_node-unlistens host node other topic topics h m e s k n =
      let (h', ts) = delete_node node h in
      let known = record m { hostlist = insert host h' m.hostlist } in
      let kept = hostlist-unlisten_each host ts known in
      let struck = listens-unlisten_each host topic ts known in
      let subscribed = member-all_topics other topic topics h.node2subtopic2type s k in
      (
        unlisten_each ts host known,
        rw (e, delete_remote_node),
        rw (kept, lookup-insert host host h' m.hostlist, beq_refl host),
        rw (lookup-erase node other h.node2subtopic2type)
            (ground (arith, s, bytes_eq.beq_iff node other)),
        rw (struck, subscribed),
      )
