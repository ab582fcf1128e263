-- ===== src/Registry/Delivery.antt =====
-- Where requests go: InterfaceManager::broadcast and publish of src/Master/src/InterfaceManager.cpp.
use mid_napi.Prelude.{
  ◌≡◌, refl, sym, ap, ◌⊎◌, ◌∙◌, inl, inr, true, ◌||◌, none, some, ◌>>=◌, List, [], ◌∷◌, ◌++◌, All,
  Bytes, codes, lookup, ◌≟◌, bytes_eq, beq→eq, Bool-cases, Option-cases, append_assoc, append-nil,
}
use mid_napi.Http.{HttpLibrary}
use mid_napi.Registry.{member}
use mid_napi.Registry.Manager.{
  InterfaceManager, hop_in, hosts_of, send_via, send_to, send_each, host_names, broadcast, publish,
  publish_request, touched,
}

-- The route of a host leads through an interface that has the next one in its table.
pub record IsReachable (route : List (Bytes × (Bytes × Bytes)))
    (interfaces : List (Bytes × List Bytes)) (host : Bytes) : Type 0 where
  pub attached : List Bytes
  pub listed : lookup (hop_in host route).0 interfaces ≡ some attached
  pub joined : member (hop_in host route).1 attached ≡ true

abbrev pub sent :
    {Request : Type 0}
    → List (Bytes × (Bytes × Request))
    → InterfaceManager Request
    → InterfaceManager Request
sent out m = record m { outbox = m.outbox ++ out }

module _ {Request : Type 0} where
  send_to-reachable :
      (host : Bytes) (req : Request) (m : InterfaceManager Request)
      → IsReachable m.route m.interface_list host
      → send_to host req m
        ≡ some (sent (((hop_in host m.route).0, ((hop_in host m.route).1, req)) ∷ []) m)
  unfolding send_via
  send_to-reachable host req m r = rw (r.listed, send_via, r.joined) refl

  send_via-cases :
      (name next : Bytes) (req : Request) (m : InterfaceManager Request)
      → (send_via name next req m ≡ none)
        ⊎ (send_via name next req m ≡ some (sent ((name, (next, req)) ∷ []) m))
  unfolding send_via
  send_via-cases name next req m = elim (Option-cases (lookup name m.interface_list)) [
    | inl e ↦ inl (rw (e, send_via) refl)
    | inr (attached, e) ↦ elim (Bool-cases (member next attached)) [
      | inl j ↦ inr (rw (e, send_via, j) refl)
      | inr j ↦ inl (rw (e, send_via, j) refl)
    ]
  ]

  send_to-unrouted :
      (host : Bytes) (req : Request) (m : InterfaceManager Request)
      → lookup host m.route ≡ none
      → lookup [] m.interface_list ≡ none
      → send_to host req m ≡ none
  unfolding send_via
  send_to-unrouted host req m r i =
      let hop : hop_in host m.route ≡ ([], []) = rw (r, hop_in) refl in
      ap (λ p. send_via p.0 p.1 req m) hop ∙ rw (i, send_via) refl

module _ (lib : HttpLibrary) where
  open lib use {Request, set}

  -- One request for each host, to the next interface on its route.
  abbrev pub requests_to :
      List Bytes → Request → List (Bytes × (Bytes × Bytes)) → List (Bytes × (Bytes × Request))
  requests_to [] req route = []
  requests_to (host ∷ hosts) req route =
      ((hop_in host route).0, ((hop_in host route).1, set (codes "dest") host req))
      ∷ requests_to hosts (set (codes "dest") host req) route

  pub send_each-reachable :
      (hosts : List Bytes) (req : Request) (m : InterfaceManager Request)
      → All (IsReachable m.route m.interface_list) hosts
      → send_each lib hosts req m ≡ some (sent (requests_to hosts req m.route) m)
  unfolding send_each
  send_each-reachable [] req m r =
      ap (λ o. some (record m { outbox = o })) (sym (append-nil m.outbox))
  send_each-reachable (host ∷ hosts) req m (r, rs) =
      let req' = set (codes "dest") host req in
      let first = ((hop_in host m.route).0, ((hop_in host m.route).1, req')) ∷ [] in
      ap (λ o. o >>= send_each lib hosts req') (send_to-reachable host req' m r)
      ∙ send_each-reachable hosts req' (sent first m) rs
      ∙ ap (λ o. some (record m { outbox = o }))
          (append_assoc m.outbox first (requests_to hosts req' m.route))

  -- If every host that listens to a topic is reachable, a message on it becomes one request for each
  -- of them, handed to the interface on the route to it, and nothing else changes but that the topic
  -- is entered without hosts if it was not there.
  pub publish_sends :
      (topic content : Bytes) (m : InterfaceManager Request)
      → All (IsReachable m.route m.interface_list) (hosts_of topic m.topic2host)
      → publish lib topic content m
        ≡ some (
            sent
              (requests_to
                (hosts_of topic m.topic2host)
                (publish_request lib m.host_name topic content)
                m.route)
              (touched lib topic m))
  unfolding publish
  publish_sends topic content m r =
      send_each-reachable (hosts_of topic m.topic2host)
        (publish_request lib m.host_name topic content) (touched lib topic m) r

  send_each-unreachable :
      (host : Bytes) (hosts : List Bytes) (req : Request) (m : InterfaceManager Request)
      → member host hosts ≡ true
      → lookup host m.route ≡ none
      → lookup [] m.interface_list ≡ none
      → send_each lib hosts req m ≡ none
  unfolding send_each send_via
  send_each-unreachable host [] req m h r i = cc
  send_each-unreachable host (x ∷ xs) req m h r i =
      let req' = set (codes "dest") x req in
      elim (Bool-cases (x ≟ host)) [
        | inl hit ↦
            let same = beq→eq x host hit in
            ap (λ o. o >>= send_each lib xs req')
              (send_to-unrouted x req' m (ap (λ y. lookup y m.route) same ∙ r) i)
        | inr miss ↦ elim (send_via-cases (hop_in x m.route).0 (hop_in x m.route).1 req' m) [
          | inl fails ↦ ap (λ o. o >>= send_each lib xs req') fails
          | inr goes ↦
              ap (λ o. o >>= send_each lib xs req') goes
              ∙ send_each-unreachable host xs req'
                  (sent (((hop_in x m.route).0, ((hop_in x m.route).1, req')) ∷ []) m)
                  (ap (λ b. b || member host xs) (sym miss) ∙ h) r i
        ]
      ]

  -- If a known host has no route, and no interface has the empty name, every broadcast and with it
  -- every announcement dereferences a null pointer.
  pub broadcast_unreachable :
      (host : Bytes) (req : Request) (m : InterfaceManager Request)
      → member host (host_names lib m.hostlist) ≡ true
      → lookup host m.route ≡ none
      → lookup [] m.interface_list ≡ none
      → broadcast lib req m ≡ none
  unfolding broadcast
  broadcast_unreachable host req m h r i =
      send_each-unreachable host (host_names lib m.hostlist) (set (codes "src") m.host_name req) m h
        r i
