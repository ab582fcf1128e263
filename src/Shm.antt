-- ===== src/Shm.antt =====
-- The local nodes of a master: Node, Publish and Subscribe of src/Master/src/shm, and
-- MiddlewareManager of src/Master/src/MiddlewareManager.hpp. An object that is shared by pointer
-- has a number, which stands for its address, and its queue and eventfd are kept by that number. The
-- two kinds of object name their shared memory differently, so they are numbered apart.
pub mod Library
pub mod Transfer
pub mod Answers
pub mod Controllers
pub mod Router
pub mod Delivery
pub mod Tables
pub mod Agreement
pub mod WellFormed
pub mod Paths
pub mod Invariant
pub mod Answering
pub mod Events
pub mod Deletion
pub mod Sample
pub mod Tests
use mid_napi.Prelude.{
  ℕ, Bool, true, false, Option, none, some, List, [], ◌∷◌, ◌++◌, Bytes, lookup, insert, remove,
  ◌==◌, ◌≟◌, bytes_eq, if◌then◌else◌,
}
use mid_napi.Registry.{Topic2Type}
use mid_napi.Registry.Manager.{InterfaceManager}
use mid_napi.Shm.Library.{SharedLibrary}

-- An `int`.
pub data ℤ : Type 0 where
  pos negsuc : ℕ → ℤ

abbrev pub queue_size : ℕ
queue_size = 10

-- A Publish or a Subscribe.
pub record Endpoint : Type 0 where
  pub id : ℕ
  pub topic : Bytes
  pub node_name : Bytes
  pub type : Bytes

abbrev pub Endpoints : Type 0
Endpoints = List (Bytes × Endpoint)

pub record Node : Type 0 where
  pub name : Bytes
  pub pid : ℤ
  pub publishes : Endpoints
  pub subscribes : Endpoints

abbrev pub new_node : Bytes → ℤ → Node
new_node name pid = record { name = name; pid = pid; publishes = []; subscribes = [] }

abbrev pub has_entry : {A : Type 0} → Option A → Bool
has_entry none = false
has_entry (some a) = true

unfoldable pub contains_publish : Bytes → Node → Bool
contains_publish topic n = has_entry (lookup topic n.publishes)

unfoldable pub contains_subscribe : Bytes → Node → Bool
contains_subscribe topic n = has_entry (lookup topic n.subscribes)

unfoldable pub add_publish : Endpoint → Node → Node
add_publish p n = record n { publishes = insert p.topic p n.publishes }

unfoldable pub add_subscribe : Endpoint → Node → Node
add_subscribe s n = record n { subscribes = insert s.topic s n.subscribes }

-- The new node, and the object that was removed.
abbrev pub remove_publish : Bytes → Node → Node × Option Endpoint
remove_publish topic n = elim (lookup topic n.publishes) [
  | none ↦ (n, none)
  | some p ↦ (record n { publishes = remove topic n.publishes }, some p)
]

abbrev pub remove_subscribe : Bytes → Node → Node × Option Endpoint
remove_subscribe topic n = elim (lookup topic n.subscribes) [
  | none ↦ (n, none)
  | some s ↦ (record n { subscribes = remove topic n.subscribes }, some s)
]

unfoldable pub values : Endpoints → List Endpoint
values [] = []
values ((topic, e) ∷ es) = e ∷ values es

unfoldable pub remove_all_publish : Node → Node × List Endpoint
unfolding values
remove_all_publish n = (record n { publishes = [] }, values n.publishes)

unfoldable pub remove_all_subscribe : Node → Node × List Endpoint
unfolding values
remove_all_subscribe n = (record n { subscribes = [] }, values n.subscribes)

unfoldable pub types : Endpoints → Topic2Type
types [] = []
types ((topic, e) ∷ es) = (topic, e.type) ∷ types es

abbrev pub get_all_publish_topics : Node → Topic2Type
get_all_publish_topics n = types n.publishes

abbrev pub get_all_subscribe_topics : Node → Topic2Type
get_all_subscribe_topics n = types n.subscribes

-- The objects of a topic; reading a missing entry makes it empty.
abbrev pub endpoints_of : Bytes → List (Bytes × List Endpoint) → List Endpoint
endpoints_of topic table = elim (lookup topic table) [ none ↦ [] | some es ↦ es ]

-- `table[e->getName()].push_back(e)`
unfoldable pub enter : Endpoint → List (Bytes × List Endpoint) → List (Bytes × List Endpoint)
enter e table = insert e.topic (endpoints_of e.topic table ++ e ∷ []) table

module _ (lib : SharedLibrary queue_size) where
  open lib use {Queue, Eventfd}

  -- What an object's pointer `queue` and its eventfd lead to.
  pub record Channel : Type 0 where
    pub queue : Queue
    pub eventfd : Eventfd

  pub record Master (Request : Type 0) : Type 0 where
    -- A null pointer is `none`.
    pub nodes : List (Bytes × Option Node)
    pub publishes : List (Bytes × List Endpoint)
    pub subscribes : List (Bytes × List Endpoint)
    pub pub_channels : ℕ → Channel
    pub sub_channels : ℕ → Channel
    -- The number of the next object.
    pub next_id : ℕ
    -- Whether the Publish waits for its eventfd.
    pub reading : ℕ → Bool
    pub interface : InterfaceManager Request

-- A function changed at one number.
abbrev pub at_id : {A : Type 0} → ℕ → A → (ℕ → A) → ℕ → A
at_id i a f j = if j == i then a else f j
