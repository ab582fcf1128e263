-- ===== src/Registry.antt =====
-- What a master knows of the other hosts: Host of src/Master/src/interface/Host.hpp and Host.cpp.
-- A set is a list without order, a name is a std::string. The pointers to the host's interfaces are
-- not modelled: no operation here reads them.
pub mod Manager
pub mod Setup
pub mod Controllers
pub mod Requests
pub mod Topics
pub mod Delivery
pub mod Tests
use mid_napi.Prelude.{
  ℕ, Bool, true, false, ◌||◌, Option, none, some, List, [], ◌∷◌, ◌++◌, Bytes, lookup, insert, erase,
  ◌≟◌, bytes_eq, if◌then◌else◌,
}

abbrev pub member : Bytes → List Bytes → Bool
member x [] = false
member x (y ∷ ys) = (y ≟ x) || member x ys

-- `set.insert(x)`
abbrev pub add_member : Bytes → List Bytes → List Bytes
add_member x [] = x ∷ []
add_member x (y ∷ ys) = if y ≟ x then y ∷ ys else y ∷ add_member x ys

-- `set.erase(x)`
abbrev pub drop_member : Bytes → List Bytes → List Bytes
drop_member x [] = []
drop_member x (y ∷ ys) = if y ≟ x then drop_member x ys else y ∷ drop_member x ys

abbrev pub Topic2Type : Type 0
Topic2Type = List (Bytes × Bytes)

pub record Host : Type 0 where
  pub node_list : List Bytes
  pub node2pubtopic2type : List (Bytes × Topic2Type)
  pub node2subtopic2type : List (Bytes × Topic2Type)

abbrev pub new_host : Host
new_host = record { node_list = []; node2pubtopic2type = []; node2subtopic2type = [] }

-- `m[node]` of a map of maps; reading a missing entry makes it empty.
abbrev pub topics_of : Bytes → List (Bytes × Topic2Type) → Topic2Type
topics_of node m = elim (lookup node m) [ none ↦ [] | some topics ↦ topics ]

unfoldable pub add_node : Bytes → Host → Host
add_node node h = record h { node_list = add_member node h.node_list }

abbrev pub keys : Topic2Type → List Bytes
keys [] = []
keys ((topic, type) ∷ m) = topic ∷ keys m

-- The nested loops of `deleteNode`: the topics of every entry.
unfoldable pub all_topics : List (Bytes × Topic2Type) → List Bytes
all_topics [] = []
all_topics ((name, topics) ∷ m) = keys topics ++ all_topics m

-- The new host, and the topics returned.
unfoldable pub delete_node : Bytes → Host → Host × List Bytes
unfolding all_topics
delete_node node h = (
  record h {
    node_list = drop_member node h.node_list;
    node2pubtopic2type = erase node h.node2pubtopic2type;
    node2subtopic2type = erase node h.node2subtopic2type;
  },
  all_topics h.node2subtopic2type,
)

unfoldable pub add_sub : Bytes → Bytes → Bytes → Host → Host
add_sub node topic type h = record h {
  node2subtopic2type =
      insert node (insert topic type (topics_of node h.node2subtopic2type)) h.node2subtopic2type;
}

unfoldable pub delete_sub : Bytes → Bytes → Host → Host
delete_sub node topic h = record h {
  node2subtopic2type =
      insert node (erase topic (topics_of node h.node2subtopic2type)) h.node2subtopic2type;
}

unfoldable pub add_pub : Bytes → Bytes → Bytes → Host → Host
add_pub node topic type h = record h {
  node2pubtopic2type =
      insert node (insert topic type (topics_of node h.node2pubtopic2type)) h.node2pubtopic2type;
}

unfoldable pub delete_pub : Bytes → Bytes → Host → Host
delete_pub node topic h = record h {
  node2pubtopic2type =
      insert node (erase topic (topics_of node h.node2pubtopic2type)) h.node2pubtopic2type;
}

unfoldable pub clear : Host → Host
clear h = new_host
