-- ===== src/Routing.antt =====
-- The map of hosts and links: Map of src/Master/src/interface/Map.hpp and Map.cpp.
-- The parsed configuration is a record. A segment is not negative, so the default -1 is `none`;
-- a negative weight, which the code treats as it treats 0, is 0. The map starts empty.
pub mod Route
pub mod Search
pub mod Weights
pub mod Walk
pub mod Ends
pub mod Tests
use mid_napi.Prelude.{
  ℕ, suc, ◌+◌, ◌-◌, ◌^◌, Option, none, some, List, [], ◌∷◌, ◌++◌, Bytes, get_elem?, set, replicate,
  length, lookup, insert, ◌≟◌, bytes_eq, nat_eq, if◌then◌else◌,
}

-- struct line
pub record Line : Type 0 where
  pub segment : Option ℕ
  pub weight : ℕ
  pub init_weight : ℕ

abbrev pub no_line : Line
no_line = record { segment = none; weight = 0; init_weight = 0 }

pub record Map : Type 0 where
  pub key2node : List (ℕ × Bytes)
  pub node2key : List (Bytes × ℕ)
  pub segment2node : List (ℕ × List ℕ)
  pub lines : List (List Line)
  pub segment2interface : List (List (ℕ × Bytes))

abbrev pub empty_map : Map
empty_map = record {
  key2node = [];
  node2key = [];
  segment2node = [];
  lines = [];
  segment2interface = [];
}

-- "name", "type" and "segment" of an interface in the configuration.
pub record InterfaceEntry : Type 0 where
  pub name : Bytes
  pub kind : Bytes
  pub segment : ℕ

pub record HostEntry : Type 0 where
  pub name : Bytes
  pub interfaces : List InterfaceEntry

pub record MapEntry : Type 0 where
  pub source : Bytes
  pub target : Bytes
  pub weight : ℕ

pub record Config : Type 0 where
  pub hosts : List HostEntry
  pub map : List MapEntry

abbrev pub int_max : ℕ
int_max = 2 ^ 31 - 1

-- `map[i][j]`, with the default where a vector has no such index.
unfoldable pub line_at : List (List Line) → ℕ → ℕ → Line
line_at rows i j = elim (get_elem? rows i) [
  | none ↦ no_line
  | some row ↦ elim (get_elem? row j) [ none ↦ no_line | some l ↦ l ]
]

-- `map[i][j] = l`
unfoldable pub set_line : ℕ → ℕ → Line → List (List Line) → List (List Line)
set_line i j l rows = elim (get_elem? rows i) [ none ↦ rows | some row ↦ set rows i (set row j l) ]

-- `segment2node[segment].push_back(key)`
abbrev pub push_node : ℕ → ℕ → List (ℕ × List ℕ) → List (ℕ × List ℕ)
push_node segment key m = elim (lookup segment m) [
  | none ↦ insert segment (key ∷ []) m
  | some keys ↦ insert segment (keys ++ key ∷ []) m
]

-- The loop over the interfaces of a host: its own table, and the nodes of each segment.
unfoldable pub add_interfaces :
    ℕ
    → List InterfaceEntry
    → List (ℕ × Bytes)
    → List (ℕ × List ℕ)
    → List (ℕ × Bytes) × List (ℕ × List ℕ)
add_interfaces key [] table nodes = (table, nodes)
add_interfaces key (i ∷ more) table nodes =
    add_interfaces key more (insert i.segment i.name table) (push_node i.segment key nodes)

unfoldable pub add_host : ℕ → HostEntry → Map → Map
unfolding add_interfaces
add_host key host m =
    let (table, nodes) = add_interfaces key host.interfaces [] m.segment2node in
    record m {
      key2node = insert key host.name m.key2node;
      node2key = insert host.name key m.node2key;
      segment2node = nodes;
      segment2interface = m.segment2interface ++ table ∷ [];
    }

-- The first loop: the local host has key 0.
unfoldable pub add_local : Bytes → List HostEntry → Map → Map
unfolding add_host
add_local localhost [] m = m
add_local localhost (h ∷ hs) m =
    let later = add_local localhost hs m in if h.name ≟ localhost then add_host 0 h m else later

-- The second loop, with the last key given out.
unfoldable pub add_others : Bytes → ℕ → List HostEntry → Map → ℕ × Map
unfolding add_host
add_others localhost i [] m = (i, m)
add_others localhost i (h ∷ hs) m =
    let other = add_others localhost (suc i) hs (add_host (suc i) h m) in
    let same = add_others localhost i hs m in if h.name ≟ localhost then same else other

unfoldable pub connect : ℕ → ℕ → Line → List (List Line) → List (List Line)
unfolding set_line
connect a b l rows = set_line b a l (set_line a b l rows)

-- The inner loop over `k`, and the loop over `j`.
unfoldable pub connect_all : ℕ → ℕ → List ℕ → List (List Line) → List (List Line)
unfolding connect
connect_all segment a [] rows = rows
connect_all segment a (b ∷ bs) rows =
    connect_all segment a bs
      (connect a b (record { segment = some segment; weight = 1; init_weight = 1 }) rows)

unfoldable pub connect_segment : ℕ → List ℕ → List (List Line) → List (List Line)
unfolding connect_all
connect_segment segment [] rows = rows
connect_segment segment (a ∷ bs) rows = connect_segment segment bs (connect_all segment a bs rows)

unfoldable pub connect_segments : List (ℕ × List ℕ) → List (List Line) → List (List Line)
unfolding connect_segment
connect_segments [] rows = rows
connect_segments ((segment, keys) ∷ m) rows = connect_segments m (connect_segment segment keys rows)

-- `node2key[name]`: a name that is not there gets key 0.
abbrev pub key_of : Bytes → Map → ℕ
key_of name m = elim (lookup name m.node2key) [ none ↦ 0 | some k ↦ k ]

abbrev pub touch_key : Bytes → Map → Map
touch_key name m = record m { node2key = insert name (key_of name m) m.node2key }

-- `map[i][j].weight = weight`
unfoldable pub set_weight : ℕ → ℕ → ℕ → List (List Line) → List (List Line)
unfolding set_line line_at
set_weight i j w rows = set_line i j (record (line_at rows i j) { weight = w }) rows

unfoldable pub set_entry : ℕ → ℕ → ℕ → List (List Line) → List (List Line)
unfolding set_line line_at
set_entry i j w rows = set_line i j (record (line_at rows i j) { weight = w; init_weight = w }) rows

-- The loop over "map": the weights of both directions.
unfoldable pub add_entries : List MapEntry → Map → Map
unfolding set_entry
add_entries [] m = m
add_entries (e ∷ es) m =
    let m' = touch_key e.target (touch_key e.source m) in
    let a = key_of e.source m' in
    let b = key_of e.target m' in
    add_entries es (record m' { lines = set_entry b a e.weight (set_entry a b e.weight m'.lines) })

unfoldable pub init : Config → Bytes → Map → Map
unfolding add_local add_others connect_segments add_entries
init config localhost m =
    let (i, m') = add_others localhost 0 config.hosts (add_local localhost config.hosts m) in
    let rows = replicate (suc i) (replicate (suc i) no_line) in
    add_entries config.map (record m' { lines = connect_segments m'.segment2node rows })

unfoldable pub set_max_weight : Bytes → Bytes → Map → Map
set_max_weight host1 host2 m =
    let m' = touch_key host2 (touch_key host1 m) in
    let src = key_of host1 m' in
    let dest = key_of host2 m' in
    record m' {
      lines = set_weight dest src (int_max - 1) (set_weight src dest (int_max - 1) m'.lines);
    }

unfoldable pub set_init_weight : Bytes → Bytes → Map → Map
set_init_weight host1 host2 m =
    let m' = touch_key host2 (touch_key host1 m) in
    let src = key_of host1 m' in
    let dest = key_of host2 m' in
    let there = set_weight src dest (line_at m'.lines src dest).init_weight m'.lines in
    record m' { lines = set_weight dest src (line_at there dest src).init_weight there }
