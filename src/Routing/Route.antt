-- ===== src/Routing/Route.antt =====
-- The search for shortest routes: Map::getRoute of src/Master/src/interface/Map.cpp. The entries of
-- its three vectors at one index are a record. An int that overflows is undefined behaviour in C++
-- and an outcome of its own here; so is running out of fuel.
use mid_napi.Prelude.{
  ℕ, zero, suc, ◌+◌, Bool, true, false, not, ◌&&◌, Option, none, some, List, [], ◌∷◌, Bytes,
  get_elem?, drop, replicate, length, ltb, ◌==◌, if◌then◌else◌, lookup, insert, bytes_eq, nat_eq,
}
use mid_napi.Routing.{Line, Map, int_max, line_at}

-- `parent` is `none` for -1.
pub record Vertex : Type 0 where
  pub visited : Bool
  pub parent : Option ℕ
  pub distance : ℕ

abbrev pub far_vertex : Vertex
far_vertex = record { visited = false; parent = none; distance = int_max }

pub data Outcome (A : Type 0) : Type 0 where
  done : A → Outcome A
  overflows : Outcome A
  starves : Outcome A

-- `n` vertices; the first has distance 0.
abbrev pub vertices : ℕ → List Vertex
vertices zero = []
vertices (suc n) = record far_vertex { distance = 0 } ∷ replicate n far_vertex

-- `minDistance`
abbrev pub min_distance : Option (ℕ × ℕ) → ℕ
min_distance none = int_max
min_distance (some (i, d)) = d

-- The loop that looks for the nearest vertex not visited; the result is (minIndex, minDistance).
unfoldable pub nearest : ℕ → List Vertex → Option (ℕ × ℕ) → Option (ℕ × ℕ)
nearest i [] best = best
nearest i (v ∷ vs) best =
    let closer = nearest (suc i) vs (some (i, v.distance)) in
    let same = nearest (suc i) vs best in
    if not v.visited && ltb v.distance (min_distance best) then closer else same

-- One turn of the second loop: the sum is computed only for an open vertex behind a link.
unfoldable pub relax_one : ℕ → ℕ → ℕ → Vertex → Option Vertex
relax_one from d weight v =
    if not (not v.visited && ltb 0 weight)
    then some v
    else if ltb int_max (d + weight)
    then none
    else if ltb (d + weight) v.distance
    then some (record v { distance = d + weight; parent = some from })
    else some v

abbrev pub join_relaxed : Option Vertex → Option (List Vertex) → Option (List Vertex)
join_relaxed none rest = none
join_relaxed (some v) none = none
join_relaxed (some v) (some vs) = some (v ∷ vs)

-- The second loop, from index `i` on; `none` is an overflow.
unfoldable pub relax : List (List Line) → ℕ → ℕ → ℕ → List Vertex → Option (List Vertex)
relax rows from d i [] = some []
relax rows from d i (v ∷ vs) =
    join_relaxed (relax_one from d (line_at rows from i).weight v) (relax rows from d (suc i) vs)

-- `visited[i] = true`
unfoldable pub visit : ℕ → List Vertex → List Vertex
visit i [] = []
visit zero (v ∷ vs) = record v { visited = true } ∷ vs
visit (suc i) (v ∷ vs) = v ∷ visit i vs

-- The outer loop.
unfoldable pub search : ℕ → List (List Line) → List Vertex → Outcome (List Vertex)
search zero rows vs = starves
search (suc fuel) rows vs = elim (nearest 0 vs none) [
  | none ↦ done vs
  | some (i, d) ↦ elim (relax rows i d 0 (visit i vs)) [
    | none ↦ overflows
    | some vs' ↦ search fuel rows vs'
  ]
]

-- `segment2interface[i][segment]`, the empty text where there is none.
unfoldable pub interface_name : Map → ℕ → Option ℕ → Bytes
interface_name m i none = []
interface_name m i (some segment) = elim (get_elem? m.segment2interface i) [
  | none ↦ []
  | some table ↦ elim (lookup segment table) [ none ↦ [] | some name ↦ name ]
]

-- The interfaces at both ends of the link from the local host.
unfoldable pub first_hop : Map → ℕ → Bytes × Bytes
unfolding interface_name line_at
first_hop m cur =
    let segment = (line_at m.lines 0 cur).segment in
    (interface_name m 0 segment, interface_name m cur segment)

abbrev pub parent_of : List Vertex → ℕ → Option ℕ
parent_of vs i = elim (get_elem? vs i) [ none ↦ none | some v ↦ v.parent ]

-- The walk along the parents from `cur`; the last vertex that stood behind the local host is found.
unfoldable pub walk : ℕ → List Vertex → Option ℕ → ℕ → Option ℕ → Outcome (Option ℕ)
walk fuel vs found cur none = done found
walk zero vs found cur (some par) = starves
walk (suc fuel) vs found cur (some par) =
    walk fuel vs (if par == 0 then some cur else found) par (parent_of vs par)

-- `key2node[i]`
abbrev pub name_of : Map → ℕ → Bytes
name_of m i = elim (lookup i m.key2node) [ none ↦ [] | some name ↦ name ]

-- `route[key2node[i]] = ...`
unfoldable pub add_route :
    Map → ℕ → Option ℕ → List (Bytes × (Bytes × Bytes)) → List (Bytes × (Bytes × Bytes))
unfolding first_hop
add_route m i none route = route
add_route m i (some cur) route = insert (name_of m i) (first_hop m cur) route

-- The loop over the visited vertices from index `i` on. Each step of a walk comes nearer to the
-- local host, so one more than the distance is fuel enough.
unfoldable pub routes :
    Map
    → List Vertex
    → ℕ
    → List Vertex
    → List (Bytes × (Bytes × Bytes))
    → Outcome (List (Bytes × (Bytes × Bytes)))
unfolding walk add_route
routes m all i [] route = done route
routes m all i (v ∷ vs) route =
    let skipped = routes m all (suc i) vs route in
    if not v.visited then skipped else elim (walk (suc v.distance) all none i v.parent) [
      | done found ↦ routes m all (suc i) vs (add_route m i found route)
      | overflows ↦ overflows
      | starves ↦ starves
    ]

-- Each turn visits a vertex, so one more turn than vertices is fuel enough.
unfoldable pub get_route : Map → Outcome (List (Bytes × (Bytes × Bytes)))
unfolding search routes
get_route m = elim (search (suc (length m.lines)) m.lines (vertices (length m.lines))) [
  | done vs ↦ routes m vs 1 (drop 1 vs) []
  | overflows ↦ overflows
  | starves ↦ starves
]
