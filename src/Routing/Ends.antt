-- ===== src/Routing/Ends.antt =====
-- Map::getRoute of src/Master/src/interface/Map.cpp comes to an end.
use mid_napi.Prelude.{
  ℕ, zero, suc, ◌≡◌, ◌≢◌, refl, inl, inr, not, none, List, [], ◌∷◌, arith, All, Bytes, if_either,
  drop, replicate, length, bytes_eq,
}
use mid_napi.Routing.{Map}
use mid_napi.Routing.Route.{
  Vertex, far_vertex, vertices, starves, search, walk, routes, add_route, get_route,
}
use mid_napi.Routing.Search.{open_count, search_ends}
use mid_napi.Routing.Walk.{HasParent, Outcome-cases, search-HasParent, walk_from_vertex}

routes_ends :
    (m : Map) (all : List Vertex) (i : ℕ) (vs : List Vertex)
    (route : List (Bytes × (Bytes × Bytes)))
    → All (HasParent all) all
    → All (HasParent all) vs
    → routes m all i vs route ≢ starves
unfolding routes
routes_ends m all i [] route hs h = λ x. cc
routes_ends m all i (v ∷ vs) route hs (h, k) =
    if_either (λ o. o ≢ starves) (not v.visited) (routes m all (suc i) vs route) _
      (routes_ends m all (suc i) vs route hs k)
      (elim (Outcome-cases (walk (suc v.distance) all none i v.parent)) [
        | inl (found, e) ↦ rw e (routes_ends m all (suc i) vs (add_route m i found route) hs k)
        | inr (inl e) ↦ rw e (λ x. cc)
        | inr (inr e) ↦ absurd (walk_from_vertex all i v hs h e)
      ])

replicate-HasParent : (all : List Vertex) (n : ℕ) → All (HasParent all) (replicate n far_vertex)
replicate-HasParent all zero = tt
replicate-HasParent all (suc n) = ((λ p e. cc), replicate-HasParent all n)

vertices-HasParent : (all : List Vertex) (n : ℕ) → All (HasParent all) (vertices n)
vertices-HasParent all zero = tt
vertices-HasParent all (suc n) = ((λ p e. cc), replicate-HasParent all n)

open_count-replicate : (n : ℕ) → open_count (replicate n far_vertex) ≡ n
open_count-replicate zero = refl
open_count-replicate (suc n) = omega (arith, open_count-replicate n)

open_count-vertices : (n : ℕ) → open_count (vertices n) ≡ n
open_count-vertices zero = refl
open_count-vertices (suc n) = omega (arith, open_count-replicate n)

All-drop1 : (all vs : List Vertex) → All (HasParent all) vs → All (HasParent all) (drop 1 vs)
All-drop1 all [] h = tt
All-drop1 all (v ∷ vs) h = h.1

-- For every map, the computation of the routes comes to an end: its loops run on as much fuel as
-- they need, so it yields the routes or an overflow.
pub get_route_ends : (m : Map) → get_route m ≢ starves
unfolding get_route
get_route_ends m =
    let n = length m.lines in
    elim (Outcome-cases (search (suc n) m.lines (vertices n))) [
      | inl (vs, e) ↦
          let h =
            search-HasParent (suc n) m.lines (vertices n) vs e
              (vertices-HasParent (vertices n) n) in
          rw (e, get_route) (routes_ends m vs 1 (drop 1 vs) [] h (All-drop1 vs vs h))
      | inr (inl e) ↦ rw (e, get_route) (λ x. cc)
      | inr (inr e) ↦
          absurd (search_ends (suc n) m.lines (vertices n) (omega (arith, open_count-vertices n)) e)
    ]
