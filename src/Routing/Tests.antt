-- ===== src/Routing/Tests.antt =====
-- Three hosts in a row: the local host a, b behind it, and c behind b.
use mid_napi.Prelude.{ℕ, ◌≡◌, ◌≢◌, refl, List, [], ◌∷◌, codes, Bytes, bytes_beq}
use mid_napi.Routing.{
  Map, Config, empty_map, line_at, init, set_max_weight, set_init_weight, set_weight,
}
use mid_napi.Routing.Route.{
  Outcome, done, overflows, starves, nearest, relax, visit, get_route, relax_one,
}
use mid_napi.Routing.Ends.{get_route_ends}
use mid_napi.Routing.Weights.{AreLinked, set_init_weight-set_max_weight}

abbrev row : ℕ → Config
row weight = record {
  hosts =
      record {
        name = codes "a";
        interfaces = record { name = codes "a1"; kind = codes "tcp"; segment = 1 } ∷ [];
      }
      ∷ record {
        name = codes "b";
        interfaces =
            record { name = codes "b1"; kind = codes "tcp"; segment = 1 }
            ∷ record { name = codes "b2"; kind = codes "tcp"; segment = 2 }
            ∷ [];
      }
      ∷ record {
        name = codes "c";
        interfaces = record { name = codes "c2"; kind = codes "tcp"; segment = 2 } ∷ [];
      }
      ∷ [];
  map = record { source = codes "b"; target = codes "c"; weight = weight } ∷ [];
}

hops : ℕ → Outcome (List (Bytes × (Bytes × Bytes)))
unfolding init
hops weight = get_route (init (row weight) (codes "a") empty_map)

hops-row :
    hops 5
    ≡ done ((codes "b", (codes "a1", codes "b1")) ∷ (codes "c", (codes "a1", codes "b1")) ∷ [])
unfolding hops init get_route bytes_beq nearest relax visit relax_one
hops-row = refl

-- The map of these hosts, with weight 5 between b and c.
abbrev chain : Map
chain = init (row 5) (codes "a") empty_map

chain-AreLinked : AreLinked chain (codes "b") (codes "c") 1 2
unfolding init bytes_beq
chain-AreLinked = record {
  key1 = refl;
  key2 = refl;
  there = (_, _, refl, refl);
  back = (_, _, refl, refl);
}

chain_weight :
    ((line_at chain.lines 1 2).weight ≡ (line_at chain.lines 1 2).init_weight)
    × ((line_at chain.lines 2 1).weight ≡ (line_at chain.lines 2 1).init_weight)
unfolding init bytes_beq line_at
chain_weight = (refl, refl)

set_init_weight-set_max_weight_example :
    line_at
      (set_init_weight (codes "b") (codes "c") (set_max_weight (codes "b") (codes "c") chain)).lines
      2
      1
    ≡ line_at chain.lines 2 1
set_init_weight-set_max_weight_example =
    set_init_weight-set_max_weight chain (codes "b") (codes "c") 1 2 chain-AreLinked chain_weight.0
      chain_weight.1 2 1

get_route_ends_example : get_route chain ≢ starves
get_route_ends_example = get_route_ends chain

-- With the link between a and b raised, c is too far away to have a route.
raised_hops :
    get_route (set_max_weight (codes "a") (codes "b") (init (row 1) (codes "a") empty_map))
    ≡ done ((codes "b", (codes "a1", codes "b1")) ∷ [])
unfolding init get_route bytes_beq nearest relax visit relax_one set_max_weight set_weight
raised_hops = refl

-- With a link of weight 5 behind it, the search overflows.
raised_overflow : get_route (set_max_weight (codes "a") (codes "b") chain) ≡ overflows
unfolding init get_route bytes_beq nearest relax visit relax_one set_max_weight set_weight
raised_overflow = refl
