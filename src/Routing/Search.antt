-- ===== src/Routing/Search.antt =====
-- The search of Map::getRoute in src/Master/src/interface/Map.cpp comes to an end.
use mid_napi.Prelude.{
  ℕ, zero, suc, ◌+◌, ◌<◌, ◌≤◌, ◌≡◌, ◌≢◌, refl, ap, sym, subst, ◌⊎◌, inl, inr, false, not, ◌&&◌,
  Option, none, some, List, [], ◌∷◌, arith, get_elem?, ltb, if◌then◌else◌, Option-cases, Bool-cases,
}
use mid_napi.Routing.{Line, line_at, int_max}
use mid_napi.Routing.Route.{
  Vertex, starves, min_distance, nearest, join_relaxed, relax_one, relax, visit, search,
}

-- The vertex at index `j` is open, at distance `d`.
abbrev pub IsOpen : List Vertex → ℕ → ℕ → Type 0
IsOpen vs j d =
    (v : Vertex) × (get_elem? vs j ≡ some v)
    × (v.visited ≡ false)
    × (v.distance ≡ d)
    × (d < int_max)

-- The best distance so far is at most INT_MAX.
abbrev IsBelow : Option (ℕ × ℕ) → Type 0
IsBelow best = min_distance best ≤ int_max

pub nearest_best :
    (k : ℕ) (vs : List Vertex) (best : Option (ℕ × ℕ)) (i d : ℕ)
    → IsBelow best
    → nearest k vs best ≡ some (i, d)
    → (best ≡ some (i, d)) ⊎ ((j : ℕ) × (i ≡ k + j) × IsOpen vs j d)
unfolding nearest
nearest_best k [] best i d b e = inl e
nearest_best k (v ∷ vs) best i d b e =
    elim (Bool-cases (not v.visited && ltb v.distance (min_distance best))) [
      | inl closer ↦
          elim (nearest_best (suc k) vs (some (k, v.distance)) i d (ground arith) (ground arith)) [
            | inl here ↦ inr (0, ground arith, (v, refl, ground arith, ground arith, ground arith))
            | inr (j, at, o) ↦ inr (suc j, omega arith, o)
          ]
      | inr farther ↦ elim (nearest_best (suc k) vs best i d b (ground arith)) [
        | inl same ↦ inl same
        | inr (j, at, o) ↦ inr (suc j, omega arith, o)
      ]
    ]

pub nearest-IsOpen : (vs : List Vertex) (i d : ℕ) → nearest 0 vs none ≡ some (i, d) → IsOpen vs i d
nearest-IsOpen vs i d e = elim (nearest_best 0 vs none i d (omega arith) e) [
  | inl no_best ↦ cc
  | inr (j, at, o) ↦ let same : i ≡ j = omega (arith, at) in subst (λ k. IsOpen vs k d) (sym same) o
]

-- How many vertices are not visited.
abbrev pub open_count : List Vertex → ℕ
open_count [] = 0
open_count (v ∷ vs) = (if v.visited then 0 else 1) + open_count vs

open_count-visit :
    (i : ℕ) (vs : List Vertex) (d : ℕ) → IsOpen vs i d → open_count (visit i vs) + 1 ≡ open_count vs
unfolding visit
open_count-visit i [] d (v, e, o, f, b) = cc
open_count-visit zero (w ∷ vs) d (v, e, o, f, b) = ground arith
open_count-visit (suc i) (w ∷ vs) d (v, e, o, f, b) =
    omega (arith, open_count-visit i vs d (v, e, o, f, b))

relax_one-visited :
    (from d w : ℕ) (v v' : Vertex) → relax_one from d w v ≡ some v' → v'.visited ≡ v.visited
unfolding relax_one
relax_one-visited from d w v v' e = ground arith

join_relaxed-some :
    (a : Option Vertex) (b : Option (List Vertex)) (vs : List Vertex)
    → join_relaxed a b ≡ some vs
    → (v : Vertex) × (ws : List Vertex) × (a ≡ some v) × (b ≡ some ws) × (vs ≡ v ∷ ws)
join_relaxed-some none b vs e = cc
join_relaxed-some (some v) none vs e = cc
join_relaxed-some (some v) (some ws) vs e = (v, ws, refl, refl, ground arith)

-- What a relaxation of a vector without overflow consists of.
pub relax-cons :
    (rows : List (List Line)) (from d i : ℕ) (v : Vertex) (vs vs' : List Vertex)
    → relax rows from d i (v ∷ vs) ≡ some vs'
    → (v' : Vertex) × (ws : List Vertex) × (relax_one from d (line_at rows from i).weight v
        ≡ some v')
      × (relax rows from d (suc i) vs ≡ some ws)
      × (vs' ≡ v' ∷ ws)
unfolding relax
relax-cons rows from d i v vs vs' e =
    join_relaxed-some (relax_one from d (line_at rows from i).weight v)
      (relax rows from d (suc i) vs) vs' e

relax-open_count :
    (rows : List (List Line)) (from d i : ℕ) (vs vs' : List Vertex)
    → relax rows from d i vs ≡ some vs'
    → open_count vs' ≡ open_count vs
unfolding relax
relax-open_count rows from d i [] vs' e = ground arith
relax-open_count rows from d i (v ∷ vs) vs' e =
    let (v', ws, one, rest, whole) = relax-cons rows from d i v vs vs' e in
    rw whole (
      omega (
        arith,
        relax-open_count rows from d (suc i) vs ws rest,
        ap {B = ℕ} (λ b. if b then 0 else 1)
            (relax_one-visited from d (line_at rows from i).weight v v' one),
      ))

-- With one more turn than open vertices the search comes to an end.
pub search_ends :
    (fuel : ℕ) (rows : List (List Line)) (vs : List Vertex)
    → open_count vs < fuel
    → search fuel rows vs ≢ starves
unfolding search
search_ends zero rows vs h = omega arith
search_ends (suc fuel) rows vs h = elim (Option-cases (nearest 0 vs none)) [
  | inl e ↦ rw (e, search) (λ x. cc)
  | inr ((i, d), e) ↦ elim (Option-cases (relax rows i d 0 (visit i vs))) [
    | inl o ↦ rw (e, o, search) (λ x. cc)
    | inr (vs', r) ↦
        rw (e, r, search)
          (search_ends fuel rows vs' (
            omega (
              arith,
              relax-open_count rows i d 0 (visit i vs) vs' r,
              open_count-visit i vs d (nearest-IsOpen vs i d e),
            )))
  ]
]
