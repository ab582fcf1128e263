-- ===== src/Routing/Walk.antt =====
-- Map::getRoute of src/Master/src/interface/Map.cpp keeps the parents of the
-- vertices nearer to the local host, so that the walks along them come to an end.
use mid_napi.Prelude.{
  ℕ, zero, suc, ◌+◌, ◌<◌, ◌≡◌, ◌≢◌, refl, sym, ◌∙◌, subst, ◌⊎◌, inl, inr, true, not, ◌&&◌, Option,
  none, some, List, [], ◌∷◌, arith, All, get_elem?, ltb, ◌==◌, if◌then◌else◌, Option-cases,
  Bool-cases, bytes_eq,
}
use mid_napi.Routing.{Line, line_at, int_max}
use mid_napi.Routing.Route.{
  Vertex, Outcome, done, overflows, starves, nearest, relax_one, relax, visit, search, walk,
  parent_of,
}
use mid_napi.Routing.Search.{nearest-IsOpen, relax-cons}

-- The parent of `v` is visited and nearer.
abbrev pub HasParent : List Vertex → Vertex → Type 0
HasParent all v =
    (p : ℕ)
    → v.parent ≡ some p
    → (u : Vertex) × (get_elem? all p ≡ some u) × (u.visited ≡ true) × (u.distance < v.distance)

relax_one-visited_same :
    (from d w : ℕ) (v v' : Vertex) → relax_one from d w v ≡ some v' → v.visited ≡ true → v' ≡ v
unfolding relax_one
relax_one-visited_same from d w v v' e h = ground arith

relax-visited_same :
    (rows : List (List Line)) (from d i p : ℕ) (vs vs' : List Vertex) (u : Vertex)
    → relax rows from d i vs ≡ some vs'
    → get_elem? vs p ≡ some u
    → u.visited ≡ true
    → get_elem? vs' p ≡ some u
relax-visited_same rows from d i p [] vs' u e g h = cc
relax-visited_same rows from d i zero (v ∷ vs) vs' u e g h =
    let (v', ws, one, rest, whole) = relax-cons rows from d i v vs vs' e in
    let seen : v.visited ≡ true = ground (arith, g, h) in
    rw (whole, relax_one-visited_same from d (line_at rows from i).weight v v' one seen) g
relax-visited_same rows from d i (suc p) (v ∷ vs) vs' u e g h =
    let (v', ws, one, rest, whole) = relax-cons rows from d i v vs vs' e in
    rw whole (relax-visited_same rows from d (suc i) p vs ws u rest g h)

relax_one-cases :
    (from d w : ℕ) (v v' : Vertex)
    → relax_one from d w v ≡ some v'
    → (v' ≡ v) ⊎ ((v' ≡ record v { distance = d + w; parent = some from }) × (0 < w))
unfolding relax_one
relax_one-cases from d w v v' r = elim (Bool-cases (not (not v.visited && ltb 0 w))) [
  | inl kept ↦ inl (ground (arith, r, kept))
  | inr tried ↦ elim (Bool-cases (ltb int_max (d + w))) [
    | inl over ↦ inl (ground (arith, r, tried, over))
    | inr fits ↦ elim (Bool-cases (ltb (d + w) v.distance)) [
      | inl nearer ↦ inr (ground (arith, r, tried, fits, nearer), ground (arith, tried))
      | inr farther ↦ inl (ground (arith, r, tried, fits, farther))
    ]
  ]
]

relax_one-HasParent :
    (all : List Vertex) (from d w : ℕ) (v v' u : Vertex)
    → get_elem? all from ≡ some u
    → u.visited ≡ true
    → u.distance ≡ d
    → HasParent all v
    → relax_one from d w v ≡ some v'
    → HasParent all v'
unfolding relax_one
relax_one-HasParent all from d w v v' u g s e h r = elim (relax_one-cases from d w v v' r) [
  | inl same ↦ subst (HasParent all) (sym same) h
  | inr (changed, positive) ↦ subst (HasParent all) (sym changed) (λ p q.
      let at : from ≡ p = ground (arith, q) in
      (u, subst (λ k. get_elem? all k ≡ some u) at g, s, omega (arith, e, positive)))
]

relax-HasParent :
    (all : List Vertex) (rows : List (List Line)) (from d i : ℕ) (vs vs' : List Vertex) (u : Vertex)
    → get_elem? all from ≡ some u
    → u.visited ≡ true
    → u.distance ≡ d
    → All (HasParent all) vs
    → relax rows from d i vs ≡ some vs'
    → All (HasParent all) vs'
unfolding relax
relax-HasParent all rows from d i [] vs' u g s e h r =
    let same : [] ≡ vs' = ground (arith, r) in subst (All (HasParent all)) same tt
relax-HasParent all rows from d i (v ∷ vs) vs' u g s e (h, hs) r =
    let (v', ws, one, rest, whole) = relax-cons rows from d i v vs vs' r in
    subst (All (HasParent all)) (sym whole) (
      relax_one-HasParent all from d (line_at rows from i).weight v v' u g s e h one,
      relax-HasParent all rows from d (suc i) vs ws u g s e hs rest,
    )

All-HasParent_mono :
    (all all' vs : List Vertex)
    → ((p : ℕ) (u : Vertex)
        → get_elem? all p ≡ some u
        → u.visited ≡ true
        → get_elem? all' p ≡ some u)
    → All (HasParent all) vs
    → All (HasParent all') vs
All-HasParent_mono all all' [] k h = tt
All-HasParent_mono all all' (v ∷ vs) k (h, hs) =
    ((λ p e. let (u, g, s, d) = h p e in (u, k p u g s, s, d)), All-HasParent_mono all all' vs k hs)

All-get :
    (all vs : List Vertex) (p : ℕ) (u : Vertex)
    → All (HasParent all) vs
    → get_elem? vs p ≡ some u
    → HasParent all u
All-get all [] p u h g = cc
All-get all (v ∷ vs) zero u (h, hs) g =
    let same : v ≡ u = ground (arith, g) in subst (HasParent all) same h
All-get all (v ∷ vs) (suc p) u (h, hs) g = All-get all vs p u hs g

parent_of-known :
    (vs : List Vertex) (p : ℕ) (u : Vertex) → get_elem? vs p ≡ some u → parent_of vs p ≡ u.parent
parent_of-known vs p u g = rw (g, parent_of) refl

walk-none : (fuel : ℕ) (vs : List Vertex) (cur : ℕ) → walk fuel vs none cur none ≢ starves
unfolding walk
walk-none fuel vs cur = λ x. cc

walk_ends :
    (fuel : ℕ) (vs : List Vertex) (found : Option ℕ) (cur par : ℕ) (u : Vertex)
    → All (HasParent vs) vs
    → get_elem? vs par ≡ some u
    → u.distance < fuel
    → walk fuel vs found cur (some par) ≢ starves
unfolding walk
walk_ends zero vs found cur par u h g d = omega arith
walk_ends (suc fuel) vs found cur par u h g d =
    let found' = if par == 0 then some cur else found in
    subst (λ o. walk fuel vs found' par o ≢ starves) (sym (parent_of-known vs par u g))
      (elim (Option-cases u.parent) [
        | inl e ↦ subst (λ o. walk fuel vs found' par o ≢ starves) (sym e) (λ x. cc)
        | inr (p, e) ↦
            let (u', g', s', d') = All-get vs vs par u h g p e in
            subst (λ o. walk fuel vs found' par o ≢ starves) (sym e)
              (walk_ends fuel vs found' par p u' h g' (omega (arith, d, d')))
      ])

get_elem-visit :
    (i : ℕ) (vs : List Vertex) (u : Vertex)
    → get_elem? vs i ≡ some u
    → get_elem? (visit i vs) i ≡ some (record u { visited = true })
unfolding visit
get_elem-visit i [] u g = cc
get_elem-visit zero (v ∷ vs) u g = ground (arith, g)
get_elem-visit (suc i) (v ∷ vs) u g = get_elem-visit i vs u g

visit-visited_same :
    (i p : ℕ) (vs : List Vertex) (u : Vertex)
    → get_elem? vs p ≡ some u
    → u.visited ≡ true
    → get_elem? (visit i vs) p ≡ some u
unfolding visit
visit-visited_same i p [] u g h = cc
visit-visited_same zero zero (v ∷ vs) u g h = ground (arith, g, h)
visit-visited_same zero (suc p) (v ∷ vs) u g h = g
visit-visited_same (suc i) zero (v ∷ vs) u g h = g
visit-visited_same (suc i) (suc p) (v ∷ vs) u g h = visit-visited_same i p vs u g h

visit-All :
    (all : List Vertex) (i : ℕ) (vs : List Vertex)
    → All (HasParent all) vs
    → All (HasParent all) (visit i vs)
unfolding visit
visit-All all i [] h = tt
visit-All all zero (v ∷ vs) h = h
visit-All all (suc i) (v ∷ vs) (h, hs) = (h, visit-All all i vs hs)

turn-HasParent :
    (rows : List (List Line)) (i d : ℕ) (vs vs' : List Vertex)
    → nearest 0 vs none ≡ some (i, d)
    → relax rows i d 0 (visit i vs) ≡ some vs'
    → All (HasParent vs) vs
    → All (HasParent vs') vs'
turn-HasParent rows i d vs vs' e r h =
    let (v, g, _, dv, _) = nearest-IsOpen vs i d e in
    let stays = relax-visited_same rows i d 0 in
    let visited_at = get_elem-visit i vs v g in
    relax-HasParent vs' rows i d 0 (visit i vs) vs' (record v { visited = true })
      (stays i (visit i vs) vs' (record v { visited = true }) r visited_at refl) refl dv
      (All-HasParent_mono vs vs' (visit i vs)
        (λ p u q s. stays p (visit i vs) vs' u r (visit-visited_same i p vs u q s) s)
        (visit-All vs i vs h))
      r

pub Outcome-cases :
    {A : Type 0} (o : Outcome A) → ((a : A) × (o ≡ done a)) ⊎ ((o ≡ overflows) ⊎ (o ≡ starves))
Outcome-cases (done a) = inl (a, refl)
Outcome-cases overflows = inr (inl refl)
Outcome-cases starves = inr (inr refl)

pub search-HasParent :
    (fuel : ℕ) (rows : List (List Line)) (vs vs' : List Vertex)
    → search fuel rows vs ≡ done vs'
    → All (HasParent vs) vs
    → All (HasParent vs') vs'
unfolding search
search-HasParent zero rows vs vs' e h = cc
search-HasParent (suc fuel) rows vs vs' e h = elim (Option-cases (nearest 0 vs none)) [
  | inl n ↦
      let stop : search (suc fuel) rows vs ≡ done vs = rw (n, search) refl in
      let same : vs ≡ vs' = ground (arith, sym stop ∙ e) in
      subst (λ ws. All (HasParent ws) ws) same h
  | inr ((i, d), n) ↦ elim (Option-cases (relax rows i d 0 (visit i vs))) [
    | inl o ↦
        let stop : search (suc fuel) rows vs ≡ overflows = rw (n, o, search) refl in
        absurd (ground (arith, sym stop ∙ e))
    | inr (ws, r) ↦
        let next : search (suc fuel) rows vs ≡ search fuel rows ws = rw (n, r, search) refl in
        search-HasParent fuel rows ws vs' (sym next ∙ e) (turn-HasParent rows i d vs ws n r h)
  ]
]

pub walk_from_vertex :
    (all : List Vertex) (i : ℕ) (v : Vertex)
    → All (HasParent all) all
    → HasParent all v
    → walk (suc v.distance) all none i v.parent ≢ starves
walk_from_vertex all i v hs h = elim (Option-cases v.parent) [
  | inl e ↦
      subst (λ o. walk (suc v.distance) all none i o ≢ starves) (sym e)
        (walk-none (suc v.distance) all i)
  | inr (p, e) ↦
      let (u, g, s, d) = h p e in
      subst (λ o. walk (suc v.distance) all none i o ≢ starves) (sym e)
        (walk_ends (suc v.distance) all none i p u hs g (omega (arith, d)))
]
