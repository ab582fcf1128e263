-- ===== src/Routing/Weights.antt =====
-- Raising and restoring a weight: Map::setMaxWeight and setInitWeight of
-- src/Master/src/interface/Map.cpp.
use mid_napi.Prelude.{
  ℕ, zero, suc, ◌-◌, ◌<◌, ◌≡◌, inl, inr, ◌&&◌, ◌||◌, some, List, [], ◌∷◌, arith, Bytes, get_elem?,
  set, length, ◌==◌, if◌then◌else◌, lookup, lookup-insert, bytes_eq, Bool-cases, beq→eq, ◌≟◌,
}
use mid_napi.Routing.{
  Line, Map, int_max, line_at, set_line, set_weight, key_of, touch_key, set_max_weight,
  set_init_weight,
}

-- There is a line at (i, j).
abbrev pub HasLine : List (List Line) → ℕ → ℕ → Type 0
HasLine rows i j =
    (row : List Line) × (l : Line) × (get_elem? rows i ≡ some row) × (get_elem? row j ≡ some l)

get_elem-set :
    {A : Type 0} (xs : List A) (i j : ℕ) (v : A)
    → i < length xs
    → get_elem? (set xs i v) j ≡ (if i == j then some v else get_elem? xs j)
get_elem-set [] i j v h = ground arith
get_elem-set (x ∷ xs) zero zero v h = ground arith
get_elem-set (x ∷ xs) zero (suc j) v h = ground arith
get_elem-set (x ∷ xs) (suc i) zero v h = ground arith
get_elem-set (x ∷ xs) (suc i) (suc j) v h = ground (arith, get_elem-set xs i j v)

get_elem-lt : {A : Type 0} (xs : List A) (i : ℕ) (v : A) → get_elem? xs i ≡ some v → i < length xs
get_elem-lt [] i v e = cc
get_elem-lt (x ∷ xs) zero v e = omega arith
get_elem-lt (x ∷ xs) (suc i) v e = omega (arith, get_elem-lt xs i v e)

line_at-set_line :
    (rows : List (List Line)) (i j a b : ℕ) (l : Line)
    → HasLine rows i j
    → line_at (set_line i j l rows) a b
      ≡ (if i == a then (if j == b then l else line_at rows a b) else line_at rows a b)
unfolding line_at set_line
line_at-set_line rows i j a b l (row, old, e, f) =
    let outer = get_elem-set rows i a (set row j l) (get_elem-lt rows i row e) in
    let inner = get_elem-set row j b l (get_elem-lt row j old f) in ground arith

set_line-HasLine :
    (rows : List (List Line)) (i j a b : ℕ) (l : Line)
    → HasLine rows i j
    → HasLine rows a b
    → HasLine (set_line i j l rows) a b
unfolding set_line
set_line-HasLine rows i j a b l (row, old, e, f) (row', old', e', f') =
    let outer = get_elem-set rows i a (set row j l) (get_elem-lt rows i row e) in
    let inner = get_elem-set row j b l (get_elem-lt row j old f) in
    (
      (if i == a then set row j l else row'),
      (if i == a then (if j == b then l else old') else old'),
      ground arith,
      ground arith,
    )

-- The weight at (a, b) after a weight is set at (i, j), and its initial weight, which stays.
line_at-set_weight :
    (rows : List (List Line)) (i j a b w : ℕ)
    → HasLine rows i j
    → line_at (set_weight i j w rows) a b ≡ (
        if i == a
        then (if j == b then record (line_at rows a b) { weight = w } else line_at rows a b)
        else line_at rows a b)
unfolding set_weight
line_at-set_weight rows i j a b w h =
    let at = line_at-set_line rows i j a b (record (line_at rows i j) { weight = w }) h in
    ground (arith, at)

set_weight-HasLine :
    (rows : List (List Line)) (i j a b w : ℕ)
    → HasLine rows i j
    → HasLine rows a b
    → HasLine (set_weight i j w rows) a b
unfolding set_weight
set_weight-HasLine rows i j a b w h k =
    set_line-HasLine rows i j a b (record (line_at rows i j) { weight = w }) h k

-- Both hosts are known, under the keys `s` and `t`, and there are lines between them.
pub record AreLinked (m : Map) (host1 host2 : Bytes) (s t : ℕ) : Type 0 where
  pub key1 : lookup host1 m.node2key ≡ some s
  pub key2 : lookup host2 m.node2key ≡ some t
  pub there : HasLine m.lines s t
  pub back : HasLine m.lines t s

key_of-known : (h : Bytes) (m : Map) (k : ℕ) → lookup h m.node2key ≡ some k → key_of h m ≡ k
key_of-known h m k e = rw (e, key_of)

lookup-touch_key :
    (h g : Bytes) (m : Map) (k : ℕ)
    → lookup h m.node2key ≡ some k
    → lookup h (touch_key g m).node2key ≡ some k
lookup-touch_key h g m k e = elim (Bool-cases (g ≟ h)) [
  | inl hit ↦
      let same : lookup g m.node2key ≡ some k = rw (beq→eq g h hit) e in
      let known = key_of-known g m k same in
      rw (lookup-insert g h (key_of g m) m.node2key, hit, known)
  | inr miss ↦ rw (lookup-insert g h (key_of g m) m.node2key, miss) e
]

module _ (m : Map) (host1 host2 : Bytes) (s t : ℕ) (l : AreLinked m host1 host2 s t) where
  key_of-first : key_of host1 (touch_key host2 (touch_key host1 m)) ≡ s
  key_of-first =
      key_of-known host1 (touch_key host2 (touch_key host1 m)) s (
        lookup-touch_key host1 host2 (touch_key host1 m) s
          (lookup-touch_key host1 host1 m s l.key1))

  key_of-second : key_of host2 (touch_key host2 (touch_key host1 m)) ≡ t
  key_of-second =
      key_of-known host2 (touch_key host2 (touch_key host1 m)) t (
        lookup-touch_key host2 host2 (touch_key host1 m) t
          (lookup-touch_key host2 host1 m t l.key2))

  -- What `set_max_weight` between linked hosts does: both directions of the link weigh
  -- INT_MAX - 1 then, and every other line is as before.
  pub line_at-set_max_weight :
      (a b : ℕ)
      → line_at (set_max_weight host1 host2 m).lines a b ≡ (
          if (s == a && t == b) || (t == a && s == b)
          then record (line_at m.lines a b) { weight = int_max - 1 }
          else line_at m.lines a b)
  unfolding set_max_weight
  line_at-set_max_weight a b =
      let first = line_at-set_weight m.lines s t a b (int_max - 1) l.there in
      let second =
        line_at-set_weight (set_weight s t (int_max - 1) m.lines) t s a b (int_max - 1)
          (set_weight-HasLine m.lines s t t s (int_max - 1) l.there l.back) in
      rw (key_of-first, key_of-second) (ground (arith, first, second))

  -- What `set_init_weight` between linked hosts does: both directions have their initial weight
  -- again, and every other line is as before.
  pub line_at-set_init_weight :
      (a b : ℕ)
      → line_at (set_init_weight host1 host2 m).lines a b ≡ (
          if (s == a && t == b) || (t == a && s == b)
          then record (line_at m.lines a b) { weight = (line_at m.lines a b).init_weight }
          else line_at m.lines a b)
  unfolding set_init_weight
  line_at-set_init_weight a b =
      let w = (line_at m.lines s t).init_weight in
      let there = set_weight s t w m.lines in
      let first = line_at-set_weight m.lines s t a b w l.there in
      let first' = line_at-set_weight m.lines s t t s w l.there in
      let second =
        line_at-set_weight there t s a b (line_at there t s).init_weight
          (set_weight-HasLine m.lines s t t s w l.there l.back) in
      rw (key_of-first, key_of-second) (ground (arith, first, first', second))

  set_max_weight-AreLinked : AreLinked (set_max_weight host1 host2 m) host1 host2 s t
  unfolding set_max_weight
  set_max_weight-AreLinked = record {
    key1 =
        lookup-touch_key host1 host2 (touch_key host1 m) s
          (lookup-touch_key host1 host1 m s l.key1);
    key2 =
        lookup-touch_key host2 host2 (touch_key host1 m) t
          (lookup-touch_key host2 host1 m t l.key2);
    there = rw (key_of-first, key_of-second) (raised s t l.there);
    back = rw (key_of-first, key_of-second) (raised t s l.back);
  }
    where
      raised :
          (a b : ℕ)
          → HasLine m.lines a b
          → HasLine (set_weight t s (int_max - 1) (set_weight s t (int_max - 1) m.lines)) a b
      raised a b k =
          set_weight-HasLine (set_weight s t (int_max - 1) m.lines) t s a b (int_max - 1)
            (set_weight-HasLine m.lines s t t s (int_max - 1) l.there l.back)
            (set_weight-HasLine m.lines s t a b (int_max - 1) l.there k)

-- If both directions of a link have their initial weight, then raising the weight between its hosts
-- and restoring it gives every line of the map back.
pub set_init_weight-set_max_weight :
    (m : Map) (host1 host2 : Bytes) (s t : ℕ)
    → AreLinked m host1 host2 s t
    → (line_at m.lines s t).weight ≡ (line_at m.lines s t).init_weight
    → (line_at m.lines t s).weight ≡ (line_at m.lines t s).init_weight
    → (a b : ℕ)
    → line_at (set_init_weight host1 host2 (set_max_weight host1 host2 m)).lines a b
      ≡ line_at m.lines a b
set_init_weight-set_max_weight m host1 host2 s t l u v a b =
    let raised = set_max_weight host1 host2 m in
    let l' = set_max_weight-AreLinked m host1 host2 s t l in
    let up = line_at-set_max_weight m host1 host2 s t l a b in
    let down = line_at-set_init_weight raised host1 host2 s t l' a b in ground (arith, up, down)
