-- ===== src/Shm/Tables.antt =====
-- The table of the publishers, or of the subscribers, of each topic against those of the nodes:
-- m_publishes and m_subscribes of src/Master/src/MiddlewareManager.hpp and of src/Master/src/shm/Node.hpp.
use mid_napi.Prelude.{
  ℕ, ◌≡◌, refl, sym, ap, ◌∙◌, inl, inr, Bool, true, false, not, ◌&&◌, ◌||◌, Option, none, some,
  List, [], ◌∷◌, ◌++◌, Bytes, arith, lookup, insert, erase, lookup-insert, lookup-erase, ◌==◌, ◌≟◌,
  bytes_eq, beq→eq, beq_refl, if◌then◌else◌, if_either, Bool-cases, Option-cases,
}
use mid_napi.Shm.{Endpoint, endpoints_of, enter}
use mid_napi.Shm.Controllers.{without, put_endpoints, leave, leave_each}
use mid_napi.Shm.Delivery.{has_id, AreDistinct}

-- An object with this number, of this node.
abbrev pub has_from : Bytes → ℕ → List Endpoint → Bool
has_from node i [] = false
has_from node i (e ∷ es) = (e.node_name ≟ node && e.id == i) || has_from node i es

-- An object with this number, for this topic.
abbrev pub has_for : Bytes → ℕ → List Endpoint → Bool
has_for topic i [] = false
has_for topic i (e ∷ es) = (e.topic ≟ topic && e.id == i) || has_for topic i es

pub has_from-append :
    (node : Bytes) (i : ℕ) (es : List Endpoint) (e : Endpoint)
    → has_from node i (es ++ e ∷ []) ≡ (has_from node i es || (e.node_name ≟ node && e.id == i))
has_from-append node i [] e = ground arith
has_from-append node i (x ∷ es) e = ground (arith, has_from-append node i es e)

pub has_id-append :
    (i : ℕ) (es : List Endpoint) (e : Endpoint)
    → has_id i (es ++ e ∷ []) ≡ (has_id i es || (e.id == i))
has_id-append i [] e = ground arith
has_id-append i (x ∷ es) e = ground (arith, has_id-append i es e)

pub has_for-append :
    (topic : Bytes) (i : ℕ) (es : List Endpoint) (e : Endpoint)
    → has_for topic i (es ++ e ∷ []) ≡ (has_for topic i es || (e.topic ≟ topic && e.id == i))
has_for-append topic i [] e = ground arith
has_for-append topic i (x ∷ es) e = ground (arith, has_for-append topic i es e)

has_from-without :
    (node : Bytes) (i k : ℕ) (es : List Endpoint)
    → has_from node i (without k es) ≡ (has_from node i es && not (k == i))
has_from-without node i k [] = refl
has_from-without node i k (e ∷ es) = ground (arith, has_from-without node i k es)

pub has_id-without :
    (i k : ℕ) (es : List Endpoint) → has_id i (without k es) ≡ (has_id i es && not (k == i))
has_id-without i k [] = refl
has_id-without i k (e ∷ es) = ground (arith, has_id-without i k es)

pub without-AreDistinct : (k : ℕ) (es : List Endpoint) → AreDistinct es → AreDistinct (without k es)
without-AreDistinct k [] d = tt
without-AreDistinct k (e ∷ es) (new, d) =
    if_either AreDistinct (e.id == k) (without k es) (e ∷ without k es) (without-AreDistinct k es d)
      (ground (arith, has_id-without e.id k es), without-AreDistinct k es d)

pub append-AreDistinct :
    (es : List Endpoint) (e : Endpoint)
    → AreDistinct es
    → has_id e.id es ≡ false
    → AreDistinct (es ++ e ∷ [])
append-AreDistinct [] e d h = (refl, tt)
append-AreDistinct (x ∷ es) e (new, d) h =
    (ground (arith, has_id-append x.id es e), append-AreDistinct es e d (ground arith))

pub has_from→has_id :
    (node : Bytes) (i : ℕ) (es : List Endpoint) → has_from node i es ≡ true → has_id i es ≡ true
has_from→has_id node i [] h = cc
has_from→has_id node i (e ∷ es) h = ground (arith, has_from→has_id node i es)

-- A number belongs to one node.
pub one_owner :
    (node node' : Bytes) (i : ℕ) (es : List Endpoint)
    → AreDistinct es
    → has_from node i es ≡ true
    → has_from node' i es ≡ true
    → node ≡ node'
one_owner node node' i [] d h h' = cc
one_owner node node' i (e ∷ es) (new, d) h h' = ground (
  arith,
  bytes_eq.beq_iff e.node_name node,
  bytes_eq.beq_iff e.node_name node',
  has_from→has_id node i es,
  has_from→has_id node' i es,
  one_owner node node' i es d,
)

-- The value at one key replaced by another one that agrees with it.
pub if_key :
    {A : Type 0} (k j : Bytes) (x : A) (f g : Bytes → A)
    → x ≡ g k
    → ((k ≟ j) ≡ false → f j ≡ g j)
    → (if k ≟ j then x else f j) ≡ g j
if_key k j x f g hit miss = elim (Bool-cases (k ≟ j)) [
  | inl h ↦ rw h (hit ∙ ap g (beq→eq k j h))
  | inr h ↦ rw h (miss h)
]

-- What an entry of a table stands for.
abbrev or_empty : Option (List Endpoint) → List Endpoint
or_empty none = []
or_empty (some es) = es

or_empty-if :
    (b : Bool) (x y : Option (List Endpoint))
    → or_empty (if b then x else y) ≡ (if b then or_empty x else or_empty y)
or_empty-if true x y = refl
or_empty-if false x y = refl

endpoints_of-lookup :
    (topic : Bytes) (table : List (Bytes × List Endpoint))
    → endpoints_of topic table ≡ or_empty (lookup topic table)
endpoints_of-lookup topic table = elim (Option-cases (lookup topic table)) [
  | inl e ↦ rw (e, endpoints_of) refl
  | inr (es, e) ↦ rw (e, endpoints_of) refl
]

endpoints_of-insert :
    (topic t : Bytes) (es : List Endpoint) (table : List (Bytes × List Endpoint))
    → endpoints_of t (insert topic es table) ≡ (if topic ≟ t then es else endpoints_of t table)
endpoints_of-insert topic t es table =
    endpoints_of-lookup t (insert topic es table)
    ∙ ap or_empty (lookup-insert topic t es table)
    ∙ or_empty-if (topic ≟ t) (some es) (lookup t table)
    ∙ ap (λ x. if topic ≟ t then es else x) (sym (endpoints_of-lookup t table))

endpoints_of-put :
    (topic t : Bytes) (es : List Endpoint) (table : List (Bytes × List Endpoint))
    → endpoints_of t (put_endpoints topic es table)
      ≡ (if topic ≟ t then es else endpoints_of t table)
endpoints_of-put topic t [] table =
    endpoints_of-lookup t (erase topic table)
    ∙ ap or_empty (lookup-erase topic t table)
    ∙ or_empty-if (topic ≟ t) none (lookup t table)
    ∙ ap (λ x. if topic ≟ t then [] else x) (sym (endpoints_of-lookup t table))
endpoints_of-put topic t (e ∷ es) table = endpoints_of-insert topic t (e ∷ es) table

-- The effect of `leave` on the objects of any topic.
has_from-leave :
    (node t : Bytes) (i : ℕ) (e : Endpoint) (table : List (Bytes × List Endpoint))
    → has_from node i (endpoints_of t (leave e table))
      ≡ (has_from node i (endpoints_of t table) && not (e.topic ≟ t && e.id == i))
unfolding leave
has_from-leave node t i e table =
    ap (has_from node i)
      (endpoints_of-put e.topic t (without e.id (endpoints_of e.topic table)) table)
    ∙ elim (Bool-cases (e.topic ≟ t))
        as (λ x.
          has_from node i (
            if e.topic ≟ t then without e.id (endpoints_of e.topic table) else endpoints_of t table)
          ≡ (has_from node i (endpoints_of t table) && not (e.topic ≟ t && e.id == i))) [
            | inl h ↦ rw h (
                has_from-without node i e.id (endpoints_of e.topic table)
                ∙ ap (λ x. has_from node i (endpoints_of x table) && not (e.id == i))
                    (beq→eq e.topic t h))
            | inr h ↦ rw h (ground arith)
          ]

pub has_from-leave_each :
    (node t : Bytes) (i : ℕ) (es : List Endpoint) (table : List (Bytes × List Endpoint))
    → has_from node i (endpoints_of t (leave_each es table))
      ≡ (has_from node i (endpoints_of t table) && not (has_for t i es))
unfolding leave_each
has_from-leave_each node t i [] table = ground arith
has_from-leave_each node t i (e ∷ es) table =
    ground (arith, has_from-leave_each node t i es (leave e table), has_from-leave node t i e table)

-- A property of a list that `without` keeps holds of every topic's objects after `leave`.
leave_keeps :
    (P : List Endpoint → Type 0) (e : Endpoint) (t : Bytes) (table : List (Bytes × List Endpoint))
    → ((es : List Endpoint) → P es → P (without e.id es))
    → P (endpoints_of e.topic table)
    → P (endpoints_of t table)
    → P (endpoints_of t (leave e table))
unfolding leave
leave_keeps P e t table keeps here there =
    rw (endpoints_of-put e.topic t (without e.id (endpoints_of e.topic table)) table) (
      if_either P (e.topic ≟ t) (without e.id (endpoints_of e.topic table)) (endpoints_of t table)
        (keeps (endpoints_of e.topic table) here) there)

pub leave_each_keeps :
    (P : List Endpoint → Type 0) (es : List Endpoint) (table : List (Bytes × List Endpoint))
    → ((k : ℕ) (xs : List Endpoint) → P xs → P (without k xs))
    → ((t : Bytes) → P (endpoints_of t table))
    → (t : Bytes) → P (endpoints_of t (leave_each es table))
unfolding leave_each
leave_each_keeps P [] table keeps h t = h t
leave_each_keeps P (e ∷ es) table keeps h t =
    leave_each_keeps P es (leave e table) keeps
      (λ u. leave_keeps P e u table (keeps e.id) (h e.topic) (h u)) t

pub endpoints_of-enter :
    (t : Bytes) (e : Endpoint) (table : List (Bytes × List Endpoint))
    → endpoints_of t (enter e table)
      ≡ (if e.topic ≟ t then endpoints_of t table ++ e ∷ [] else endpoints_of t table)
unfolding enter
endpoints_of-enter t e table =
    endpoints_of-insert e.topic t (endpoints_of e.topic table ++ e ∷ []) table
    ∙ if_key e.topic t (endpoints_of e.topic table ++ e ∷ []) (λ u. endpoints_of u table)
        (λ u. if e.topic ≟ u then endpoints_of u table ++ e ∷ [] else endpoints_of u table)
        (rw (beq_refl e.topic) refl) (λ h. rw h refl)

pub has_from-enter :
    (node t : Bytes) (i : ℕ) (e : Endpoint) (table : List (Bytes × List Endpoint))
    → has_from node i (endpoints_of t (enter e table)) ≡ (
        has_from node i (endpoints_of t table)
        || (e.topic ≟ t && (e.node_name ≟ node && e.id == i)))
has_from-enter node t i e table =
    ap (has_from node i) (endpoints_of-enter t e table) ∙ entered (e.topic ≟ t)
  where
    entered :
        (b : Bool)
        → has_from node i (if b then endpoints_of t table ++ e ∷ [] else endpoints_of t table)
          ≡ (has_from node i (endpoints_of t table) || (b && (e.node_name ≟ node && e.id == i)))
    entered true = has_from-append node i (endpoints_of t table) e
    entered false = ground arith
