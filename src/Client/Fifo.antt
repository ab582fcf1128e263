-- ===== src/Client/Fifo.antt =====
-- One queue in shared memory under its two processes, which run at the same time. The writer is
-- Publisher::publish of src/Node/include/hmw/Publisher.hpp or Subscribe::publish2Node of
-- src/Master/src/shm/Subscribe.cpp, the reader Publish::onEventfdRead of src/Master/src/shm/Publish.cpp
-- or Subscriber::onRead of src/Node/include/hmw/Subscriber.hpp. A step is one call on the queue or on
-- the eventfd, and the steps of the two come in any order.
use mid_napi.Prelude.{
  ℕ, ◌+◌, ◌≤◌, ◌<◌, ◌≡◌, refl, sym, ap, subst, ◌∙◌, inl, inr, Bool, true, false, Option, none, some,
  List, [], ◌∷◌, ◌++◌, Bytes, arith, length, length-append, ltb, ltb→lt, not-ltb→le, Bool-cases,
  ◌==◌, append_assoc, append-nil,
}
use mid_napi.Shm.{queue_size}
use mid_napi.Shm.Library.{SharedLibrary}

-- Where the writer is: it has found room for a message, or it has pushed one and not signalled yet.
pub data Writer : Type 0 where
  idle : Writer
  has_room : Bytes → Writer
  has_pushed : Writer

-- What a step shows: a message that enters the queue, or one that the reader hands on.
pub data Label : Type 0 where
  accepts : Bytes → Label
  delivers : Bytes → Label
  silent : Label

-- The specification: a queue of at most `queue_size` messages, first in, first out.
pub data FifoStep : List Bytes → Label → List Bytes → Type 0 where
  enqueues :
      (b : Bytes) {q q' : List Bytes}
      → length q < queue_size
      → q' ≡ q ++ b ∷ []
      → FifoStep q (accepts b) q'
  dequeues : (b : Bytes) {q q' : List Bytes} → q ≡ b ∷ q' → FifoStep q (delivers b) q'
  stays : {q q' : List Bytes} → q' ≡ q → FifoStep q silent q'

pub data FifoRun : List Bytes → List Label → List Bytes → Type 0 where
  at_rest : {q : List Bytes} → FifoRun q [] q
  then_step :
      {q q' q'' : List Bytes} {e : Label} {es : List Label}
      → FifoStep q e q'
      → FifoRun q' es q''
      → FifoRun q (e ∷ es) q''

abbrev pub accepted_of : List Label → List Bytes
accepted_of [] = []
accepted_of (accepts b ∷ es) = b ∷ accepted_of es
accepted_of (delivers b ∷ es) = accepted_of es
accepted_of (silent ∷ es) = accepted_of es

abbrev pub delivered_of : List Label → List Bytes
delivered_of [] = []
delivered_of (accepts b ∷ es) = delivered_of es
delivered_of (delivers b ∷ es) = b ∷ delivered_of es
delivered_of (silent ∷ es) = delivered_of es

abbrev pub unsignalled : Writer → ℕ
unsignalled idle = 0
unsignalled (has_room b) = 0
unsignalled has_pushed = 1

abbrev pub KeepsRoom : Writer → ℕ → Type 0
KeepsRoom idle n = Unit
KeepsRoom (has_room b) n = n < queue_size
KeepsRoom has_pushed n = Unit

-- What the reader does with a pop: `onEventfdRead` does not look at its result, `onRead` does.
abbrev pub unchecked : Option Bytes → Label
unchecked none = delivers []
unchecked (some b) = delivers b

abbrev pub checked : Option Bytes → Label
checked none = silent
checked (some b) = delivers b

abbrev pub pushed_label : Bool → Bytes → Label
pushed_label true b = accepts b
pushed_label false b = silent

abbrev pub after_push : Bool → Writer
after_push true = has_pushed
after_push false = idle

nonempty : (bs : List Bytes) → 0 < length bs → (b : Bytes) × (bs' : List Bytes) × (bs ≡ b ∷ bs')
nonempty [] h = absurd (omega (arith, h))
nonempty (b ∷ bs) h = (b, bs, refl)

less-KeepsRoom : (w : Writer) (m n : ℕ) → m + 1 ≡ n → KeepsRoom w n → KeepsRoom w m
less-KeepsRoom idle m n e k = tt
less-KeepsRoom (has_room b) m n e k = omega (arith, e, k)
less-KeepsRoom has_pushed m n e k = tt

-- What was delivered and is left is what was there and was accepted, in order.
pub FifoRun-order :
    {q q' : List Bytes} {es : List Label}
    → FifoRun q es q'
    → delivered_of es ++ q' ≡ q ++ accepted_of es
FifoRun-order {q = q} at_rest = sym (append-nil q)
FifoRun-order {es = accepts b' ∷ es} (then_step (enqueues b {q = q} room e) r) =
    FifoRun-order r ∙ ap (λ x. x ++ accepted_of es) e ∙ append_assoc q (b ∷ []) (accepted_of es)
FifoRun-order {es = delivers b' ∷ es} (then_step (dequeues b e) r) =
    ap (◌∷◌ b) (FifoRun-order r) ∙ ap (λ x. x ++ accepted_of es) (sym e)
FifoRun-order {es = silent ∷ es} (then_step (stays e) r) =
    FifoRun-order r ∙ ap (λ x. x ++ accepted_of es) e

module _ (lib : SharedLibrary queue_size) where
  open lib use {
    Queue, contents, push, pop, write_available, value, signal, read, push_room, contents-push,
    push_full, pop_first, contents-pop, write_available-contents, value-signal, read_value,
    value-read,
  }

  pub record Shared : Type 0 where
    pub queue : Queue
    pub eventfd : lib.Eventfd
    pub writer : Writer
    -- How many pops the reader still makes.
    pub in_hand : ℕ

  pub data Step : Shared → Label → Shared → Type 0 where
    checks :
        (b : Bytes) (s : Shared)
        → s.writer ≡ idle
        → (write_available s.queue == 0) ≡ false
        → Step s silent (record s { writer = has_room b })
    pushes :
        (b : Bytes) (s : Shared)
        → s.writer ≡ has_room b
        → Step s
            (pushed_label (push b s.queue).0 b)
            (record s { queue = (push b s.queue).1; writer = has_pushed })
    offers :
        (b : Bytes) (s : Shared)
        → s.writer ≡ idle
        → Step s
            (pushed_label (push b s.queue).0 b)
            (record s { queue = (push b s.queue).1; writer = after_push (push b s.queue).0 })
    signals :
        (s : Shared)
        → s.writer ≡ has_pushed
        → Step s silent (record s { eventfd = signal s.eventfd; writer = idle })
    reads :
        (s : Shared)
        → s.in_hand ≡ 0
        → Step s silent (record s { eventfd = (read s.eventfd).1; in_hand = (read s.eventfd).0 })
    pops :
        (n : ℕ) (s : Shared)
        → s.in_hand ≡ n + 1
        → Step s (unchecked (pop s.queue).0) (record s { queue = (pop s.queue).1; in_hand = n })
    tries :
        (n : ℕ) (s : Shared)
        → s.in_hand ≡ n + 1
        → Step s (checked (pop s.queue).0) (record s { queue = (pop s.queue).1; in_hand = n })

  pub data Run : Shared → List Label → Shared → Type 0 where
    ends : {s : Shared} → Run s [] s
    goes :
        {s t u : Shared} {e : Label} {es : List Label} → Step s e t → Run t es u → Run s (e ∷ es) u

  -- The queue holds as many messages as were signalled and not read, are still to be popped, or are
  -- just being signalled.
  abbrev pub IsBalanced : Shared → Type 0
  IsBalanced s =
      (length (contents s.queue) ≡ value s.eventfd + s.in_hand + unsignalled s.writer)
      × (length (contents s.queue) ≤ queue_size)
      × KeepsRoom s.writer (length (contents s.queue))

  abbrev Simulates : Shared → Label → Shared → Type 0
  Simulates s e t = IsBalanced t × FifoStep (contents s.queue) e (contents t.queue)

  length-push :
      (b : Bytes) (q : Queue)
      → length (contents q) < queue_size
      → length (contents (push b q).1) ≡ length (contents q) + 1
  length-push b q room = ap length (contents-push b q room) ∙ length-append (contents q) (b ∷ [])

  push-Simulates :
      (b : Bytes) (s : Shared)
      → unsignalled s.writer ≡ 0
      → length (contents s.queue) < queue_size
      → IsBalanced s
      → Simulates s
          (pushed_label (push b s.queue).0 b)
          (record s { queue = (push b s.queue).1; writer = has_pushed })
  push-Simulates b s w room (n, bound, k) = rw (push_room b s.queue room) (
    (
      omega (arith, length-push b s.queue room, n, w),
      omega (arith, length-push b s.queue room),
      tt,
    ),
    enqueues b room (contents-push b s.queue room),
  )

  offer-Simulates :
      (b : Bytes) (s : Shared)
      → s.writer ≡ idle
      → IsBalanced s
      → Simulates s
          (pushed_label (push b s.queue).0 b)
          (record s { queue = (push b s.queue).1; writer = after_push (push b s.queue).0 })
  offer-Simulates b s w (n, bound, k) =
      elim (Bool-cases (ltb (length (contents s.queue)) queue_size)) [
        | inl less ↦
            let room = ltb→lt (length (contents s.queue)) queue_size less in
            let done = push-Simulates b s (ap unsignalled w) room (n, bound, k) in
            subst
              (λ x.
                Simulates s (pushed_label (push b s.queue).0 b)
                  (record s { queue = (push b s.queue).1; writer = after_push x }))
              (sym (push_room b s.queue room)) done
        | inr full ↦
            let same =
              push_full b s.queue (not-ltb→le (length (contents s.queue)) queue_size full) in
            rw same ((omega (arith, n, ap unsignalled w), bound, tt), stays refl)
      ]

  pop-Simulates :
      (n : ℕ) (s : Shared)
      → s.in_hand ≡ n + 1
      → IsBalanced s
      → (b : Bytes) × ((pop s.queue).0 ≡ some b)
        × Simulates s (delivers b) (record s { queue = (pop s.queue).1; in_hand = n })
  pop-Simulates n s z (m, bound, k) =
      let (b, bs, e) = nonempty (contents s.queue) (omega (arith, m, z)) in
      let left = contents-pop b bs s.queue e in
      let fewer : length (contents (pop s.queue).1) + 1 ≡ length (contents s.queue) =
        omega (arith, ap length left, ap length e) in
      (
        b,
        pop_first b bs s.queue e,
        (
          (
            omega (arith, fewer, m, z),
            omega (arith, fewer, bound),
            less-KeepsRoom s.writer _ _ fewer k,
          ),
          dequeues b (e ∙ ap (◌∷◌ b) (sym left)),
        ),
      )

  Step-Simulates : {s t : Shared} {e : Label} → Step s e t → IsBalanced s → Simulates s e t
  Step-Simulates (checks b s w room) (n, bound, k) = (
    (
      omega (arith, n, ap unsignalled w),
      bound,
      ground (arith, room, write_available-contents s.queue),
    ),
    stays refl,
  )
  Step-Simulates (pushes b s w) h =
      push-Simulates b s (ap unsignalled w)
        (subst (λ x. KeepsRoom x (length (contents s.queue))) w h.2) h
  Step-Simulates (offers b s w) h = offer-Simulates b s w h
  Step-Simulates (signals s w) (n, bound, k) =
      ((omega (arith, n, ap unsignalled w, value-signal s.eventfd), bound, tt), stays refl)
  Step-Simulates (reads s z) (n, bound, k) =
      ((omega (arith, n, z, value-read s.eventfd, read_value s.eventfd), bound, k), stays refl)
  Step-Simulates (pops n s z) h = let (b, e, done) = pop-Simulates n s z h in rw e done
  Step-Simulates (tries n s z) h = let (b, e, done) = pop-Simulates n s z h in rw e done

  -- However the calls of the writer and of the reader of a queue interleave, the queue behaves as a
  -- first-in first-out queue of at most `queue_size` messages: if it is balanced at the start, every
  -- step does what that queue does or nothing, each pop finds a message, and it is balanced again at
  -- the end.
  pub Run-FifoRun :
      {s t : Shared} {es : List Label}
      → Run s es t
      → IsBalanced s
      → IsBalanced t × FifoRun (contents s.queue) es (contents t.queue)
  Run-FifoRun ends h = (h, at_rest)
  Run-FifoRun (goes st r) h =
      let (h', f) = Step-Simulates st h in let (h'', fs) = Run-FifoRun r h' in (h'', then_step f fs)
