-- ===== src/Shm/Delivery.antt =====
-- What becomes of the messages of a local publisher: Publish::onEventfdRead of
-- src/Master/src/shm/Publish.cpp and MiddlewareManager::transferInnerMessage of
-- src/Master/src/MiddlewareManager.cpp.
use mid_napi.Prelude.{
  ℕ, ◌+◌, ◌++◌, ◌&&◌, ltb, ltb→lt, not-ltb→le, zero, suc, ◌≡◌, refl, sym, ap, ◌∙◌, inl, inr, Bool,
  true, false, ◌||◌, Option, none, some, ◌>>=◌, List, [], ◌∷◌, Bytes, arith, length, lookup,
  bytes_eq, ◌==◌, if◌then◌else◌, Bool-cases, Option-cases, subst,
}
use mathlib.Core.Path.{fun_ext}
use mid_napi.Http.{HttpLibrary}
use mid_napi.Registry.Manager.{publish}
use mid_napi.Shm.{Endpoint, queue_size, endpoints_of, at_id, Channel, Master}
use mid_napi.Shm.Library.{SharedLibrary}
use mid_napi.Shm.Transfer.{
  publish_to_channel, publish_to_node, publish_to_each, transfer_inner_message, transfer_message,
  popped, transfer_each, read_eventfd, on_eventfd_read,
}

abbrev pub has_id : ℕ → List Endpoint → Bool
has_id i [] = false
has_id i (e ∷ es) = (e.id == i) || has_id i es

-- No two of them have the same number.
abbrev pub AreDistinct : List Endpoint → Type 0
AreDistinct [] = Unit
AreDistinct (e ∷ es) = (has_id e.id es ≡ false) × AreDistinct es

at_id_self : {A : Type 0} (i : ℕ) (a : A) (f : ℕ → A) → at_id i a f i ≡ a
at_id_self i a f = ground arith

at_id_twice : {A : Type 0} (i : ℕ) (a b : A) (f : ℕ → A) → at_id i b (at_id i a f) ≡ at_id i b f
at_id_twice i a b f = fun_ext (λ j.
    elim (Bool-cases (j == i))
      as (λ x. (if j == i then b else (if j == i then a else f j)) ≡ (if j == i then b else f j)) [
        | inl e ↦ rw e refl
        | inr e ↦ rw e refl
      ])

-- Two chains of steps whose ends agree.
bind_both :
    {A B C : Type 0} (f g : A → B) (h k : B → Option C)
    → ((a : A) → h (f a) ≡ k (g a))
    → (o : Option A) → (o >>= (λ a. some (f a)) >>= h) ≡ (o >>= (λ a. some (g a)) >>= k)
bind_both f g h k agree none = refl
bind_both f g h k agree (some a) = agree a

-- The state of the publishers' channels replaced.
abbrev pub with_channels :
    {lib : SharedLibrary queue_size} {Request : Type 0}
    → (ℕ → Channel lib)
    → Master lib Request
    → Master lib Request
with_channels f m = record m { pub_channels = f }

module _ (http : HttpLibrary) (lib : SharedLibrary queue_size) where
  open http use {Request}
  open lib use {
    Queue, contents, pop, read, value, pop_first, contents-pop, read_value, value-read, push_room,
    push_full, contents-push, signal, value-signal,
  }

  publish_to_each-channel :
      (ss : List Endpoint) (message : Bytes) (m : Master lib Request) (i : ℕ)
      → AreDistinct ss
      → (publish_to_each http lib ss message m).sub_channels i ≡ (
          if has_id i ss
          then publish_to_channel http lib message (m.sub_channels i)
          else m.sub_channels i)
  unfolding publish_to_each publish_to_node
  publish_to_each-channel [] message m i d = refl
  publish_to_each-channel (s ∷ ss) message m i (new, d) =
      publish_to_each-channel ss message (publish_to_node http lib s message m) i d
      ∙ ground (arith, new)

  -- A push appends the message and counts it where there is room, and changes nothing otherwise.
  publish_to_channel-contents :
      (message : Bytes) (ch : Channel lib)
      → let ch' = publish_to_channel http lib message ch in
        let room = ltb (length (contents ch.queue)) queue_size in
        (contents ch'.queue
          ≡ (if room then contents ch.queue ++ message ∷ [] else contents ch.queue))
        × (value ch'.eventfd ≡ (if room then value ch.eventfd + 1 else value ch.eventfd))
  unfolding publish_to_channel
  publish_to_channel-contents message ch =
      elim (Bool-cases (ltb (length (contents ch.queue)) queue_size)) [
        | inl room ↦
            let fits = ltb→lt (length (contents ch.queue)) queue_size room in
            rw (room, push_room message ch.queue fits)
              (contents-push message ch.queue fits, value-signal ch.eventfd)
        | inr full ↦
            rw
              (
                full,
                push_full message ch.queue
                    (not-ltb→le (length (contents ch.queue)) queue_size full),
              )
              (refl, refl)
      ]

  transfer_inner_message-channel :
      (topic message : Bytes) (m : Master lib Request) (i : ℕ)
      → AreDistinct (endpoints_of topic m.subscribes)
      → (transfer_inner_message http lib topic message m).sub_channels i ≡ (
          if has_id i (endpoints_of topic m.subscribes)
          then publish_to_channel http lib message (m.sub_channels i)
          else m.sub_channels i)
  unfolding transfer_inner_message
  transfer_inner_message-channel topic message m i d =
      elim (Option-cases (lookup topic m.subscribes)) [
        | inl e ↦
            let same : endpoints_of topic m.subscribes ≡ [] = rw (e, endpoints_of) refl in
            rw (e, same, transfer_inner_message) refl
        | inr (ss, e) ↦
            let same : endpoints_of topic m.subscribes ≡ ss = rw (e, endpoints_of) refl in
            rw (e, same, transfer_inner_message)
              (publish_to_each-channel ss message m i (subst AreDistinct same d))
      ]

  -- A message from another host goes once behind what waits in the queue of each local subscriber of
  -- its topic that has room, and is signalled there, if no object is entered twice. In a full queue, and
  -- in those of all others, nothing changes.
  pub transfer_inner_message-contents :
      (topic message : Bytes) (m : Master lib Request) (i : ℕ)
      → AreDistinct (endpoints_of topic m.subscribes)
      → let ch = m.sub_channels i in
        let ch' = (transfer_inner_message http lib topic message m).sub_channels i in
        let accepted =
          has_id i (endpoints_of topic m.subscribes)
          && ltb (length (contents ch.queue)) queue_size in
        (contents ch'.queue
          ≡ (if accepted then contents ch.queue ++ message ∷ [] else contents ch.queue))
        × (value ch'.eventfd ≡ (if accepted then value ch.eventfd + 1 else value ch.eventfd))
  transfer_inner_message-contents topic message m i d =
      elim (Bool-cases (has_id i (endpoints_of topic m.subscribes))) [
        | inl there ↦
            rw (transfer_inner_message-channel topic message m i d, there)
              (publish_to_channel-contents message (m.sub_channels i))
        | inr other ↦ rw (transfer_inner_message-channel topic message m i d, other) (refl, refl)
      ]

  publish_to_each-with_channels :
      (ss : List Endpoint) (message : Bytes) (f : ℕ → Channel lib) (m : Master lib Request)
      → publish_to_each http lib ss message (with_channels f m)
        ≡ with_channels f (publish_to_each http lib ss message m)
  unfolding publish_to_each publish_to_node
  publish_to_each-with_channels [] message f m = refl
  publish_to_each-with_channels (s ∷ ss) message f m =
      publish_to_each-with_channels ss message f (publish_to_node http lib s message m)

  transfer_message-with_channels :
      (topic message : Bytes) (f : ℕ → Channel lib) (m : Master lib Request)
      → transfer_message http lib topic message (with_channels f m)
        ≡ (transfer_message http lib topic message m >>= λ m'. some (with_channels f m'))
  unfolding transfer_message
  transfer_message-with_channels topic message f m =
      elim (Option-cases (publish http topic message m.interface)) [
        | inl e ↦ rw e refl
        | inr (interface, e) ↦ elim (Option-cases (lookup topic m.subscribes)) [
          | inl none_there ↦ rw (e, none_there) refl
          | inr (ss, there) ↦
              rw (e, there)
                (ap some
                  (publish_to_each-with_channels ss message f (record m { interface = interface })))
        ]
      ]

  -- The messages of a list are transferred one after the other.
  abbrev pub transfer_all : Bytes → List Bytes → Master lib Request → Option (Master lib Request)
  transfer_all topic [] m = some m
  transfer_all topic (message ∷ messages) m =
      transfer_message http lib topic message m >>= transfer_all topic messages

  -- What is left after a number of pops.
  abbrev pub popped_queue : ℕ → Queue → Queue
  popped_queue zero q = q
  popped_queue (suc n) q = popped_queue n (pop q).1

  contents-popped_queue :
      (bs : List Bytes) (q : Queue) → contents q ≡ bs → contents (popped_queue (length bs) q) ≡ []
  contents-popped_queue [] q e = e
  contents-popped_queue (b ∷ bs) q e = contents-popped_queue bs (pop q).1 (contents-pop b bs q e)

  transfer_each-first :
      (n : ℕ) (b : Bytes) (q : Queue) (p : Endpoint) (ch : Channel lib) (f : ℕ → Channel lib)
      (m : Master lib Request)
      → (pop q).0 ≡ some b
      → transfer_each http lib (suc n) p (with_channels (at_id p.id (record ch { queue = q }) f) m)
        ≡ (transfer_message http lib p.topic b
              (with_channels (at_id p.id (record ch { queue = (pop q).1 }) f) m)
            >>= transfer_each http lib n p)
  unfolding transfer_each
  transfer_each-first n b q p ch f m e =
      let here = at_id p.id (record ch { queue = q }) f in
      ap (λ c. after c (pop c.queue).0 (at_id p.id (record c { queue = (pop c.queue).1 }) here))
        (at_id_self p.id (record ch { queue = q }) f)
      ∙ ap (λ o. after ch o (at_id p.id (record ch { queue = (pop q).1 }) here)) e
      ∙ ap (after ch (some b))
          (at_id_twice p.id (record ch { queue = q }) (record ch { queue = (pop q).1 }) f)
    where
      after : Channel lib → Option Bytes → (ℕ → Channel lib) → Option (Master lib Request)
      after c o g =
          transfer_message http lib p.topic (popped http lib o) (with_channels g m)
          >>= transfer_each http lib n p

  transfer_each-transfer_all :
      (bs : List Bytes) (q : Queue) (p : Endpoint) (ch : Channel lib) (f : ℕ → Channel lib)
      (m : Master lib Request)
      → contents q ≡ bs
      → transfer_each http lib
          (length bs)
          p
          (with_channels (at_id p.id (record ch { queue = q }) f) m)
        ≡ transfer_all p.topic bs
            (with_channels (at_id p.id (record ch { queue = popped_queue (length bs) q }) f) m)
  unfolding transfer_each
  transfer_each-transfer_all [] q p ch f m e = refl
  transfer_each-transfer_all (b ∷ bs) q p ch f m e =
      let after = at_id p.id (record ch { queue = (pop q).1 }) f in
      let last = at_id p.id (record ch { queue = popped_queue (length bs) (pop q).1 }) f in
      transfer_each-first (length bs) b q p ch f m (pop_first b bs q e)
      ∙ ap (λ o. o >>= transfer_each http lib (length bs) p)
          (transfer_message-with_channels p.topic b after m)
      ∙ bind_both (with_channels after) (with_channels last) (transfer_each http lib (length bs) p)
          (transfer_all p.topic bs)
          (λ m'. transfer_each-transfer_all bs (pop q).1 p ch f m' (contents-pop b bs q e))
          (transfer_message http lib p.topic b m)
      ∙ ap (λ o. o >>= transfer_all p.topic bs)
          (sym (transfer_message-with_channels p.topic b last m))

  -- The Publish waits for its eventfd again.
  abbrev pub resumed : Endpoint → Master lib Request → Option (Master lib Request)
  resumed p m = some (record m { reading = at_id p.id true m.reading })

  -- When a read of a publisher's eventfd completes, and the counter agrees with the queue, the handler
  -- transfers just the queued messages, oldest first, and leaves the queue and the counter empty.
  pub on_eventfd_read-transfer_all :
      (p : Endpoint) (m : Master lib Request)
      → value (m.pub_channels p.id).eventfd ≡ length (contents (m.pub_channels p.id).queue)
      → (ch : Channel lib) × (contents ch.queue ≡ [])
        × (value ch.eventfd ≡ 0)
        × (on_eventfd_read http lib false
              (read_eventfd http lib p m).0
              p
              (read_eventfd http lib p m).1
            ≡ (transfer_all p.topic
                  (contents (m.pub_channels p.id).queue)
                  (with_channels (at_id p.id ch m.pub_channels) m)
                >>= resumed p))
  unfolding on_eventfd_read read_eventfd
  on_eventfd_read-transfer_all p m e =
      let ch = m.pub_channels p.id in
      let bs = contents ch.queue in
      (
        record { queue = popped_queue (length bs) ch.queue; eventfd = (read ch.eventfd).1 },
        contents-popped_queue bs ch.queue refl,
        value-read ch.eventfd,
        ap (λ n. on_eventfd_read http lib false n p (read_eventfd http lib p m).1)
              (read_value ch.eventfd ∙ e)
            ∙ ap (λ o. o >>= resumed p)
                (transfer_each-transfer_all bs ch.queue p
                  (record ch { eventfd = (read ch.eventfd).1 }) m.pub_channels m refl),
      )
