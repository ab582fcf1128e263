-- ===== src/Client/Calls.antt =====
-- The operations on a shared queue as runs of the steps of Client/Fifo.antt: Publisher::publish and
-- Subscriber::onRead of src/Node, and Subscribe::publish2Node of src/Master/src/shm/Subscribe.cpp.
use mid_napi.Prelude.{
  ℕ, zero, suc, ◌≡◌, refl, ap, ◌∙◌, inl, inr, Bool, true, false, Option, List, [], ◌∷◌, Bytes,
  arith, ◌==◌, Bool-cases, Option-cases, length, subst,
}
use mid_napi.Http.{HttpLibrary}
use mid_napi.Shm.{queue_size, Channel}
use mid_napi.Shm.Library.{SharedLibrary}
use mid_napi.Shm.Transfer.{publish_to_channel}
use mid_napi.Client.{publish_client, deliver_each, on_read}
use mid_napi.Client.Fifo.{
  idle, after_push, accepts, Step, pushed_label, checked, Label, delivers, silent, delivered_of,
  Shared, Run, ends, goes, checks, pushes, offers, signals, tries,
}

module _ (lib : SharedLibrary queue_size) where
  open lib use {
    Queue, Eventfd, contents, push, pop, write_available, value, signal, read, pop_first,
    contents-pop, read_value,
  }

  -- A channel whose writer is between two calls.
  abbrev pub shared : Queue → Eventfd → ℕ → Shared lib
  shared q fd n = record { queue = q; eventfd = fd; writer = idle; in_hand = n }

  publish_client-Run :
      (b : Bytes) (ch : Channel lib) (n : ℕ)
      → (es : List Label) × Run lib
          (shared ch.queue ch.eventfd n)
          es
          (shared (publish_client lib b ch).queue (publish_client lib b ch).eventfd n)
  unfolding publish_client
  publish_client-Run b ch n = elim (Bool-cases (write_available ch.queue == 0)) [
    | inl e ↦ ([], rw (e, publish_client) ends)
    | inr e ↦ (
      silent ∷ pushed_label (push b ch.queue).0 b ∷ silent ∷ [],
      rw (e, publish_client)
          (goes (checks b _ refl e) (goes (pushes b _ refl) (goes (signals _ refl) ends))),
    )
  ]

  publish_to_channel-Run :
      (http : HttpLibrary) (b : Bytes) (ch : Channel lib) (n : ℕ)
      → (es : List Label) × Run lib (shared ch.queue ch.eventfd n) es (
          shared
            (publish_to_channel http lib b ch).queue
            (publish_to_channel http lib b ch).eventfd
            n)
  unfolding publish_to_channel
  publish_to_channel-Run http b ch n = elim (Bool-cases (push b ch.queue).0) [
    | inl e ↦ (accepts b ∷ silent ∷ [], rw e (goes (offered e) (goes (signals _ refl) ends)))
    | inr e ↦ (silent ∷ [], rw e (goes (offered e) ends))
  ]
    where
      offered :
          {x : Bool}
          → (push b ch.queue).0 ≡ x
          → Step lib (shared ch.queue ch.eventfd n) (pushed_label x b) (record {
            queue = (push b ch.queue).1;
            eventfd = ch.eventfd;
            writer = after_push x;
            in_hand = n;
          })
      offered e =
          subst
            (λ x. Step lib (shared ch.queue ch.eventfd n) (pushed_label x b) (record {
              queue = (push b ch.queue).1;
              eventfd = ch.eventfd;
              writer = after_push x;
              in_hand = n;
            }))
            e (offers b (shared ch.queue ch.eventfd n) refl)

  deliver_each-Run :
      (n : ℕ) (q : Queue) (fd : Eventfd)
      → (es : List Label) × (delivered_of es ≡ (deliver_each lib n q).0)
        × Run lib (shared q fd n) es (shared (deliver_each lib n q).1 fd 0)
  unfolding deliver_each
  deliver_each-Run zero q fd = ([], refl, ends)
  deliver_each-Run (suc n) q fd =
      let (es, d, r) = deliver_each-Run n (pop q).1 fd in
      elim (Option-cases (pop q).0) [
        | inl e ↦ (silent ∷ es, rw (e, deliver_each) d, rw (e, deliver_each) (goes (tried e) r))
        | inr (b, e) ↦ (
          delivers b ∷ es,
          rw (e, deliver_each) (ap (◌∷◌ b) d),
          rw (e, deliver_each) (goes (tried e) r),
        )
      ]
    where
      tried :
          {o : Option Bytes}
          → (pop q).0 ≡ o
          → Step lib (shared q fd (suc n)) (checked o) (shared (pop q).1 fd n)
      tried e =
          subst (λ o. Step lib (shared q fd (suc n)) (checked o) (shared (pop q).1 fd n)) e
            (tries n (shared q fd (suc n)) (omega arith))

  deliver_each-contents :
      (bs : List Bytes) (q : Queue)
      → contents q ≡ bs
      → ((deliver_each lib (length bs) q).0 ≡ bs)
        × (contents (deliver_each lib (length bs) q).1 ≡ [])
  unfolding deliver_each
  deliver_each-contents [] q e = (refl, e)
  deliver_each-contents (b ∷ bs) q e =
      let (all, left) = deliver_each-contents bs (pop q).1 (contents-pop b bs q e) in
      rw (pop_first b bs q e) (ap (◌∷◌ b) all, left)

  -- A subscriber whose counter agrees with its queue hands just the queued messages to its callback,
  -- oldest first, and leaves the queue empty.
  pub on_read-contents :
      (q : Queue) (fd : Eventfd)
      → value fd ≡ length (contents q)
      → (left : Queue) × (contents left ≡ [])
        × (on_read lib false (read fd).0 q ≡ (contents q, left, true))
  unfolding on_read
  on_read-contents q fd e =
      let bs = contents q in
      let (all, none_left) = deliver_each-contents bs q refl in
      (
        (deliver_each lib (length bs) q).1,
        none_left,
        ap (λ n. on_read lib false n q) (read_value fd ∙ e)
            ∙ ap (λ xs. (xs, (deliver_each lib (length bs) q).1, true)) all,
      )
