-- ===== src/Shm/Sample.antt =====
-- Queues and eventfds that can be evaluated: they show that the documented behaviour which
-- SharedLibrary asks of boost::lockfree and of the kernel can hold, and the tests run on them.
use mid_napi.Prelude.{
  ℕ, ◌+◌, ◌-◌, ◌≤◌, ◌<◌, ◌≡◌, refl, ap, Bool, true, false, Option, none, some, List, [], ◌∷◌, ◌++◌,
  Bytes, length, ltb, lt→ltb, le→not-ltb, if◌then◌else◌,
}
use mid_napi.Shm.{queue_size}
use mid_napi.Shm.Library.{SharedLibrary}

abbrev pub push_list : Bytes → List Bytes → Bool × List Bytes
push_list b q = if ltb (length q) queue_size then (true, q ++ b ∷ []) else (false, q)

abbrev pub pop_list : List Bytes → Option Bytes × List Bytes
pop_list [] = (none, [])
pop_list (b ∷ q) = (some b, q)

pub push_list_room :
    (b : Bytes) (q : List Bytes) → length q < queue_size → push_list b q ≡ (true, q ++ b ∷ [])
push_list_room b q h = rw (lt→ltb (length q) queue_size h) refl

pub push_list_full :
    (b : Bytes) (q : List Bytes) → queue_size ≤ length q → push_list b q ≡ (false, q)
push_list_full b q h = rw (le→not-ltb (length q) queue_size h) refl

pub pop_list_empty : (q : List Bytes) → q ≡ [] → pop_list q ≡ (none, q)
pop_list_empty q e = rw e refl

abbrev pub queues : SharedLibrary queue_size
queues = record {
  Queue = List Bytes;
  new_queue = [];
  push = push_list;
  pop = pop_list;
  write_available = λ q. queue_size - length q;
  contents = λ q. q;
  contents-new_queue = refl;
  push_room = λ b q h. ap (λ r. r.0) (push_list_room b q h);
  contents-push = λ b q h. ap (λ r. r.1) (push_list_room b q h);
  push_full = push_list_full;
  pop_empty = pop_list_empty;
  pop_first = λ b bs q e. ap (λ xs. (pop_list xs).0) e;
  contents-pop = λ b bs q e. ap (λ xs. (pop_list xs).1) e;
  write_available-contents = λ q. refl;
  Eventfd = ℕ;
  value = λ fd. fd;
  signal = λ fd. fd + 1;
  read = λ fd. (fd, 0);
  value-signal = λ fd. refl;
  read_value = λ fd. refl;
  value-read = λ fd. refl;
}
