-- ===== src/Shm/Library.antt =====
-- What the local nodes use of boost::lockfree and of the Linux kernel: a queue of messages in shared
-- memory between one writer and one reader (lock_free_queue of src/Master/src/shm/Define.hpp), and
-- an eventfd. Neither is part of the repository, so both are parameters, with their documented
-- behaviour; the memory of a segment does not run out, so a push fails only where the queue is full.
-- `contents` is what a queue holds, oldest first, and `value` is an eventfd's counter.
use mid_napi.Prelude.{
  ℕ, ◌+◌, ◌-◌, ◌≤◌, ◌<◌, ◌≡◌, Bool, true, false, Option, none, some, List, [], ◌∷◌, ◌++◌, Bytes,
  length,
}

pub record SharedLibrary (capacity : ℕ) : Type 1 where
  pub Queue : Type 0
  -- lockfree::spsc_queue<string, lockfree::capacity<capacity>>()
  pub new_queue : Queue
  pub push : Bytes → Queue → Bool × Queue
  pub pop : Queue → Option Bytes × Queue
  pub write_available : Queue → ℕ
  pub contents : Queue → List Bytes
  pub contents-new_queue : contents new_queue ≡ []
  pub push_room : (b : Bytes) (q : Queue) → length (contents q) < capacity → (push b q).0 ≡ true
  pub contents-push :
      (b : Bytes) (q : Queue)
      → length (contents q) < capacity
      → contents (push b q).1 ≡ contents q ++ b ∷ []
  pub push_full : (b : Bytes) (q : Queue) → capacity ≤ length (contents q) → push b q ≡ (false, q)
  pub pop_empty : (q : Queue) → contents q ≡ [] → pop q ≡ (none, q)
  pub pop_first :
      (b : Bytes) (bs : List Bytes) (q : Queue) → contents q ≡ b ∷ bs → (pop q).0 ≡ some b
  pub contents-pop :
      (b : Bytes) (bs : List Bytes) (q : Queue) → contents q ≡ b ∷ bs → contents (pop q).1 ≡ bs
  pub write_available-contents : (q : Queue) → write_available q ≡ capacity - length (contents q)
  pub Eventfd : Type 0
  pub value : Eventfd → ℕ
  -- Writing 1.
  pub signal : Eventfd → Eventfd
  -- Reading: the counter, and the eventfd with the counter at 0.
  pub read : Eventfd → ℕ × Eventfd
  pub value-signal : (fd : Eventfd) → value (signal fd) ≡ value fd + 1
  pub read_value : (fd : Eventfd) → (read fd).0 ≡ value fd
  pub value-read : (fd : Eventfd) → value (read fd).1 ≡ 0
