-- ===== src/Worker/Ring.antt =====
-- The rings of SPDK through which a worker of src/worker.c gets its requests. They are no part of the
-- repository: the operations are parameters, and what is relied on is that a ring is a bounded queue.
use bagdb_spdk.Base.{ℕ, ◌+◌, ◌≤◌, ◌≡◌, List, ◌++◌, length}

pub record RingOps : Type 1 where
  pub Ring : Type 0
  pub count : Ring → ℕ
  pub dequeue : Ring → ℕ → Ring × List ℕ
  pub enqueue : Ring → List ℕ → Ring × ℕ

-- A ring `r` with room for `cap` elements has the elements `xs`.
pub record IsQueue (ops : RingOps) : Type 1 where
  pub Holds : ops.Ring → ℕ → List ℕ → Type 0
  pub count_lem : (r : ops.Ring) (cap : ℕ) (xs : List ℕ) → Holds r cap xs → ops.count r ≡ length xs
  pub dequeue_lem :
      (r : ops.Ring) (cap : ℕ) (xs ys : List ℕ)
      → Holds r cap (xs ++ ys)
      → (Holds (ops.dequeue r (length xs)).0 cap ys) × ((ops.dequeue r (length xs)).1 ≡ xs)
  pub enqueue_lem :
      (r : ops.Ring) (cap : ℕ) (xs ys : List ℕ)
      → Holds r cap xs
      → length xs + length ys ≤ cap
      → (Holds (ops.enqueue r ys).0 cap (xs ++ ys)) × ((ops.enqueue r ys).1 ≡ length ys)
