-- ===== src/PidQueue.antt =====
-- user/pidqueue.c: the queue of pids behind a mutex or a condition variable, on an explicit heap.
-- The address that malloc returns is an argument of queue_add; free takes the node off the heap.
pub mod Chain
mod Tests
use cs_577_p.Base.{ℕ, Bool, true, false, Option, none, some, Outcome, ok, wild, if◌then◌else◌, ◌==◌}

-- `pidStruct`; `none` is a null pointer.
pub record Node : Type 0 where
  pub pid : ℕ
  pub next : Option ℕ

abbrev pub Heap : Type 0
Heap = ℕ → Option Node

abbrev pub update : Heap → ℕ → Option Node → Heap
update h a n b = if a == b then n else h b

-- `pidQueue`
pub record Queue : Type 0 where
  pub head : Option ℕ
  pub tail : Option ℕ

unfoldable pub queue_init : Queue → Queue
queue_init q = record { head = none; tail = none }

abbrev pub same_ptr : Option ℕ → Option ℕ → Bool
same_ptr none none = true
same_ptr none (some b) = false
same_ptr (some a) none = false
same_ptr (some a) (some b) = a == b

abbrev pub next_of : Option Node → Option ℕ
next_of none = none
next_of (some n) = n.next

abbrev pub pid_of : Option Node → ℕ
pid_of none = 0
pid_of (some n) = n.pid

-- `none` is the -1 of an empty queue.
unfoldable pub queue_remove : Heap → Queue → Option ℕ × Heap × Queue
queue_remove h q = elim q.head [
  | none ↦ (none, h, q)
  | some rem ↦ (
    some (pid_of (h rem)),
    update h rem none,
    (if same_ptr q.head q.tail
        then record { head = none; tail = none }
        else record q { head = next_of (h rem) }),
  )
]

-- q->tail->next = new
abbrev pub link : Option Node → ℕ → Option Node
link none new = none
link (some n) new = some (record n { next = some new })

unfoldable pub queue_empty : Queue → Bool
queue_empty q = elim q.head [ none ↦ elim q.tail [ none ↦ true | some t ↦ false ] | some a ↦ false ]

-- `new` is what malloc returned. `wild` is a write through a null `tail`.
unfoldable pub queue_add : ℕ → Heap → Queue → ℕ → Outcome (Heap × Queue)
unfolding queue_empty
queue_add pid h q new =
    let fresh : Option Node = some (record { pid = pid; next = none }) in
    if queue_empty q
    then ok (update h new fresh, record { head = some new; tail = some new })
    else elim q.tail [
      | none ↦ wild
      | some t ↦ ok (update (update h t (link (h t) new)) new fresh, record q { tail = some new })
    ]
