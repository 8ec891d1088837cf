-- ===== src/PidQueue/Tests.antt =====
-- A queue of two nodes.
use cs_577_p.Base.{ℕ, ◌≡◌, ◌⊎◌, refl, none, some, List, [], ◌∷◌, ◌++◌, ok, arith}
use cs_577_p.PidQueue.{Heap, Queue, update, queue_add, queue_remove}
use cs_577_p.PidQueue.Chain.{Holds, queue_add_lem, queue_remove_lem}

abbrev nodes : Heap
nodes =
    update (update (λ a. none) 16 (some (record { pid = 4; next = some 32 }))) 32
      (some (record { pid = 5; next = none }))

abbrev two_waiting : Queue
two_waiting = record { head = some 16; tail = some 32 }

abbrev entries : List (ℕ × ℕ)
entries = (16, 4) ∷ (32, 5) ∷ []

two_waiting-Holds : Holds nodes two_waiting entries
two_waiting-Holds = record {
  chain = (some 32, refl, refl, (none, refl, refl, refl));
  tail = refl;
  apart = ((omega arith, tt), (tt, tt));
}

queue_add_lem_example :
    (h' : Heap) × (q' : Queue) × (queue_add 6 nodes two_waiting 48 ≡ ok (h', q'))
    × Holds h' q' (entries ++ (48, 6) ∷ [])
queue_add_lem_example =
    queue_add_lem nodes two_waiting entries 6 48 two_waiting-Holds (omega arith, (omega arith, tt))

queue_remove_lem_example :
    ((entries ≡ []) × (queue_remove nodes two_waiting ≡ (none, nodes, two_waiting)))
    ⊎ ((a : ℕ) × (pid : ℕ) × (ys : List (ℕ × ℕ)) × (q' : Queue) × (entries ≡ (a, pid) ∷ ys)
        × (queue_remove nodes two_waiting ≡ (some pid, update nodes a none, q'))
        × Holds (update nodes a none) q' ys)
queue_remove_lem_example = queue_remove_lem nodes two_waiting entries two_waiting-Holds
