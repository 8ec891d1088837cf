-- ===== src/PidQueue/Chain.antt =====
-- The linked list refines a list of pids.
use cs_577_p.Base.{
  ℕ, ◌≡◌, ◌≢◌, refl, sym, true, Option, none, some, ok, ◌↔◌, List, [], ◌∷◌, ◌++◌, arith, inl, inr,
  ◌⊎◌,
}
use cs_577_p.PidQueue.{Node, Heap, update, Queue, queue_remove, queue_add, queue_empty, link}

-- The nodes from `p` on, as addresses with their pids, up to a last one at `last`.
abbrev pub Chain : Heap → Option ℕ → List (ℕ × ℕ) → Type 0
Chain h p [] = p ≡ none
Chain h p ((a, pid) ∷ xs) =
    (next : Option ℕ) × (p ≡ some a)
    × (h a ≡ some (record { pid = pid; next = next }))
    × Chain h next xs

-- No node of the list is at `b`.
abbrev pub Off : ℕ → List (ℕ × ℕ) → Type 0
Off b [] = Unit
Off b ((a, pid) ∷ xs) = (a ≢ b) × Off b xs

abbrev pub Apart : List (ℕ × ℕ) → Type 0
Apart [] = Unit
Apart ((a, pid) ∷ xs) = Off a xs × Apart xs

abbrev pub last_of : List (ℕ × ℕ) → Option ℕ
last_of [] = none
last_of ((a, pid) ∷ []) = some a
last_of (x ∷ y ∷ xs) = last_of (y ∷ xs)

abbrev pub pids : List (ℕ × ℕ) → List ℕ
pids [] = []
pids ((a, pid) ∷ xs) = pid ∷ pids xs

-- The queue holds the pids of `xs`.
pub record Holds (h : Heap) (q : Queue) (xs : List (ℕ × ℕ)) : Type 0 where
  pub chain : Chain h q.head xs
  pub tail : q.tail ≡ last_of xs
  pub apart : Apart xs

Chain-update :
    (h : Heap) (b : ℕ) (n : Option Node) (p : Option ℕ) (xs : List (ℕ × ℕ))
    → Off b xs
    → Chain h p xs
    → Chain (update h b n) p xs
Chain-update h b n p [] o c = c
Chain-update h b n p ((a, pid) ∷ xs) o (next, e, f, c) =
    (next, e, ground arith, Chain-update h b n next xs o.1 c)

-- The last node is one of the list's.
last_of-Off : (a : ℕ) (y : ℕ × ℕ) (ys : List (ℕ × ℕ)) → Off a (y ∷ ys) → last_of (y ∷ ys) ≢ some a
last_of-Off a (c, k) [] off e = ground (arith, off.0)
last_of-Off a (c, k) (z ∷ ys) off e = last_of-Off a z ys off.1 e

-- A new node behind the last one.
Chain-append :
    (h : Heap) (p : Option ℕ) (x : ℕ × ℕ) (xs : List (ℕ × ℕ)) (t new pid : ℕ)
    → last_of (x ∷ xs) ≡ some t
    → Apart (x ∷ xs)
    → Off new (x ∷ xs)
    → Chain h p (x ∷ xs)
    → Chain
        (update (update h t (link (h t) new)) new (some (record { pid = pid; next = none })))
        p
        (x ∷ xs ++ (new, pid) ∷ [])
Chain-append h p (a, m) [] t new pid l ap' o (next, e, f, c) =
    (some new, e, ground arith, (none, refl, ground arith, refl))
Chain-append h p (a, m) ((b, m') ∷ xs) t new pid l ap' o (next, e, f, c) =
    (next, e, ground (arith, not_last), Chain-append h next (b, m') xs t new pid l ap'.1 o.1 c)
  where
    not_last : t ≢ a
    not_last e' = last_of-Off a (b, m') xs ap'.0 (rw (← e') l)

-- A list with a node has a last one.
last_total : (x : ℕ × ℕ) (xs : List (ℕ × ℕ)) → (t : ℕ) × (last_of (x ∷ xs) ≡ some t)
last_total (a, m) [] = (a, refl)
last_total (a, m) (y ∷ ys) = last_total y ys

last_of-append : (xs : List (ℕ × ℕ)) (new pid : ℕ) → last_of (xs ++ (new, pid) ∷ []) ≡ some new
last_of-append [] new pid = refl
last_of-append (x ∷ []) new pid = refl
last_of-append (x ∷ y ∷ ys) new pid = last_of-append (y ∷ ys) new pid

Off-append :
    (b new pid : ℕ) (xs : List (ℕ × ℕ)) → Off b xs → new ≢ b → Off b (xs ++ (new, pid) ∷ [])
Off-append b new pid [] o n = (n, tt)
Off-append b new pid ((a, m) ∷ xs) o n = (o.0, Off-append b new pid xs o.1 n)

Apart-append :
    (new pid : ℕ) (xs : List (ℕ × ℕ)) → Apart xs → Off new xs → Apart (xs ++ (new, pid) ∷ [])
Apart-append new pid [] ap' o = (tt, tt)
Apart-append new pid ((a, m) ∷ xs) ap' o =
    (Off-append a new pid xs ap'.0 (λ e. o.0 (sym e)), Apart-append new pid xs ap'.1 o.1)

head_some :
    (h : Heap) (q : Queue) (a m : ℕ) (xs : List (ℕ × ℕ)) → Holds h q ((a, m) ∷ xs) → q.head ≡ some a
head_some h q a m xs v = v.chain.1

-- queue_empty tells whether the queue holds nothing.
pub queue_empty_iff :
    (h : Heap) (q : Queue) (xs : List (ℕ × ℕ)) → Holds h q xs → (queue_empty q ≡ true) ↔ (xs ≡ [])
unfolding queue_empty
queue_empty_iff h q [] v = (λ e. refl, λ e. rw (v.chain, v.tail) refl)
queue_empty_iff h q ((a, m) ∷ xs) v =
    (λ e. absurd (ground (arith, head_some h q a m xs v)), λ e. absurd (cc))

-- queue_add puts the pid behind the others, in a node at the address that malloc gave, if no node of
-- the queue is there.
pub queue_add_lem :
    (h : Heap) (q : Queue) (xs : List (ℕ × ℕ)) (pid new : ℕ)
    → Holds h q xs
    → Off new xs
    → (h' : Heap) × (q' : Queue) × (queue_add pid h q new ≡ ok (h', q'))
      × Holds h' q' (xs ++ (new, pid) ∷ [])
unfolding queue_add
queue_add_lem h q [] pid new v o = (
  update h new (some (record { pid = pid; next = none })),
  record { head = some new; tail = some new },
  ground (arith, v.chain, v.tail),
  record { chain = (none, refl, ground arith, refl); tail = refl; apart = (tt, tt) },
)
queue_add_lem h q ((a, m) ∷ xs) pid new v o =
    let (t, e) = last_total (a, m) xs in
    (
      update (update h t (link (h t) new)) new (some (record { pid = pid; next = none })),
      record q { tail = some new },
      ground (arith, head_some h q a m xs v, v.tail, e),
      record {
        chain = Chain-append h q.head (a, m) xs t new pid e v.apart o v.chain;
        tail = sym (last_of-append ((a, m) ∷ xs) new pid);
        apart = Apart-append new pid ((a, m) ∷ xs) v.apart o;
      },
    )

-- queue_remove takes the first pid, frees its node and leaves the others; an empty queue it leaves as
-- it is, with -1.
pub queue_remove_lem :
    (h : Heap) (q : Queue) (xs : List (ℕ × ℕ))
    → Holds h q xs
    → ((xs ≡ []) × (queue_remove h q ≡ (none, h, q)))
      ⊎ ((a : ℕ) × (pid : ℕ) × (ys : List (ℕ × ℕ)) × (q' : Queue) × (xs ≡ (a, pid) ∷ ys)
          × (queue_remove h q ≡ (some pid, update h a none, q'))
          × Holds (update h a none) q' ys)
unfolding queue_remove
queue_remove_lem h q [] v = inl (refl, rw v.chain refl)
queue_remove_lem h q ((a, m) ∷ []) v = inr (
  a,
  m,
  [],
  record { head = none; tail = none },
  refl,
  ground (arith, v.chain.1, v.chain.2, v.tail),
  record { chain = refl; tail = refl; apart = tt },
)
queue_remove_lem h q ((a, m) ∷ (b, m') ∷ ys) v = inr (
  a,
  m,
  (b, m') ∷ ys,
  record q { head = v.chain.0 },
  refl,
  ground (arith, v.chain.1, v.chain.2, v.tail, last_of-Off a (b, m') ys v.apart.0),
  record {
    chain = Chain-update h a none v.chain.0 ((b, m') ∷ ys) v.apart.0 v.chain.3;
    tail = v.tail;
    apart = v.apart.1;
  },
)
