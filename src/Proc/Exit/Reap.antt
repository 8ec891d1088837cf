-- ===== src/Proc/Exit/Reap.antt =====
-- join: every outcome of a call, up to the sleep.
use cs_577_p.Base.{
  ℕ, ◌<◌, ◌≡◌, refl, ◌∙◌, ap, Bool, true, false, not, ◌||◌, none, some, [], ◌∷◌, ok, arith, ◌⊎◌,
  inl, inr, modify, length, find_index, find_index-get_or, get_or-modify_self, Option-cases,
  Bool-cases,
}
use cs_577_p.Spinlock.{Cpu, pushcli, holding}
use cs_577_p.Kalloc.{kfree}
use cs_577_p.Kalloc.Pages.{IsPage, kfree_ok, freed, calm}
use cs_577_p.Proc.{Proc, blank, sleeping, unused, proc_chan, Kernel, proc_at, sched, sleep_locked}
use cs_577_p.Proc.Locking.{IsQuiet, locked, after, after-IsQuiet, lock_quiet, unlock_locked}
use cs_577_p.Proc.Exit.{
  Waited, reaped, failed, waiting, is_own_thread, dead_thread, cleared, some_entry, wait_or_fail,
  join_round, join,
}

abbrev pub dozing_on : ℕ → Proc → Proc
dozing_on cur p = record p { chan = proc_chan cur; state = sleeping }

-- In the critical section a second critical section changes nothing of the CPU.
calm_nested : (c : Cpu) → calm (pushcli c) ≡ pushcli c
unfolding pushcli
calm_nested c = ground arith

off : (c : Cpu) → (pushcli c).flag_if ≡ false
unfolding pushcli
off c = refl

wait_or_fail_back :
    (kids : Bool) (cur : ℕ) (k : Kernel)
    → IsQuiet k
    → not kids || (proc_at k cur).killed ≡ true
    → wait_or_fail kids cur (locked k) ≡ ok (failed (after k k.procs))
unfolding wait_or_fail
wait_or_fail_back kids cur k q h = rw h (rw (unlock_locked k k.procs q) refl)

wait_or_fail_sleep :
    (kids : Bool) (cur : ℕ) (k : Kernel)
    → IsQuiet k
    → cur < length k.procs
    → not kids || (proc_at k cur).killed ≡ false
    → wait_or_fail kids cur (locked k)
      ≡ ok (waiting (record (locked k) { procs = modify k.procs cur (dozing_on cur) }))
unfolding wait_or_fail sleep_locked sched holding pushcli
wait_or_fail_sleep kids cur k q lt h =
    rw h (ground (arith, q.none_held, get_or-modify_self k.procs cur (dozing_on cur) blank lt))

-- What the outcome of join says. `reaped`: a zombie thread of the caller was there; its pid and its
-- stack's address are returned, its kernel stack is freed, and its entry is reset; no other entry has
-- changed. Else no zombie thread was there: -1 if the caller has no thread or was killed, else sleep.
pub Joined : ℕ → Kernel → Waited → Type 0
Joined cur k (reaped pid bsp k') =
    (i : ℕ) × (dead_thread cur (proc_at k i) ≡ true)
    × (pid ≡ (proc_at k i).pid)
    × (bsp ≡ (proc_at k i).bsp)
    × (k'.procs
        ≡ modify k.procs i (λ p. record p {
          kstack = 0;
          state = unused;
          pid = 0;
          parent = none;
          name = [];
          killed = false;
        }))
    × (k'.kmem.freelist ≡ (proc_at k i).kstack ∷ k.kmem.freelist)
    × IsQuiet k'
Joined cur k (failed k') =
    (find_index (dead_thread cur) k.procs ≡ none)
    × ((find_index (is_own_thread cur) k.procs ≡ none) ⊎ ((proc_at k cur).killed ≡ true))
    × (k'.procs ≡ k.procs)
    × IsQuiet k'
Joined cur k (waiting k') =
    (find_index (dead_thread cur) k.procs ≡ none)
    × ((i : ℕ) × (find_index (is_own_thread cur) k.procs ≡ some i))
    × ((proc_at k cur).killed ≡ false)
    × (k'.procs ≡ modify k.procs cur (λ p. record p { chan = proc_chan cur; state = sleeping }))

module _ (cur : ℕ) (k : Kernel) (q : IsQuiet k) where
  kids : Bool
  kids = some_entry (find_index (is_own_thread cur) k.procs)

  back_reason :
      not kids || (proc_at k cur).killed ≡ true
      → (find_index (is_own_thread cur) k.procs ≡ none) ⊎ ((proc_at k cur).killed ≡ true)
  unfolding kids
  back_reason h = elim (Option-cases (find_index (is_own_thread cur) k.procs)) [
    | inl e ↦ inl e
    | inr (i, e) ↦ inr (rw e at h)
  ]

  sleep_reason :
      not kids || (proc_at k cur).killed ≡ false
      → ((i : ℕ) × (find_index (is_own_thread cur) k.procs ≡ some i))
        × ((proc_at k cur).killed ≡ false)
  unfolding kids
  sleep_reason h = elim (Option-cases (find_index (is_own_thread cur) k.procs)) [
    | inl e ↦ absurd (ground arith)
    | inr (i, e) ↦ ((i, e), rw e at h)
  ]

  join_to_round : join cur k ≡ join_round cur (locked k)
  unfolding join
  join_to_round = rw (lock_quiet k q) refl

  round_none :
      find_index (dead_thread cur) k.procs ≡ none
      → join_round cur (locked k) ≡ wait_or_fail kids cur (locked k)
  unfolding join_round kids
  round_none e = rw (e, join_round) refl

  abbrev reap_kmem : ℕ → Kernel
  reap_kmem i = record k { kmem = freed (proc_at k i).kstack k.kmem }

  round_some :
      (i : ℕ)
      → find_index (dead_thread cur) k.procs ≡ some i
      → kfree (proc_at k i).kstack k.kmem (pushcli k.cpu)
        ≡ ok (freed (proc_at k i).kstack k.kmem, pushcli k.cpu)
      → join_round cur (locked k)
        ≡ ok (
            reaped
              (proc_at k i).pid
              (proc_at k i).bsp
              (after (reap_kmem i) (modify k.procs i cleared)))
  unfolding join_round
  round_some i e f =
      rw (e, join_round)
        (rw f (
          rw
            (unlock_locked (reap_kmem i) (modify k.procs i cleared)
              (record { free = q.free; none_held = q.none_held }))
            refl))

  -- join returns, or sleeps, from every state with no lock held where the kernel stacks of the caller's
  -- zombie threads are pages of the allocator. With a zombie thread it returns its pid and its stack
  -- address, frees its kernel stack and resets its entry, and changes no other entry. With none it
  -- returns -1 if the caller has no thread or was killed, and else sleeps on the caller's entry.
  pub join_lem :
      cur < length k.procs
      → k.kmem.lock.locked ≡ false
      → ((i : ℕ) → dead_thread cur (proc_at k i) ≡ true → IsPage k.kmem (proc_at k i).kstack)
      → (w : Waited) × (join cur k ≡ ok w) × Joined cur k w
  join_lem lt m pages = elim (Option-cases (find_index (dead_thread cur) k.procs)) [
    | inr (i, e) ↦
        let dead : dead_thread cur (proc_at k i) ≡ true =
          find_index-get_or (dead_thread cur) k.procs i blank e in
        (
          reaped (proc_at k i).pid (proc_at k i).bsp
              (after (reap_kmem i) (modify k.procs i cleared)),
          join_to_round ∙ round_some i e (kfree_here i (pages i dead)),
          unfold Joined in
              (i, dead, refl, refl, refl, refl, record { free = refl; none_held = q.none_held }),
        )
    | inl e ↦ elim (Bool-cases (not kids || (proc_at k cur).killed)) [
      | inl h ↦ (
        failed (after k k.procs),
        join_to_round ∙ round_none e ∙ wait_or_fail_back kids cur k q h,
        unfold Joined in (e, back_reason h, refl, after-IsQuiet k k.procs q),
      )
      | inr h ↦ (
        waiting (record (locked k) { procs = modify k.procs cur (dozing_on cur) }),
        join_to_round ∙ round_none e ∙ wait_or_fail_sleep kids cur k q lt h,
        unfold Joined in (e, (sleep_reason h).0, (sleep_reason h).1, refl),
      )
    ]
  ]
    where
      kfree_here :
          (i : ℕ)
          → IsPage k.kmem (proc_at k i).kstack
          → kfree (proc_at k i).kstack k.kmem (pushcli k.cpu)
            ≡ ok (freed (proc_at k i).kstack k.kmem, pushcli k.cpu)
      kfree_here i p =
          kfree_ok (proc_at k i).kstack k.kmem (pushcli k.cpu) (λ z. off k.cpu) m p
          ∙ ap (λ c. ok (freed (proc_at k i).kstack k.kmem, c)) (calm_nested k.cpu)
