-- ===== src/Proc/Grow.antt =====
-- growproc of kernel/proc.c. allocuvm and deallocuvm of kernel/vm.c are parameters; switchuvm, which
-- loads the page table again, is left out.
pub mod Sizes
mod Tests
use cs_577_p.Base.{
  ℕ, zero, suc, ◌+◌, ◌%◌, ◌^◌, Bool, true, false, ◌&&◌, ◌||◌, Option, none, some, List, [], ◌∷◌,
  Outcome, ok, ◌>>=◌, ◌>>◌, if◌then◌else◌, ◌==◌, ltb,
}
use cs_577_p.Spinlock.{Cpu}
use cs_577_p.Kalloc.{Kmem}
use cs_577_p.Proc.{Proc, Kernel, proc_at, change, is_ptr, lock_ptable, unlock_ptable}

abbrev pub same_parent : Option ℕ → Option ℕ → Bool
same_parent none none = true
same_parent none (some j) = false
same_parent (some i) none = false
same_parent (some i) (some j) = i == j

-- The three tests of the loop for entry `i`: a thread of `cur`, the parent of the thread `cur`, a
-- thread with the parent of `cur`. `me` is the entry of `cur`.
abbrev pub resized : ℕ → Proc → ℕ → Proc → Bool
resized cur me i p =
    (is_ptr p.parent cur && p.is_thread)
    || ((me.is_thread && is_ptr me.parent i) || (same_parent p.parent me.parent && p.is_thread))

-- The loop from entry `i` on.
unfoldable pub resize_from : ℕ → Proc → ℕ → ℕ → List Proc → List Proc
resize_from cur me sz i [] = []
resize_from cur me sz i (p ∷ ps) =
    (if resized cur me i p then record p { sz = sz } else p) ∷ resize_from cur me sz (i + 1) ps

-- `proc->sz = sz` and the loop.
unfoldable pub resize : ℕ → ℕ → Kernel → Kernel
unfolding resize_from
resize cur sz k =
    let k1 = change cur (λ p. record p { sz = sz }) k in
    record k1 { procs = resize_from cur (proc_at k1 cur) sz 0 k1.procs }

module _ (allocuvm deallocuvm : ℕ → ℕ → ℕ → Kmem → Cpu → Outcome (ℕ × Kmem × Cpu)) where
  -- `n` is the pattern of an int: from 2^31 on it is negative. The result tells 0 from -1.
  unfoldable pub growproc : ℕ → ℕ → Kernel → Outcome (Bool × Kernel)
  unfolding lock_ptable unlock_ptable resize
  growproc cur n k = do
    k1 ← lock_ptable k
    let p = proc_at k1 cur
    let target = (p.sz + n) % 2 ^ 32
    if n == 0 then (unlock_ptable (resize cur p.sz k1) >>= λ k2. ok (true, k2)) else do
      r ←
          if ltb n (2 ^ 31)
          then allocuvm p.pgdir p.sz target k1.kmem k1.cpu
          else deallocuvm p.pgdir p.sz target k1.kmem k1.cpu
      let k2 = record k1 { kmem = r.1; cpu = r.2 }
      if r.0 == 0
          then (unlock_ptable k2 >>= λ k3. ok (false, k3))
          else (unlock_ptable (resize cur r.0 k2) >>= λ k3. ok (true, k3))
