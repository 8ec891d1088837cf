-- ===== src/Proc/Create.antt =====
-- allocproc, fork and clone of kernel/proc.c.
-- copyuvm and copyout of kernel/vm.c are parameters. The contents of a new kernel stack are junk
-- until fork or clone writes the trap frame, so allocproc leaves `tf` as it is.
pub mod Slots
mod Tests
use cs_577_p.Base.{
  ℕ, ◌+◌, ◌-◌, ◌%◌, ◌^◌, Bool, true, false, Option, none, some, List, [], ◌∷◌, get_or, modify, take,
  find_index, Outcome, ok, ◌>>=◌, if◌then◌else◌,
}
use cs_577_p.Spinlock.{Cpu}
use cs_577_p.Kalloc.{Kmem, kalloc, kfree}
use cs_577_p.File.{FTable, filedup}
use cs_577_p.Proc.{
  Proc, blank, ProcState, unused, embryo, runnable, is_unused, Resume, at_forkret, Kernel, proc_at,
  change, lock_ptable, unlock_ptable,
}

abbrev pub free_slot : Proc → Bool
free_slot p = is_unused p.state

abbrev pub claimed : ℕ → Proc → Proc
claimed n p = record p { state = embryo; pid = n }

abbrev pub unclaimed : Proc → Proc
unclaimed p = record p { kstack = 0; state = unused }

abbrev pub stacked : ℕ → Proc → Proc
stacked stack p = record p { kstack = stack; context = at_forkret }

-- The part behind the label `found`, for slot `i`.
unfoldable pub alloc_at : ℕ → Kernel → Outcome (Option ℕ × Kernel)
unfolding unlock_ptable
alloc_at i k = do
  k1 ← unlock_ptable (record k {
    procs = modify k.procs i (claimed k.next_pid);
    next_pid = (k.next_pid + 1) % 2 ^ 32;
  })
  a ← kalloc k1.kmem k1.cpu
  let k2 = record k1 { kmem = a.1; cpu = a.2 }
  elim a.0 [
    | none ↦ ok (none, change i unclaimed k2)
    | some stack ↦ ok (some i, change i (stacked stack) k2)
  ]

unfoldable pub allocproc : Kernel → Outcome (Option ℕ × Kernel)
unfolding lock_ptable unlock_ptable alloc_at
allocproc k = do
  k1 ← lock_ptable k
  elim (find_index free_slot k1.procs) [
    | none ↦ unlock_ptable k1 >>= λ k2. ok (none, k2)
    | some i ↦ alloc_at i k1
  ]

-- The loop over the open files: the child's entry for a closed file stays as it is.
unfoldable pub dup_files :
    List (Option ℕ) → List (Option ℕ) → FTable → Cpu → Outcome (List (Option ℕ) × FTable × Cpu)
dup_files [] os t c = ok (os, t, c)
dup_files (f ∷ fs) [] t c = ok ([], t, c)
dup_files (none ∷ fs) (o ∷ os) t c = dup_files fs os t c >>= λ r. ok (o ∷ r.0, r.1, r.2)
dup_files (some f ∷ fs) (o ∷ os) t c =
    filedup f t c >>= λ d. dup_files fs os d.0 d.1 >>= λ r. ok (some f ∷ r.0, r.1, r.2)

-- idup: one more reference to an in-memory inode.
abbrev pub idup : Option ℕ → List ℕ → List ℕ
idup none refs = refs
idup (some i) refs = modify refs i (λ n. n + 1)

-- What fork and clone share: the open files, the directory and the name of `cur` go to `np`.
unfoldable pub inherit : ℕ → ℕ → Kernel → Outcome Kernel
unfolding dup_files
inherit cur np k = do
  let p = proc_at k cur
  d ← dup_files p.ofile (proc_at k np).ofile k.ftable k.cpu
  let shared = record k { ftable = d.1; cpu = d.2; cwd_refs = idup p.cwd k.cwd_refs }
  ok (change np (λ q. record q { ofile = d.0; cwd = p.cwd }) shared)

-- The failure paths of fork and clone.
unfoldable pub give_up : ℕ → Kernel → Outcome Kernel
give_up np k = do
  f ← kfree (proc_at k np).kstack k.kmem k.cpu
  ok (change np (λ q. record q { kstack = 0; state = unused }) (record k { kmem = f.0; cpu = f.1 }))

-- safestrcpy into the 16 bytes of a name, and the state that lets the scheduler run the process.
abbrev pub launched : List ℕ → Proc → Proc
launched name q = record q { state = runnable; name = take 15 name }

module _ (copyuvm : ℕ → ℕ → Kmem → Cpu → Outcome (Option ℕ × Kmem × Cpu)) where
  -- fork after a good allocproc.
  unfoldable pub fork_into : ℕ → ℕ → Kernel → Outcome (Option ℕ × Kernel)
  unfolding inherit give_up
  fork_into cur np k = do
    let p = proc_at k cur
    v ← copyuvm p.pgdir p.sz k.kmem k.cpu
    let k1 = record k { kmem = v.1; cpu = v.2 }
    elim v.0 [
      | none ↦ give_up np k1 >>= λ k2. ok (none, k2)
      | some dir ↦ do
        k2 ← inherit cur np (
            change np
              (λ q. record q {
                pgdir = dir;
                sz = p.sz;
                parent = some cur;
                tf = record p.tf { eax = 0 };
                is_thread = false;
              })
              k1)
        ok (some (proc_at k2 np).pid, change np (launched p.name) k2)
    ]

  unfoldable pub fork : ℕ → Kernel → Outcome (Option ℕ × Kernel)
  unfolding allocproc fork_into
  fork cur k = do
    a ← allocproc k
    elim a.0 [ none ↦ ok (none, a.1) | some np ↦ fork_into cur np a.1 ]

-- The words that clone pushes: a fake return address, the argument and a zero.
abbrev pub thread_words : ℕ → List ℕ
thread_words arg = 0xffffffff ∷ arg ∷ 0 ∷ []

-- `(uint)ustack + 4096`, less three words.
abbrev pub thread_sp : ℕ → ℕ
thread_sp ustack = ((ustack + 4096) % 2 ^ 32 + 2 ^ 32 - 12) % 2 ^ 32

-- copyout gives the new contents of memory, or `none` for -1.
module _ (copyout : ℕ → ℕ → List ℕ → (ℕ → ℕ) → Option (ℕ → ℕ)) where
  -- clone after a good allocproc.
  unfoldable pub clone_into : ℕ → ℕ → ℕ → ℕ → ℕ → Kernel → Outcome (Option ℕ × Kernel)
  unfolding inherit give_up
  clone_into fn arg ustack cur np k = do
    let p = proc_at k cur
    k1 ← inherit cur np (
        change np
          (λ q. record q {
            is_thread = true;
            pgdir = p.pgdir;
            sz = p.sz;
            parent = some cur;
            tf = p.tf;
          })
          k)
    elim (copyout p.pgdir (thread_sp ustack) (thread_words arg) k1.kmem.mem) [
      | none ↦ give_up np k1 >>= λ k2. ok (none, k2)
      | some bytes ↦ do
        let k2 =
            change np
              (λ q. record q {
                tf = record q.tf { eip = fn; esp = thread_sp ustack };
                bsp = ustack;
              })
              (record k1 { kmem = record k1.kmem { mem = bytes } })
        ok (some (proc_at k2 np).pid, change np (launched p.name) k2)
    ]

  unfoldable pub clone : ℕ → ℕ → ℕ → ℕ → Kernel → Outcome (Option ℕ × Kernel)
  unfolding allocproc clone_into
  clone fn arg ustack cur k = do
    a ← allocproc k
    elim a.0 [ none ↦ ok (none, a.1) | some np ↦ clone_into fn arg ustack cur np a.1 ]
