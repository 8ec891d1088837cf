-- ===== src/Proc/Park.antt =====
-- setpark, park and unpark of kernel/proc.c: how a thread of a user lock goes to sleep.
-- A result `some n` is the return value n, and `none` is -1.
pub mod Laws
pub mod Handshake
mod Tests
use cs_577_p.Base.{
  ℕ, Bool, true, false, not, ◌&&◌, Option, none, some, List, get_or, modify, find_index, Outcome,
  ok, wild, ◌>>=◌, ◌>>◌, if◌then◌else◌, ◌==◌,
}
use cs_577_p.Spinlock.{holding}
use cs_577_p.Proc.{
  Proc, blank, ProcState, runnable, sleeping, is_sleeping, Kernel, proc_at, change, lock_unless,
  unlock_unless, sched,
}

abbrev pub announce : Proc → Proc
announce p = record p { set_park = true }

unfoldable pub setpark : ℕ → Kernel → Outcome (Option ℕ × Kernel)
unfolding lock_unless unlock_unless
setpark cur k = do
  let was = holding k.lock k.cpu
  k1 ← lock_unless was k
  let p = proc_at k1 cur
  let may = not p.immediate_unpark && not p.set_park
  let k2 = if may then change cur announce k1 else k1
  k3 ← unlock_unless was k2
  ok ((if may then some 0 else none), k3)

-- What park does to the process that calls it, under the lock.
abbrev pub settle : Proc → Proc
settle p =
    if p.immediate_unpark
    then record p { immediate_unpark = false; set_park = false }
    else record p { state = sleeping; is_parked = true; set_park = false }

-- `awake`: park returned. `asleep was`: it is in sched, off the CPU; `was` is its `wasHolding`.
pub data Parked : Type 0 where
  awake : Kernel → Parked
  asleep : Bool → Kernel → Parked

unfoldable pub park : ℕ → Kernel → Outcome Parked
unfolding lock_unless unlock_unless sched
park cur k = do
  let was = holding k.lock k.cpu
  k1 ← lock_unless was k
  let k2 = change cur settle k1
  elim (is_sleeping (proc_at k2 cur).state) [
    | true ↦ sched cur k2 >>= λ k3. ok (asleep was k3)
    | false ↦ unlock_unless was k2 >>= λ k3. ok (awake k3)
  ]

-- The rest of park when the process runs again: sched returns with the lock held.
unfoldable pub park_resume : Bool → Kernel → Outcome Kernel
unfolding unlock_unless
park_resume was k = unlock_unless was k

abbrev pub has_pid : ℕ → Proc → Bool
has_pid pid p = p.pid == pid

-- the test of unpark1's loop
abbrev pub wants_unpark : ℕ → Proc → Bool
wants_unpark pid p = is_sleeping p.state && p.is_parked && (p.pid == pid)

abbrev pub unparked : Proc → Proc
unparked p = record p { state = runnable; is_parked = false }

-- unpark1 touches nothing but the table.
unfoldable pub unpark1 : ℕ → List Proc → Option ℕ × List Proc
unpark1 pid ps = elim (find_index (wants_unpark pid) ps) [
  | some i ↦ (some (get_or ps i blank).pid, modify ps i unparked)
  | none ↦ (none, ps)
]

abbrev pub remember : Proc → Proc
remember p = record p { immediate_unpark = true }

-- unpark's cases for the entry that its loop has found.
unfoldable pub unpark_found : ℕ → ℕ → List Proc → Option ℕ × List Proc
unfolding unpark1
unpark_found i pid ps =
    let p = get_or ps i blank in
    if not p.set_park && not p.is_parked
    then (none, ps)
    else if p.set_park && not p.is_parked
    then (none, modify ps i remember)
    else let r = unpark1 pid ps in elim r.0 [ some n ↦ (some 0, r.1) | none ↦ (none, r.1) ]

-- The loop leaves `p` one past the end of the table if no entry has the pid. `!p` is then false, and
-- the code reads the flags of an entry that is not there: `wild`.
unfoldable pub unpark : ℕ → Kernel → Outcome (Option ℕ × Kernel)
unfolding lock_unless unlock_unless unpark_found
unpark pid k = do
  let was = holding k.lock k.cpu
  k1 ← lock_unless was k
  elim (find_index (has_pid pid) k1.procs) [
    | none ↦ wild
    | some i ↦
        let r = unpark_found i pid k1.procs in
        unlock_unless was (record k1 { procs = r.1 }) >>= λ k2. ok (r.0, k2)
  ]
