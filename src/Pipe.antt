-- ===== src/Pipe.antt =====
-- kernel/pipe.c: the ring of bytes behind a pipe, as pipewrite and piperead use it under its lock.
-- A call that would sleep returns, and is taken up again with what is left when it is woken. Calls of
-- wakeup are events.
pub mod Fifo
pub mod Stream
pub mod Run
mod Tests
use cs_577_p.Base.{
  ℕ, zero, suc, ◌+◌, ◌-◌, ◌%◌, ◌^◌, Bool, true, false, not, ◌&&◌, ◌||◌, Option, none, some, List,
  [], ◌∷◌, ◌++◌, get_or, modify, length, if◌then◌else◌, ◌==◌,
}

abbrev pub pipesize : ℕ
pipesize = 512

-- `nread` and `nwrite` count bytes and wrap at 2^32.
pub record Pipe : Type 0 where
  pub bytes : List ℕ
  pub nread : ℕ
  pub nwrite : ℕ
  pub readopen : Bool
  pub writeopen : Bool

-- wakeup(&p->nread) and wakeup(&p->nwrite)
pub data Wake : Type 0 where
  readers writers : Wake

-- What a call comes to. `done n`: it returns n. `broken`: it returns -1. `asleep`: it sleeps.
pub data Status : Type 0 where
  done : ℕ → Status
  broken : Status
  asleep : Status

abbrev pub wrap : ℕ → ℕ
wrap n = n % 2 ^ 32

-- The state of a fresh pipe, on a page with contents `junk`.
unfoldable pub pipealloc : List ℕ → Pipe
pipealloc junk = record { bytes = junk; nread = 0; nwrite = 0; readopen = true; writeopen = true }

-- The result tells whether the page is freed.
unfoldable pub pipeclose : Pipe → Bool → Pipe × Wake × Bool
pipeclose p writable =
    let q = if writable then record p { writeopen = false } else record p { readopen = false } in
    (q, (if writable then readers else writers), not q.readopen && not q.writeopen)

unfoldable pub is_full : Pipe → Bool
is_full p = p.nwrite == wrap (p.nread + pipesize)

unfoldable pub is_empty : Pipe → Bool
is_empty p = p.nread == p.nwrite

unfoldable pub put : Pipe → ℕ → Pipe
put p b = record p {
  bytes = modify p.bytes (p.nwrite % pipesize) (λ old. b);
  nwrite = wrap (p.nwrite + 1);
}

-- What a call of pipewrite leaves: `rest` are the bytes that are not in the pipe yet.
pub record Written : Type 0 where
  pub status : Status
  pub pipe : Pipe
  pub rest : List ℕ
  pub wakes : List Wake

-- The loop of pipewrite with `n` the whole count; `killed` is proc->killed.
unfoldable pub write_from : ℕ → Bool → Pipe → List ℕ → Written
unfolding is_full put
write_from n killed p [] = record { status = done n; pipe = p; rest = []; wakes = readers ∷ [] }
write_from n killed p (b ∷ bs) =
    let next = write_from n killed (put p b) bs in
    if is_full p
    then (if not p.readopen || killed
        then record { status = broken; pipe = p; rest = b ∷ bs; wakes = [] }
        else record { status = asleep; pipe = p; rest = b ∷ bs; wakes = readers ∷ [] })
    else next

-- The byte at `nread`, and the pipe after `nread++`.
unfoldable pub take_byte : Pipe → ℕ × Pipe
take_byte p = (get_or p.bytes (p.nread % pipesize) 0, record p { nread = wrap (p.nread + 1) })

abbrev pub prepend : ℕ → List ℕ × Pipe → List ℕ × Pipe
prepend b r = (b ∷ r.0, r.1)

-- The copying loop of piperead, with the rounds left.
unfoldable pub read_from : ℕ → Pipe → List ℕ × Pipe
unfolding is_empty take_byte
read_from zero p = ([], p)
read_from (suc n) p =
    let more = prepend (take_byte p).0 (read_from n (take_byte p).1) in
    if is_empty p then ([], p) else more

pub record Read : Type 0 where
  pub status : Status
  pub pipe : Pipe
  pub out : List ℕ
  pub wakes : List Wake

unfoldable pub piperead : ℕ → Bool → Pipe → Read
unfolding is_empty read_from
piperead n killed p =
    if is_empty p && p.writeopen
    then record { status = if killed then broken else asleep; pipe = p; out = []; wakes = [] }
    else (let r = read_from n p in
        record { status = done (length r.0); pipe = r.1; out = r.0; wakes = writers ∷ [] })

unfoldable pub pipewrite : List ℕ → Bool → Pipe → Written
unfolding write_from
pipewrite src killed p = write_from (length src) killed p src
