-- ===== src/Sysfile.antt =====
-- The descriptors of kernel/sysfile.c, and pipealloc of kernel/pipe.c, which makes two at once.
-- `ofile` is the table of the calling process; arguments come as in kernel/syscall.c.
pub mod Counts
pub mod Descriptors
mod Tests
use cs_577_p.Base.{
  ℕ, zero, suc, ◌+◌, ◌*◌, ◌^◌, Bool, true, false, not, ◌||◌, Option, none, some, List, [], ◌∷◌,
  get_or, modify, find_index, Outcome, ok, panic, ◌>>=◌, if◌then◌else◌, ◌==◌, leb,
}
use cs_577_p.Spinlock.{Cpu}
use cs_577_p.Kalloc.{Kmem, kalloc}
use cs_577_p.File.{File, FTable, fd_pipe, filealloc, filedup, fileclose}
use cs_577_p.Syscall.{argint, argptr}
use cs_577_p.Vm.{store_word}

abbrev pub nofile : ℕ
nofile = 16

-- The caller: its size, memory, stack pointer and open files.
pub record Caller : Type 0 where
  pub sz : ℕ
  pub mem : ℕ → ℕ
  pub esp : ℕ
  pub ofile : List (Option ℕ)

-- The test on a descriptor; an int from 2^31 on is negative, and not below NOFILE either.
unfoldable pub fd_file : ℕ → List (Option ℕ) → Option ℕ
fd_file fd os = if leb nofile fd then none else get_or os fd none

-- The descriptor and the file of argument `n`; `none` is -1.
unfoldable pub argfd : Caller → ℕ → Option (ℕ × ℕ)
argfd p n = elim (argint p.sz p.mem p.esp n) [
  | none ↦ none
  | some fd ↦ elim (fd_file fd p.ofile) [ none ↦ none | some f ↦ some (fd, f) ]
]

abbrev pub is_closed : Option ℕ → Bool
is_closed none = true
is_closed (some f) = false

abbrev pub opened : ℕ → Option ℕ → Option ℕ
opened f o = some f

abbrev pub closed : Option ℕ → Option ℕ
closed o = none

-- The first descriptor that is free, and the table with the file there.
unfoldable pub fdalloc : ℕ → List (Option ℕ) → Option (ℕ × List (Option ℕ))
fdalloc f os = elim (find_index is_closed os) [
  | none ↦ none
  | some fd ↦ some (fd, modify os fd (opened f))
]

-- What a call leaves: its result, the caller's table, the files and the CPU.
pub record Left : Type 0 where
  pub result : Option ℕ
  pub ofile : List (Option ℕ)
  pub files : FTable
  pub cpu : Cpu

-- sys_dup behind argfd.
unfoldable pub dup_file : ℕ → List (Option ℕ) → FTable → Cpu → Outcome Left
dup_file f os t c = elim (fdalloc f os) [
  | none ↦ ok (record { result = none; ofile = os; files = t; cpu = c })
  | some r ↦
      filedup f t c >>= λ d. ok (record { result = some r.0; ofile = r.1; files = d.0; cpu = d.1 })
]

unfoldable pub sys_dup : Caller → FTable → Cpu → Outcome Left
sys_dup p t c = elim (argfd p 0) [
  | none ↦ ok (record { result = none; ofile = p.ofile; files = t; cpu = c })
  | some a ↦ dup_file a.1 p.ofile t c
]

-- A file as an end of the pipe at `page`.
abbrev pub pipe_end : Bool → ℕ → File → File
pipe_end writable page f = record f {
  kind = fd_pipe;
  readable = not writable;
  writable = writable;
  pipe = page;
}

module _ {S : Type 0} (pipeclose : ℕ → Bool → S → Cpu → Outcome (S × Cpu))
    (iput : ℕ → S → Cpu → Outcome (S × Cpu)) where
  -- sys_close behind argfd.
  unfoldable pub close_fd : ℕ → ℕ → List (Option ℕ) → FTable → S → Cpu → Outcome (Left × S)
  close_fd fd f os t s c = fileclose pipeclose iput f t s c >>= λ d.
      ok (record { result = some 0; ofile = modify os fd closed; files = d.0; cpu = d.2 }, d.1)

  unfoldable pub sys_close : Caller → FTable → S → Cpu → Outcome (Left × S)
  sys_close p t s c = elim (argfd p 0) [
    | none ↦ ok (record { result = none; ofile = p.ofile; files = t; cpu = c }, s)
    | some a ↦ close_fd a.0 a.1 p.ofile t s c
  ]

  -- The label `bad` of pipealloc, with the files that it has; there is never a page to free.
  unfoldable pub close_all : List ℕ → FTable → S → Cpu → Outcome (FTable × S × Cpu)
  close_all [] t s c = ok (t, s, c)
  close_all (f ∷ fs) t s c = fileclose pipeclose iput f t s c >>= λ d. close_all fs d.0 d.1 d.2

  -- What pipealloc leaves: the read and the write end, or nothing for -1.
  pub record Ends : Type 0 where
    pub ends : Option (ℕ × ℕ)
    pub files : FTable
    pub store : S
    pub kmem : Kmem
    pub cpu : Cpu

  unfoldable pub pipe_fails : List ℕ → FTable → S → Kmem → Cpu → Outcome Ends
  pipe_fails fs t s k c = close_all fs t s c >>= λ r.
      ok (record { ends = none; files = r.0; store = r.1; kmem = k; cpu = r.2 })

  unfoldable pub pipealloc : (ℕ → S → S) → FTable → S → Kmem → Cpu → Outcome Ends
  pipealloc fresh t s k c = filealloc t c >>= λ a. elim a.0 [
    | none ↦ pipe_fails [] a.1 s k a.2
    | some f0 ↦ filealloc a.1 a.2 >>= λ b. elim b.0 [
      | none ↦ pipe_fails (f0 ∷ []) b.1 s k b.2
      | some f1 ↦ kalloc k b.2 >>= λ p. elim p.0 [
        | none ↦ pipe_fails (f0 ∷ f1 ∷ []) b.1 s p.1 p.2
        | some page ↦ ok (record {
          ends = some (f0, f1);
          files = record b.1 {
            files = modify (modify b.1.files f0 (pipe_end false page)) f1 (pipe_end true page);
          };
          store = fresh page s;
          kmem = p.1;
          cpu = p.2;
        })
      ]
    ]
  ]

  -- What sys_pipe leaves: its result, the caller's memory and table, and the rest of the kernel.
  pub record Piped : Type 0 where
    pub result : Option ℕ
    pub mem : ℕ → ℕ
    pub ofile : List (Option ℕ)
    pub made : Ends

  unfoldable pub pipe_gives_up : Caller → List (Option ℕ) → ℕ → ℕ → Ends → Outcome Piped
  pipe_gives_up p os rf wf e = close_all (rf ∷ wf ∷ []) e.files e.store e.cpu >>= λ r. ok (record {
    result = none;
    mem = p.mem;
    ofile = os;
    made = record e { files = r.0; store = r.1; cpu = r.2 };
  })

  -- sys_pipe behind pipealloc, for the two ends and the address of the pair of descriptors.
  unfoldable pub place_ends : Caller → ℕ → ℕ → ℕ → Ends → Outcome Piped
  place_ends p fd rf wf e = elim (fdalloc rf p.ofile) [
    | none ↦ pipe_gives_up p p.ofile rf wf e
    | some a ↦ elim (fdalloc wf a.1) [
      | none ↦ pipe_gives_up p (modify a.1 a.0 closed) rf wf e
      | some b ↦ ok (record {
        result = some 0;
        mem = store_word (fd + 4) b.0 (store_word fd a.0 p.mem);
        ofile = b.1;
        made = e;
      })
    ]
  ]

  unfoldable pub sys_pipe : (ℕ → S → S) → Caller → FTable → S → Kmem → Cpu → Outcome Piped
  sys_pipe fresh p t s k c = elim (argptr p.sz p.mem p.esp 0 8) [
    | none ↦ ok (record {
      result = none;
      mem = p.mem;
      ofile = p.ofile;
      made = record { ends = none; files = t; store = s; kmem = k; cpu = c };
    })
    | some fd ↦ pipealloc fresh t s k c >>= λ e. elim e.ends [
      | none ↦ ok (record { result = none; mem = p.mem; ofile = p.ofile; made = e })
      | some ends ↦ place_ends p fd ends.0 ends.1 e
    ]
  ]
