-- ===== src/File.antt =====
-- kernel/file.c: the table of open files and the reference counts on its entries.
-- A `struct file *` is an index of the table.
pub mod Refs
mod Tests
use cs_577_p.Base.{
  ℕ, ◌+◌, ◌-◌, Bool, true, false, Option, none, some, List, get_or, modify, find_index, Outcome, ok,
  panic, ◌>>=◌, if◌then◌else◌, ◌==◌, ltb,
}
use cs_577_p.Spinlock.{Cpu, Lock, acquire, release}

pub data FdType : Type 0 where
  fd_none fd_pipe fd_inode : FdType

-- `struct file`; `pipe` and `ip` are pointers, `off` a byte offset.
pub record File : Type 0 where
  pub kind : FdType
  pub ref : ℕ
  pub readable : Bool
  pub writable : Bool
  pub pipe : ℕ
  pub ip : ℕ
  pub off : ℕ

abbrev pub blank : File
blank = record {
  kind = fd_none;
  ref = 0;
  readable = false;
  writable = false;
  pipe = 0;
  ip = 0;
  off = 0;
}

pub record FTable : Type 0 where
  pub lock : Lock
  pub files : List File

abbrev pub is_free : File → Bool
is_free f = f.ref == 0

abbrev pub set_ref : ℕ → File → File
set_ref n f = record f { ref = n }

-- The first entry with no reference. `none` is the null pointer.
unfoldable pub filealloc : FTable → Cpu → Outcome (Option ℕ × FTable × Cpu)
filealloc t c = do
  a ← acquire t.lock c
  b ← release a.0 a.1
  elim (find_index is_free t.files) [
    | some i ↦ ok (some i, record { lock = b.0; files = modify t.files i (set_ref 1) }, b.1)
    | none ↦ ok (none, record t { lock = b.0 }, b.1)
  ]

unfoldable pub filedup : ℕ → FTable → Cpu → Outcome (FTable × Cpu)
filedup i t c = do
  a ← acquire t.lock c
  let f = get_or t.files i blank
  if ltb f.ref 1
      then panic
      else release a.0 a.1 >>= λ b.
          ok (record { lock = b.0; files = modify t.files i (set_ref (f.ref + 1)) }, b.1)

-- fileclose up to its second release. The result is the copy `ff` of an entry whose last reference
-- went, for which the pipe or the inode has still to be closed.
unfoldable pub drop_ref : ℕ → FTable → Cpu → Outcome (Option File × FTable × Cpu)
drop_ref i t c = do
  a ← acquire t.lock c
  let f = get_or t.files i blank
  if ltb f.ref 1 then panic else do
    b ← release a.0 a.1
    if ltb 0 (f.ref - 1)
        then ok (none, record { lock = b.0; files = modify t.files i (set_ref (f.ref - 1)) }, b.1)
        else ok (
          some (set_ref (f.ref - 1) f),
          record {
            lock = b.0;
            files = modify t.files i (λ g. record g { ref = 0; kind = fd_none });
          },
          b.1,
        )

-- fileclose, over a store `S` of pipes and inodes with the two ways to close.
module _ {S : Type 0} (pipeclose : ℕ → Bool → S → Cpu → Outcome (S × Cpu))
    (iput : ℕ → S → Cpu → Outcome (S × Cpu)) where
  unfoldable pub close_body : Option File → S → Cpu → Outcome (S × Cpu)
  close_body none s c = ok (s, c)
  close_body (some ff) s c = elim ff.kind [
    | fd_pipe ↦ pipeclose ff.pipe ff.writable s c
    | fd_inode ↦ iput ff.ip s c
    | fd_none ↦ ok (s, c)
  ]

  unfoldable pub fileclose : ℕ → FTable → S → Cpu → Outcome (FTable × S × Cpu)
  unfolding drop_ref close_body
  fileclose i t s c = do d ← drop_ref i t c; e ← close_body d.0 s d.2; ok (d.1, e.0, e.1)
