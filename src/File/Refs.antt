-- ===== src/File/Refs.antt =====
-- The reference counts of the table of open files.
use cs_577_p.Base.{
  ℕ, ◌+◌, ◌-◌, ◌≤◌, ◌<◌, ◌≡◌, refl, ◌∙◌, ap, false, none, some, List, arith, ◌⊎◌, inl, inr, ltb,
  get_or, modify, length, get_or-modify_self, modify-modify, modify_same, ok, panic, Bool-cases,
}
use cs_577_p.Spinlock.{Cpu, unlocked, acquire, release}
use cs_577_p.Spinlock.Laws.{IsNested}
use cs_577_p.Kalloc.Pages.{calm}
use cs_577_p.File.{File, FTable, fd_none, blank, set_ref, filedup, drop_ref}

abbrev pub ref_of : FTable → ℕ → ℕ
ref_of t i = (get_or t.files i blank).ref

abbrev pub table : List File → FTable
table fs = record { lock = unlocked; files = fs }

module _ (t : FTable) (c : Cpu) (n : IsNested c) (free : t.lock.locked ≡ false) where
  pub filedup_run :
      (i : ℕ)
      → 1 ≤ ref_of t i
      → filedup i t c ≡ ok (table (modify t.files i (set_ref (ref_of t i + 1))), calm c)
  unfolding filedup acquire release
  filedup_run i h = ground arith

  drop_run_more :
      (i : ℕ)
      → 2 ≤ ref_of t i
      → drop_ref i t c ≡ ok (none, table (modify t.files i (set_ref (ref_of t i - 1))), calm c)
  unfolding drop_ref acquire release
  drop_run_more i h = ground arith

  drop_run_last :
      (i : ℕ)
      → ref_of t i ≡ 1
      → drop_ref i t c
        ≡ ok (
          some (set_ref 0 (get_or t.files i blank)),
          table (modify t.files i (λ g. record g { ref = 0; kind = fd_none })),
          calm c,
        )
  unfolding drop_ref acquire release
  drop_run_last i h = ground arith

  -- Dropping a reference closes the file exactly when it was the last one: then the entry, with its
  -- count at 0, is handed on, and the table's entry becomes free. With more references only the count
  -- changes. Of a file with no reference it panics, and so does filedup.
  pub drop_ref_cases :
      (i : ℕ)
      → ((ref_of t i ≡ 0) × (drop_ref i t c ≡ panic) × (filedup i t c ≡ panic))
        ⊎ (((ref_of t i ≡ 1)
              × (drop_ref i t c
                  ≡ ok (
                    some (set_ref 0 (get_or t.files i blank)),
                    table (modify t.files i (λ g. record g { ref = 0; kind = fd_none })),
                    calm c,
                  )))
            ⊎ ((2 ≤ ref_of t i)
                × (drop_ref i t c
                    ≡ ok (none, table (modify t.files i (set_ref (ref_of t i - 1))), calm c))))
  unfolding drop_ref filedup acquire
  drop_ref_cases i = elim (Bool-cases (ltb (ref_of t i) 1)) [
    | inl z ↦ inl (ground arith, ground arith, ground arith)
    | inr nz ↦ elim (Bool-cases (ltb 1 (ref_of t i))) [
      | inl more ↦ inr (inr (ground arith, drop_run_more i (ground arith)))
      | inr one ↦ inr (inl (ground arith, drop_run_last i (ground arith)))
    ]
  ]

-- filedup and then a close of the same file do not close it, and leave every entry of the table, and
-- the interrupt flag, as they were.
pub drop_ref-filedup :
    (i : ℕ) (t : FTable) (c : Cpu)
    → IsNested c
    → t.lock.locked ≡ false
    → i < length t.files
    → 1 ≤ ref_of t i
    → (t1 : FTable) × (t2 : FTable) × (d1 : Cpu) × (d2 : Cpu) × (filedup i t c ≡ ok (t1, d1))
      × (drop_ref i t1 d1 ≡ ok (none, t2, d2))
      × (t2.files ≡ t.files)
      × (d2.flag_if ≡ c.flag_if)
drop_ref-filedup i t c n free lt h =
    let t1 : FTable = table (modify t.files i (set_ref (ref_of t i + 1))) in
    let e : get_or t1.files i blank ≡ set_ref (ref_of t i + 1) (get_or t.files i blank) =
      get_or-modify_self t.files i (set_ref (ref_of t i + 1)) blank lt in
    let count : ref_of t1 i ≡ ref_of t i + 1 = ap (λ (f : File). f.ref) e in
    (
      t1,
      table (modify t1.files i (set_ref (ref_of t1 i - 1))),
      calm c,
      calm (calm c),
      filedup_run t c n free i h,
      drop_run_more t1 (calm c) n refl i (omega arith),
      modify-modify t.files i (set_ref (ref_of t i + 1)) (set_ref (ref_of t1 i - 1))
          ∙ modify_same t.files i (λ f. set_ref (ref_of t1 i - 1) (set_ref (ref_of t i + 1) f))
              blank (let same : ref_of t1 i - 1 ≡ ref_of t i = omega arith in rw same refl),
      refl,
    )
