-- ===== src/Sysfile/Tests.antt =====
-- A process with one open file, the second of the table.
use cs_577_p.Base.{
  ℕ, zero, suc, ◌+◌, ◌<◌, ◌≡◌, ◌⊎◌, refl, arith, Bool, true, false, none, some, [], ◌∷◌, replicate,
  modify, get_or, Outcome, ok,
}
use cs_577_p.Spinlock.{Cpu, unlocked}
use cs_577_p.Kalloc.Pages.{calm}
use cs_577_p.File.{FTable, blank, set_ref}
use cs_577_p.Syscall.{argint, fetchint}
use cs_577_p.Sysfile.{Caller, Left, argfd, fd_file, sys_dup, sys_close}
use cs_577_p.Sysfile.Counts.{Counted, count}
use cs_577_p.Sysfile.Descriptors.{Dup, Closed, left, sys_dup_lem, sys_close_lem}

abbrev quiet : Cpu
quiet = record { id = 0; ncli = 0; intena = false; flag_if = true }

abbrev caller : Caller
caller = record { sz = 100; mem = λ a. 0; esp = 0; ofile = some 1 ∷ replicate 15 none }

abbrev two_files : FTable
two_files = record { lock = unlocked; files = blank ∷ set_ref 1 blank ∷ [] }

caller-Counted : Counted (λ f. 0) caller.ofile two_files
caller-Counted = record { refs = refs; open_files = open_files; unlocked_table = refl }
  where
    refs : (f : ℕ) → f < 2 → (get_or two_files.files f blank).ref ≡ 0 + count f caller.ofile
    refs zero h = refl
    refs (suc zero) h = refl
    refs (suc (suc f)) h = absurd (omega arith)

    open_files : (fd f : ℕ) → fd < 16 → get_or caller.ofile fd none ≡ some f → f < 2
    open_files zero f h e = ground arith
    open_files (suc fd) f h e = absurd (closed_rest 15 fd e)
      where
        closed_rest : (n i : ℕ) → get_or (replicate n none) i none ≡ some f → ⊥
        closed_rest zero i z = cc z
        closed_rest (suc n) zero z = cc z
        closed_rest (suc n) (suc i) z = closed_rest n i z

sys_dup_lem_example :
    (l : Left) × (sys_dup caller two_files quiet ≡ ok l)
    × Counted (λ f. 0) l.ofile l.files
    × Dup caller two_files l
sys_dup_lem_example =
    sys_dup_lem (λ f. 0) caller two_files quiet (λ h. absurd (omega arith)) refl caller-Counted

abbrev no_pipe : ℕ → Bool → ℕ → Cpu → Outcome (ℕ × Cpu)
no_pipe p w s c = ok (s, c)

abbrev count_put : ℕ → ℕ → Cpu → Outcome (ℕ × Cpu)
count_put ip s c = ok (s + 1, c)

sys_close_lem_example :
    (t' : FTable) × Counted (λ f. 0) (modify caller.ofile 0 (λ o. none)) t'
    × (((0 < 0 + count 1 (modify caller.ofile 0 (λ o. none)))
          × (sys_close no_pipe count_put caller two_files 0 quiet
              ≡ left caller 0 t' (0, calm quiet)))
        ⊎ ((0 + count 1 (modify caller.ofile 0 (λ o. none)) ≡ 0)
            × Closed no_pipe count_put
                (get_or two_files.files 1 blank)
                (left caller 0 t')
                0
                (calm quiet)
                (sys_close no_pipe count_put caller two_files 0 quiet)))
unfolding argfd fd_file argint fetchint
sys_close_lem_example =
    sys_close_lem no_pipe count_put (λ f. 0) caller two_files 0 quiet 0 1
      (λ h. absurd (omega arith)) refl caller-Counted refl
