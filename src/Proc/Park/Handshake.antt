-- ===== src/Proc/Park/Handshake.antt =====
-- The handshake of setpark, park and unpark, in each order of the calls.
use cs_577_p.Base.{
  ℕ, ◌<◌, ◌≡◌, refl, ◌∙◌, ap, false, none, some, List, ok, arith, find_index, get_or, modify,
  length, length-modify, find_index-lt, find_index-get_or, find_index-modify, find_index_narrow,
  modify-modify, modify_same, modify_agree, get_or-modify_self, find_index-get_or,
}
use cs_577_p.Proc.{Proc, runnable, sleeping, running, blank, Kernel, proc_at}
use cs_577_p.Proc.Locking.{IsQuiet, locked, after, after-IsQuiet}
use cs_577_p.Proc.Park.{
  setpark, announce, park, awake, asleep, settle, unpark, unpark_found, has_pid, wants_unpark,
  unparked, remember,
}
use cs_577_p.Proc.Park.Laws.{setpark_quiet, unpark_quiet, park_awake, park_asleep}

-- The running process `cur` is the entry that its pid finds, and no flag of it is set.
pub record IsReady (pid cur : ℕ) (k : Kernel) : Type 0 where
  pub quiet : IsQuiet k
  pub found : find_index (has_pid pid) k.procs ≡ some cur
  pub runs : (proc_at k cur).state ≡ running
  pub not_parked : (proc_at k cur).is_parked ≡ false
  pub not_told : (proc_at k cur).immediate_unpark ≡ false
  pub not_announced : (proc_at k cur).set_park ≡ false

module _ (pid cur : ℕ) (k : Kernel) (r : IsReady pid cur k) where
  in_table : cur < length k.procs
  in_table = find_index-lt (has_pid pid) k.procs cur r.found

  announced : Kernel
  announced = after k (modify k.procs cur announce)

  announced-IsQuiet : IsQuiet announced
  unfolding announced
  announced-IsQuiet = after-IsQuiet k (modify k.procs cur announce) r.quiet

  setpark_ready : setpark cur k ≡ ok (some 0, announced)
  unfolding announced
  setpark_ready = ground (arith, setpark_quiet cur k r.quiet, r.not_told, r.not_announced)

  entry_announced : proc_at announced cur ≡ announce (proc_at k cur)
  unfolding announced
  entry_announced = get_or-modify_self k.procs cur announce blank in_table

  found_announced : find_index (has_pid pid) announced.procs ≡ some cur
  unfolding announced
  found_announced = find_index-modify (has_pid pid) k.procs cur announce (λ a. refl) ∙ r.found

  told : Kernel
  unfolding announced
  told = after announced (modify announced.procs cur remember)

  unpark_announced : unpark pid announced ≡ ok (none, told)
  unfolding told unpark_found
  unpark_announced = ground (
    arith,
    unpark_quiet pid cur announced announced-IsQuiet found_announced,
    entry_announced,
    r.not_parked,
  )

  entry_told : proc_at told cur ≡ remember (announce (proc_at k cur))
  unfolding told
  entry_told =
      get_or-modify_self announced.procs cur remember blank
        (omega (arith, length-modify k.procs cur announce, in_table))
      ∙ ap remember entry_announced

  told-length : cur < length told.procs
  unfolding told
  told-length = omega (
    arith,
    in_table,
    length-modify k.procs cur announce,
    length-modify (modify k.procs cur announce) cur remember,
  )

  told-IsQuiet : IsQuiet told
  unfolding told
  told-IsQuiet = after-IsQuiet announced (modify announced.procs cur remember) announced-IsQuiet

  woken : Kernel
  woken = after told (modify told.procs cur settle)

  park_told : park cur told ≡ ok (awake woken)
  unfolding woken
  park_told =
      park_awake cur told told-IsQuiet told-length (ground (arith, entry_told))
        (ground (arith, entry_told, r.runs))

  woken-procs : woken.procs ≡ k.procs
  unfolding woken told announced
  woken-procs =
      modify-modify (modify k.procs cur announce) cur remember settle
      ∙ modify-modify k.procs cur announce (λ p. settle (remember p))
      ∙ modify_same k.procs cur (λ p. settle (remember (announce p))) blank
          (ground (arith, r.not_told, r.not_announced))

  -- The table after setpark and park with no unpark between.
  abbrev parked_table : List Proc
  parked_table = modify announced.procs cur settle

  dozing : Kernel
  dozing = record (locked announced) { procs = parked_table }

  park_announced : park cur announced ≡ ok (asleep false dozing)
  unfolding dozing
  park_announced =
      park_asleep cur announced announced-IsQuiet
        (unfold announced in omega (arith, in_table, length-modify k.procs cur announce))
        (ground (arith, entry_announced, r.not_told))

  found_parked : find_index (has_pid pid) parked_table ≡ some cur
  found_parked =
      find_index-modify (has_pid pid) announced.procs cur settle (λ p. ground arith)
      ∙ found_announced

  entry_parked : get_or parked_table cur blank ≡ settle (announce (proc_at k cur))
  unfolding announced
  entry_parked =
      get_or-modify_self (modify k.procs cur announce) cur settle blank
        (omega (arith, in_table, length-modify k.procs cur announce))
      ∙ ap settle entry_announced

  found_by_unpark1 : find_index (wants_unpark pid) parked_table ≡ some cur
  found_by_unpark1 =
      find_index_narrow (has_pid pid) (wants_unpark pid) parked_table cur blank
        (λ p h. ground arith) found_parked
        (ground (
          arith,
          entry_parked,
          r.not_told,
          find_index-get_or (has_pid pid) parked_table cur blank found_parked,
        ))

  unpark_parked : unpark_found cur pid parked_table ≡ (some 0, modify parked_table cur unparked)
  unfolding unpark_found
  unpark_parked = ground (arith, entry_parked, r.not_told, found_by_unpark1)

  table_unparked :
      modify parked_table cur unparked ≡ modify k.procs cur (λ p. record p { state = runnable })
  unfolding announced
  table_unparked =
      modify-modify (modify k.procs cur announce) cur settle unparked
      ∙ modify-modify k.procs cur announce (λ p. unparked (settle p))
      ∙ modify_agree k.procs cur (λ p. unparked (settle (announce p)))
          (λ p. record p { state = runnable }) blank
          (ground (arith, r.not_told, r.not_announced, r.not_parked))

  -- For a process that runs, that its pid finds, with no flag of it set and no lock held: setpark and
  -- then park, with no unpark between, put it to sleep. An unpark of its pid from any state with that
  -- table and no lock held returns 0 and leaves the table as it was before setpark, but for the process,
  -- which is runnable.
  pub unpark-park :
      (k1 k2 : Kernel) × (setpark cur k ≡ ok (some 0, k1))
      × (park cur k1 ≡ ok (asleep false k2))
      × ((proc_at k2 cur).state ≡ sleeping)
      × ((j : Kernel)
          → IsQuiet j
          → j.procs ≡ k2.procs
          → (j' : Kernel) × (unpark pid j ≡ ok (some 0, j'))
            × (j'.procs ≡ modify k.procs cur (λ p. record p { state = runnable })))
  unpark-park = (announced, dozing, setpark_ready, park_announced, asleep_now, later)
    where
      asleep_now : (proc_at dozing cur).state ≡ sleeping
      asleep_now = unfold dozing in ground (arith, entry_parked, r.not_told)

      later :
          (j : Kernel)
          → IsQuiet j
          → j.procs ≡ dozing.procs
          → (j' : Kernel) × (unpark pid j ≡ ok (some 0, j'))
            × (j'.procs ≡ modify k.procs cur (λ p. record p { state = runnable }))
      later j q e =
          let e' : j.procs ≡ parked_table = e ∙ (unfold dozing in refl) in
          (
            after j (modify parked_table cur unparked),
            unpark_quiet pid cur j q (rw e' found_parked) ∙ rw (e', unpark_parked) refl,
            table_unparked,
          )

  -- For a process that runs, that its pid finds, with no flag of it set and no lock held: an unpark
  -- between its setpark and its park is not lost, though it returns -1. park does not sleep, and the
  -- whole process table is then as it was before setpark.
  pub no_lost_wakeup :
      (k1 k2 k3 : Kernel) × (setpark cur k ≡ ok (some 0, k1))
      × (unpark pid k1 ≡ ok (none, k2))
      × (park cur k2 ≡ ok (awake k3))
      × (k3.procs ≡ k.procs)
      × IsQuiet k3
  no_lost_wakeup = (
    announced,
    told,
    woken,
    setpark_ready,
    unpark_announced,
    park_told,
    woken-procs,
    unfold woken in after-IsQuiet told (modify told.procs cur settle) told-IsQuiet,
  )

-- For a process that runs, that its pid finds, with no flag of it set and no lock held: an unpark that
-- comes before setpark is not remembered. It returns -1 and changes nothing in the table, setpark then
-- returns 0, and park goes to sleep.
pub unpark_too_early :
    (pid cur : ℕ) (k : Kernel)
    → IsReady pid cur k
    → (k0 k1 k2 : Kernel) × (unpark pid k ≡ ok (none, k0))
      × (k0.procs ≡ k.procs)
      × (setpark cur k0 ≡ ok (some 0, k1))
      × (park cur k1 ≡ ok (asleep false k2))
unfolding unpark_found
unpark_too_early pid cur k r =
    let k0 : Kernel = after k k.procs in
    let r0 : IsReady pid cur k0 = record {
      quiet = after-IsQuiet k k.procs r.quiet;
      found = r.found;
      runs = r.runs;
      not_parked = r.not_parked;
      not_told = r.not_told;
      not_announced = r.not_announced;
    } in
    (
      k0,
      announced pid cur k0 r0,
      dozing pid cur k0 r0,
      ground (arith, unpark_quiet pid cur k r.quiet r.found, r.not_announced, r.not_parked),
      refl,
      setpark_ready pid cur k0 r0,
      park_announced pid cur k0 r0,
    )
