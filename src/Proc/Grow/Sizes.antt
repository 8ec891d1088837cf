-- ===== src/Proc/Grow/Sizes.antt =====
-- Who gets the new size.
use cs_577_p.Base.{
  ℕ, zero, suc, ◌+◌, ◌<◌, ◌≡◌, ◌≢◌, refl, ◌∙◌, true, false, some, List, [], ◌∷◌, arith,
  if◌then◌else◌, get_elem?, get_or, modify, length, get_or-modify_self, get_elem?-modify_ne,
}
use mathlib.Core.Option
use cs_577_p.Proc.{Proc, blank, Kernel, proc_at}
use cs_577_p.Proc.Grow.{resized, resize_from, resize}

resize_from_lem :
    (cur : ℕ) (me : Proc) (sz i j : ℕ) (ps : List Proc)
    → get_elem? (resize_from cur me sz i ps) j
      ≡ Option.map
          (λ p. if resized cur me (i + j) p then record p { sz = sz } else p)
          (get_elem? ps j)
unfolding resize_from
resize_from_lem cur me sz i j [] = refl
resize_from_lem cur me sz i zero (p ∷ ps) = let e : i + 0 ≡ i = omega arith in rw e refl
resize_from_lem cur me sz i (suc j) (p ∷ ps) =
    let e : i + suc j ≡ i + 1 + j = omega arith in rw e (resize_from_lem cur me sz (i + 1) j ps)

abbrev with_size : ℕ → Proc → Proc
with_size sz p = record p { sz = sz }

-- Every other entry gets the new size if it is a thread of `cur`, the parent of the thread `cur`, or a
-- thread with the same parent as `cur`, and is not changed otherwise.
pub resize_lem :
    (cur sz j : ℕ) (k : Kernel) (p : Proc)
    → cur < length k.procs
    → cur ≢ j
    → get_elem? k.procs j ≡ some p
    → get_elem? (resize cur sz k).procs j
      ≡ some (if resized cur (proc_at k cur) j p then record p { sz = sz } else p)
unfolding resize
resize_lem cur sz j k p lt ne e =
    let me : get_or (modify k.procs cur (with_size sz)) cur blank ≡ with_size sz (proc_at k cur) =
      get_or-modify_self k.procs cur (with_size sz) blank lt in
    let entry : get_elem? (modify k.procs cur (with_size sz)) j ≡ some p =
      get_elem?-modify_ne k.procs cur j (with_size sz) ne ∙ e in
    let z : 0 + j ≡ j = omega arith in
    resize_from_lem cur (get_or (modify k.procs cur (with_size sz)) cur blank) sz 0 j
      (modify k.procs cur (with_size sz))
    ∙ rw (entry, me, z) refl

-- A process that is no thread gives its new size also to the threads of its parent, which share the
-- parent's memory and not its own.
pub resize_stranger :
    (cur sz i j : ℕ) (k : Kernel) (p : Proc)
    → cur < length k.procs
    → cur ≢ j
    → get_elem? k.procs j ≡ some p
    → (proc_at k cur).is_thread ≡ false
    → (proc_at k cur).parent ≡ some i
    → p.parent ≡ some i
    → p.is_thread ≡ true
    → get_elem? (resize cur sz k).procs j ≡ some (record p { sz = sz })
resize_stranger cur sz i j k p lt ne e not_thread mine its thread =
    resize_lem cur sz j k p lt ne e ∙ ground arith
