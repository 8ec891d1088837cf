-- ===== src/Vm/Mapping.antt =====
-- A round of mappages: the entry that it writes, and those that it leaves.
use cs_577_p.Base.{
  ℕ, ◌+◌, ◌*◌, ◌/◌, ◌%◌, ◌^◌, ◌<◌, ◌≡◌, ◌≢◌, ◌⊎◌, inl, inr, sym, ap, ◌∙◌, arith, true, false,
  if◌then◌else◌, ◌==◌, Bool-cases, ok, panic,
}
use Prim.Native.Nat.{bit_or}
use cs_577_p.Spinlock.{Cpu}
use cs_577_p.Kalloc.{Kmem, pgsize}
use cs_577_p.Vm.{entry, is_present, pte_addr, ptx, pte_p, store_word, with_mem, map_page}
use cs_577_p.Vm.Words.{IsEntry, bit_or_flags, bit_or-halves, zero-bit_or, bit_or_small}
use cs_577_p.Vm.Tables.{pte_of, IsDir}
use cs_577_p.Vm.Walk.{Walked}
use cs_577_p.Vm.Put.{put, put_self, put_ne, put-IsDir}

-- The word that maps a page to the frame number `f`.
abbrev pub frame_word : ℕ → ℕ → ℕ
frame_word f perm = bit_or (bit_or (f * pgsize) perm) pte_p

pub frame_word-IsEntry :
    (f perm : ℕ) → f < 2 ^ 20 → perm < 8 → IsEntry (frame_word f perm) (f * pgsize)
frame_word-IsEntry f perm h h' =
    let e : frame_word f perm ≡ f * pgsize + bit_or perm 1 = ground (
      arith,
      bit_or_flags (f * pgsize) 0 perm,
      bit_or_flags (f * pgsize) perm 1,
      zero-bit_or perm,
    ) in
    rw e (record {
      small = omega (arith, bit_or_small perm 1 h' (omega arith));
      frame = omega (arith, bit_or_small perm 1 h' (omega arith));
      present = omega (arith, bit_or-halves perm 1);
    })

-- The entry of page number `x`.
abbrev pub pte_at : ℕ → ℕ → (ℕ → ℕ) → ℕ
pte_at pgdir x m = pte_of pgdir (x / 1024) (x % 1024) m

-- What a round of the loop of mappages leaves, for page `x` and the word `w`.
pub record Put (k : Kmem) (pgdir x w : ℕ) (k' : Kmem) : Type 0 where
  pub is_dir : IsDir k' pgdir
  pub written : pte_at pgdir x k'.mem ≡ w
  pub kept : (z : ℕ) → z < 2 ^ 20 → x ≢ z → pte_at pgdir z k'.mem ≡ pte_at pgdir z k.mem

pub map_page_lem :
    (k : Kmem) (pgdir x pte f perm : ℕ) (k1 : Kmem) (c1 : Cpu)
    → x < 2 ^ 20
    → f < 2 ^ 20
    → perm < 8
    → Walked k pgdir (x * pgsize) pte k1 c1
    → is_present (pte_at pgdir x k.mem) ≡ false
    → (k2 : Kmem) × (map_page pte (f * pgsize) perm k1 ≡ ok k2)
      × Put k pgdir x (frame_word f perm) k2
unfolding map_page entry
map_page_lem k pgdir x pte f perm k1 c1 hx hf hp w absent = (
  put k1 pgdir i j v w.is_dir (omega arith) (omega arith) fits there,
  run,
  record {
    is_dir = put-IsDir k1 pgdir i j v w.is_dir (omega arith) (omega arith) fits there;
    written = put_self k1 pgdir i j v w.is_dir (omega arith) (omega arith) fits there;
    kept = λ z h n.
        put_ne k1 pgdir i j v w.is_dir (omega arith) (omega arith) fits there (z / 1024) (z % 1024)
          (omega arith) (omega arith) (apart z n (Bool-cases (i == z / 1024)))
        ∙ w.same (z / 1024) (z % 1024) (omega arith) (omega arith);
  },
)
  where
    i : ℕ
    i = x / 1024

    j : ℕ
    j = x % 1024

    v : ℕ
    v = frame_word f perm

    fits : v < 2 ^ 32
    fits = (frame_word-IsEntry f perm hf hp).small

    there : is_present (entry pgdir i k1.mem) ≡ true
    there = ap (λ a. is_present (entry pgdir a k1.mem)) (omega arith) ∙ w.present

    table_at : ℕ
    table_at = pte_addr (entry pgdir i k1.mem)

    pte_eq : pte ≡ table_at + 4 * j
    pte_eq =
        w.at_entry
        ∙ ap (λ a. pte_addr (entry pgdir a k1.mem) + 4 * ptx (x * pgsize)) (omega arith)
        ∙ ap (λ a. table_at + 4 * a) (omega arith)

    clear : is_present (entry table_at j k1.mem) ≡ false
    clear =
        ap (λ b. is_present (if b then entry table_at j k1.mem else 0)) (sym there)
        ∙ ap is_present (w.same i j (omega arith) (omega arith))
        ∙ absent

    run :
        map_page pte (f * pgsize) perm k1
        ≡ ok (put k1 pgdir i j v w.is_dir (omega arith) (omega arith) fits there)
    run =
        ap (λ a. map_page a (f * pgsize) perm k1) pte_eq
        ∙ ap (λ b. if b then panic else ok (with_mem (store_word (table_at + 4 * j) v) k1)) clear

    apart :
        (z : ℕ)
        → x ≢ z
        → (i == z / 1024 ≡ true) ⊎ (i == z / 1024 ≡ false)
        → (i ≢ z / 1024) ⊎ (j ≢ z % 1024)
    apart z n (inl e) = inr (ground arith)
    apart z n (inr e) = inl (ground arith)
