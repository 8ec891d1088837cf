-- ===== src/Kalloc/Pages.antt =====
-- What kalloc hands out and kfree takes back.
use cs_577_p.Base.{
  ℕ, ◌+◌, ◌%◌, ◌≤◌, ◌<◌, ◌≡◌, ◌≢◌, refl, false, Option, none, some, List, [], ◌∷◌, ok, panic, arith,
  ◌⊎◌, inl, inr,
}
use cs_577_p.Spinlock.{Cpu, unlocked, acquire, release, pushcli}
use cs_577_p.Spinlock.Laws.{IsNested}
use cs_577_p.Kalloc.{
  Kmem, pgsize, phystop, kfree, kalloc, first_run, next_run, memset, set_next, head_ptr,
}

-- A page that the allocator may hand out.
pub record IsPage (k : Kmem) (v : ℕ) : Type 0 where
  pub aligned : v % pgsize ≡ 0
  pub above : k.kernel_end ≤ v
  pub below : v < phystop

-- `v` is not on the list.
abbrev pub Fresh : ℕ → List ℕ → Type 0
Fresh v [] = Unit
Fresh v (x ∷ xs) = (x ≢ v) × Fresh v xs

-- The pages of the list are pages, each there once.
abbrev pub Free : Kmem → List ℕ → Type 0
Free k [] = Unit
Free k (x ∷ xs) = IsPage k x × Fresh x xs × Free k xs

pub record IsValid (k : Kmem) : Type 0 where
  pub free_lock : k.lock.locked ≡ false
  pub pages : Free k k.freelist

abbrev pub calm : Cpu → Cpu
calm c = record (pushcli c) { ncli = c.ncli; flag_if = c.flag_if }

pub Free-same : (k k' : Kmem) (xs : List ℕ) → k'.kernel_end ≡ k.kernel_end → Free k xs → Free k' xs
Free-same k k' [] e h = tt
Free-same k k' (x ∷ xs) e h = (
  record { aligned = h.0.aligned; above = rw e h.0.above; below = h.0.below },
  h.1,
  Free-same k k' xs e h.2,
)

-- What a good free does to the allocator.
abbrev pub freed : ℕ → Kmem → Kmem
freed v k = record {
  lock = unlocked;
  freelist = v ∷ k.freelist;
  kernel_end = k.kernel_end;
  mem = set_next (memset k.mem v 1 pgsize) v (head_ptr k.freelist);
}

pub kfree_ok :
    (v : ℕ) (k : Kmem) (c : Cpu)
    → IsNested c
    → k.lock.locked ≡ false
    → IsPage k v
    → kfree v k c ≡ ok (freed v k, calm c)
unfolding kfree acquire release
kfree_ok v k c n l p = ground (arith)

-- kfree panics on an address that is no page, and on no other.
pub kfree_panics :
    (v : ℕ) (k : Kmem) (c : Cpu)
    → ((v % pgsize ≢ 0) ⊎ ((v < k.kernel_end) ⊎ (phystop ≤ v)))
    → kfree v k c ≡ panic
unfolding kfree
kfree_panics v k c (inl h) = ground arith
kfree_panics v k c (inr (inl h)) = ground arith
kfree_panics v k c (inr (inr h)) = ground arith

-- kfree of a page that is not free keeps the allocator valid, and fills the page with 1 behind its first word.
pub kfree-IsValid :
    (v : ℕ) (k : Kmem) (c : Cpu)
    → IsNested c
    → IsValid k
    → IsPage k v
    → Fresh v k.freelist
    → (k' : Kmem) × (d : Cpu) × (kfree v k c ≡ ok (k', d))
      × IsValid k'
      × (k'.freelist ≡ v ∷ k.freelist)
      × ((a : ℕ) → v + 4 ≤ a → a < v + pgsize → k'.mem a ≡ 1)
kfree-IsValid v k c n val p f = (
  freed v k,
  calm c,
  kfree_ok v k c n val.free_lock p,
  record {
    free_lock = refl;
    pages = (
      record { aligned = p.aligned; above = p.above; below = p.below },
      f,
      Free-same k (freed v k) k.freelist refl val.pages,
    );
  },
  refl,
  λ a h1 h2. ground arith,
)

-- What kalloc leaves: the allocator without the first page, which it has handed out.
abbrev pub taken : Kmem → Kmem
taken k = record {
  lock = unlocked;
  freelist = next_run k.freelist;
  kernel_end = k.kernel_end;
  mem = k.mem;
}

pub kalloc_ok :
    (k : Kmem) (c : Cpu)
    → IsNested c
    → k.lock.locked ≡ false
    → kalloc k c ≡ ok (first_run k.freelist, taken k, calm c)
unfolding kalloc acquire release
kalloc_ok k c n l = ground arith

-- A page that the list gives is valid and no longer on the list.
pub Served : Kmem → Option ℕ → Kmem → Type 0
Served k none k' = k.freelist ≡ []
Served k (some v) k' = (k.freelist ≡ v ∷ k'.freelist) × IsPage k v × Fresh v k'.freelist

Served-taken :
    (k : Kmem) (xs : List ℕ)
    → k.freelist ≡ xs
    → Free k xs
    → Served k (first_run xs) (record (taken k) { freelist = next_run xs })
      × Free (taken k) (next_run xs)
unfolding Served
Served-taken k [] e h = (e, tt)
Served-taken k (x ∷ xs) e h = ((e, h.0, h.1), Free-same k (taken k) xs refl h.2)

-- kalloc returns null exactly for the empty list; else the first page of the list, which is on it no
-- more. The allocator stays valid.
pub kalloc-IsValid :
    (k : Kmem) (c : Cpu)
    → IsNested c
    → IsValid k
    → (r : Option ℕ) × (k' : Kmem) × (d : Cpu) × (kalloc k c ≡ ok (r, k', d))
      × Served k r k'
      × IsValid k'
kalloc-IsValid k c n v =
    let (s, p) = Served-taken k k.freelist refl v.pages in
    (
      first_run k.freelist,
      taken k,
      calm c,
      kalloc_ok k c n v.free_lock,
      s,
      record { free_lock = refl; pages = p },
    )
