-- ===== src/Fs/Dir/Lookup.antt =====
-- dirlookup finds the first entry of the directory that has the name.
use cs_577_p.Base.{
  ℕ, zero, suc, ◌+◌, ◌-◌, ◌*◌, ◌/◌, ◌%◌, ◌<◌, ◌≤◌, Bool, true, false, not, ◌≡◌, ◌⊎◌, refl, ap, ◌∙◌,
  arith, ◌==◌, ltb, if◌then◌else◌, inl, inr, Bool-cases, none, some, Outcome, ok, panic, ◌>>=◌,
}
use mathlib.Core.Path.{ap₂}
use cs_577_p.Fs.Icache.{Dinode}
use cs_577_p.Fs.Blocks.{Disk, bsize}
use cs_577_p.Fs.Contents.{Found, bmap}
use cs_577_p.Fs.Contents.Mapped.{block_of, IsMapped, bmap_mapped}
use cs_577_p.Fs.Dir.Scan.{scan_cases}
use cs_577_p.Fs.Dir.{
  dirent_size, per_block, inum_at, is_entry, scan_block, Looked, leave_or, lookup_from, find_entry,
  t_dir,
}

-- The bytes of the block that has entry `e` of the directory, and whether that entry has the name.
abbrev pub bytes_of : Dinode → Disk → ℕ → ℕ → ℕ
bytes_of ip d e = d (block_of ip d (e / per_block))

abbrev pub has_name : (ℕ → ℕ) → Dinode → Disk → ℕ → Bool
has_name name ip d e = is_entry name (bytes_of ip d e) (dirent_size * (e % per_block))

-- Entry `e` lies in a block of the directory.
abbrev pub InDir : Dinode → ℕ → Type 0
InDir ip e = e / per_block * bsize < ip.size

-- The first entry from `from` on.
pub record FirstNamed (name : ℕ → ℕ) (ip : Dinode) (d : Disk) (from e : ℕ) : Type 0 where
  pub at_least : from ≤ e
  pub in_dir : InDir ip e
  pub named : has_name name ip d e ≡ true
  pub earlier : (x : ℕ) → from ≤ x → x < e → has_name name ip d x ≡ false

-- What the loops return for entry `e`.
abbrev pub entry_at : Dinode → Disk → ℕ → Looked
entry_at ip d e = record {
  entry = some (record {
    inum = inum_at (bytes_of ip d e) (dirent_size * (e % per_block));
    off = dirent_size * e;
  });
  inode = ip;
  disk = d;
}

module _ (name : ℕ → ℕ) (ip : Dinode) (d : Disk) (b : ℕ) where
  abbrev block : ℕ → ℕ
  block = d (block_of ip d b)

  -- The entries of block `b`.
  in_block :
      (i : ℕ)
      → i < per_block
      → has_name name ip d (per_block * b + i) ≡ is_entry name block (0 + dirent_size * i)
  in_block i h =
      ap₂ (λ x y. is_entry name (d (block_of ip d x)) y) (omega (arith, h)) (omega (arith, h))

  of_block :
      (x : ℕ)
      → per_block * b ≤ x
      → x < per_block * b + per_block
      → (i : ℕ) × (x ≡ per_block * b + i) × (i < per_block)
  of_block x h h' = (x - per_block * b, omega (arith, h), omega (arith, h, h'))

  abbrev made : ℕ → ℕ → Outcome Looked
  made inum off =
      ok (record { entry = some (record { inum = inum; off = off }); inode = ip; disk = d })

  found_here :
      (off j : ℕ)
      → off ≡ bsize * b
      → j < per_block
      → made (inum_at block (0 + dirent_size * j)) (off + (0 + dirent_size * j))
        ≡ ok (entry_at ip d (per_block * b + j))
  found_here off j e h =
      ap₂ made (ap₂ (λ x y. inum_at (d (block_of ip d x)) y) (omega (arith, h)) (omega (arith, h)))
        (omega (arith, e))

  named_here :
      (off j : ℕ)
      → off ≡ bsize * b
      → off < ip.size
      → j < per_block
      → is_entry name block (0 + dirent_size * j) ≡ true
      → ((i : ℕ) → i < j → is_entry name block (0 + dirent_size * i) ≡ false)
      → FirstNamed name ip d (per_block * b) (per_block * b + j)
  named_here off j e s h c f = record {
    at_least = omega arith;
    in_dir = omega (arith, e, s, h);
    named = in_block j h ∙ c;
    earlier = λ x a a'.
        ap (has_name name ip d) (at_index x a)
        ∙ (in_block (x - per_block * b) (omega (arith, a', h))
            ∙ f (x - per_block * b) (omega (arith, a, a')));
  }
    where
      at_index : (x : ℕ) → per_block * b ≤ x → x ≡ per_block * b + (x - per_block * b)
      at_index x a = omega (arith, a)

  -- Where block `b` has no such entry, a statement on the later entries goes for all.
  skip_block :
      ((i : ℕ) → i < per_block → is_entry name block (0 + dirent_size * i) ≡ false)
      → (x : ℕ) → per_block * b ≤ x
      → (per_block * suc b ≤ x → has_name name ip d x ≡ false)
      → has_name name ip d x ≡ false
  skip_block f x a later = elim (Bool-cases (ltb x (per_block * suc b))) [
    | inl near ↦
        let at_index : x ≡ per_block * b + (x - per_block * b) = omega (arith, a) in
        let low : x - per_block * b < per_block = ground (arith, near, a) in
        ap (has_name name ip d) at_index
        ∙ (in_block (x - per_block * b) low ∙ f (x - per_block * b) low)
    | inr far ↦ later (ground arith)
  ]

abbrev nothing : Dinode → Disk → Looked
nothing ip d = record { entry = none; inode = ip; disk = d }

-- The directory's blocks are there.
abbrev pub IsDir : Dinode → Disk → Type 0
IsDir ip d = (b : ℕ) → b * bsize < ip.size → IsMapped ip d b

lookup_cases :
    (name : ℕ → ℕ) (ip : Dinode) (d : Disk) (n b off : ℕ)
    → IsDir ip d
    → off ≡ bsize * b
    → ip.size ≤ off + n * bsize
    → ((e : ℕ) × (lookup_from name n off ip d ≡ ok (entry_at ip d e))
        × FirstNamed name ip d (per_block * b) e)
      ⊎ ((lookup_from name n off ip d ≡ ok (nothing ip d))
          × ((x : ℕ) → per_block * b ≤ x → InDir ip x → has_name name ip d x ≡ false))
unfolding lookup_from
lookup_cases name ip d zero b off m e h = inr (refl, λ x a i. absurd (omega (arith, e, h, a, i)))
lookup_cases name ip d (suc n) b off m e h = elim (Bool-cases (ltb off ip.size)) [
  | inr past ↦ inr (rw past refl, λ x a i. absurd (ground (arith, e, a, i, past)))
  | inl more ↦ elim (scan_cases name (block name ip d b) per_block 0) [
    | inl (j, s, l, c, f) ↦ inl (
      per_block * b + j,
      round more ∙ (ap (leave_or off here rest) s ∙ found_here name ip d b off j e l),
      named_here name ip d b off j e (ground arith) l c f,
    )
    | inr (s, f) ↦
        elim (lookup_cases name ip d n (suc b) (off + bsize) m (omega (arith, e))
          (omega (arith, h))) [
            | inl (x, g, w) ↦ inl (
              x,
              round more ∙ (ap (leave_or off here rest) s ∙ g),
              record {
                at_least = omega (arith, w.at_least);
                in_dir = w.in_dir;
                named = w.named;
                earlier = λ y a a'. skip_block name ip d b f y a (λ z. w.earlier y z a');
              },
            )
            | inr (g, w) ↦ inr (
              round more ∙ (ap (leave_or off here rest) s ∙ g),
              λ x a i. skip_block name ip d b f x a (λ z. w x z i),
            )
          ]
  ]
]
  where
    here : Found
    here = record { addr = block_of ip d b; inode = ip; disk = d }

    rest : Outcome Looked
    rest = lookup_from name n (off + bsize) ip d

    go_on : Found → Outcome Looked
    go_on f =
        leave_or off f (lookup_from name n (off + bsize) f.inode f.disk)
          (scan_block name (f.disk f.addr) per_block 0)

    round :
        ltb off ip.size ≡ true
        → lookup_from name (suc n) off ip d
          ≡ leave_or off here rest (scan_block name (block name ip d b) per_block 0)
    round t =
        let at_b : off / bsize ≡ b = omega (arith, e) in
        ap (λ x. if x then bmap (off / bsize) ip d >>= go_on else ok (nothing ip d)) t
        ∙ (ap (λ x. bmap x ip d >>= go_on) at_b
            ∙ ap (λ m. m >>= go_on) (bmap_mapped b ip d (m b (ground (arith, e)))))

-- In a directory whose blocks are there, dirlookup's search comes to the first entry of those blocks that is in use and
-- has the name, with its inode number and its offset, and to nothing if there is none; the
-- inode and the disk are as before.
pub find_entry_lem :
    (name : ℕ → ℕ) (ip : Dinode) (d : Disk)
    → ip.kind ≡ t_dir
    → IsDir ip d
    → ((e : ℕ) × (find_entry name ip d ≡ ok (entry_at ip d e)) × FirstNamed name ip d 0 e)
      ⊎ ((find_entry name ip d ≡ ok (record { entry = none; inode = ip; disk = d }))
          × ((x : ℕ) → InDir ip x → has_name name ip d x ≡ false))
unfolding find_entry
find_entry_lem name ip d k m =
    elim (lookup_cases name ip d (ip.size / bsize + 1) 0 0 m refl (omega arith)) [
      | inl (e, g, w) ↦ inl (e, is_dir ∙ g, w)
      | inr (g, w) ↦ inr (is_dir ∙ g, λ x i. w x (omega arith) i)
    ]
  where
    is_dir : find_entry name ip d ≡ lookup_from name (ip.size / bsize + 1) 0 ip d
    is_dir =
        let t : (ip.kind == t_dir) ≡ true = ground arith in
        ap (λ x. if not x then panic else lookup_from name (ip.size / bsize + 1) 0 ip d) t
