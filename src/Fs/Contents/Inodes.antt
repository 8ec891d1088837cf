-- ===== src/Fs/Contents/Inodes.antt =====
-- The inode that iupdate writes is the one that ilock reads.
use cs_577_p.Base.{
  ℕ, suc, ◌+◌, ◌-◌, ◌*◌, ◌/◌, ◌%◌, ◌^◌, ◌<◌, ◌≤◌, true, false, List, [], ◌∷◌, length, ◌≡◌, refl,
  sym, ap, ◌∙◌, arith, ◌==◌, ltb, if◌then◌else◌, get_or,
}
use mathlib.Core.Path.{ap₂, fun_ext}
use cs_577_p.Fs.Icache.{Dinode}
use cs_577_p.Fs.Blocks.{Disk, ipb, word}
use cs_577_p.Fs.Contents.Copies.{copy_in}
use cs_577_p.Fs.Contents.{
  copy_bytes, byte_of, dinode_byte, dinode_size, iblock, iupdate, addr_at, write_block, words,
}

-- The fields of an inode on the disk, as the loads of ilock read them.
abbrev half : (ℕ → ℕ) → ℕ → ℕ
half bytes o = bytes o + bytes (o + 1) * 2 ^ 8

abbrev fields : (ℕ → ℕ) → ℕ → Dinode
fields bytes o = record {
  kind = half bytes o;
  major = half bytes (o + 2);
  minor = half bytes (o + 4);
  nlink = half bytes (o + 6);
  size = word bytes (o + 8);
  addrs = words 13 bytes (o + 12);
}

abbrev pub read_dinode : ℕ → Disk → Dinode
read_dinode inum d = fields (d (iblock inum)) (inum % ipb * dinode_size)

same_dinode :
    (k m i n s : ℕ) (a : List ℕ) (ip : Dinode)
    → k ≡ ip.kind
    → m ≡ ip.major
    → i ≡ ip.minor
    → n ≡ ip.nlink
    → s ≡ ip.size
    → a ≡ ip.addrs
    → record { kind = k; major = m; minor = i; nlink = n; size = s; addrs = a } ≡ ip
same_dinode k m i n s a ip e1 e2 e3 e4 e5 e6 = rw (e1, e2, e3, e4, e5, e6) refl

-- What the fields can hold.
pub record IsDinode (ip : Dinode) : Type 0 where
  pub short_kind : ip.kind < 2 ^ 16
  pub short_major : ip.major < 2 ^ 16
  pub short_minor : ip.minor < 2 ^ 16
  pub short_nlink : ip.nlink < 2 ^ 16
  pub word_size : ip.size < 2 ^ 32
  pub thirteen : length ip.addrs ≡ 13
  pub word_addrs : (i : ℕ) → addr_at ip i < 2 ^ 32

halves : (v : ℕ) → v < 2 ^ 16 → byte_of v 0 + byte_of v 1 * 2 ^ 8 ≡ v
halves v h = omega (arith, h)

four :
    (v : ℕ)
    → v < 2 ^ 32
    → byte_of v 0 + byte_of v 1 * 2 ^ 8 + byte_of v 2 * 2 ^ 16 + byte_of v 3 * 2 ^ 24 ≡ v
four v h = omega (arith, h)

address_byte :
    (ip : Dinode) (j t : ℕ) → t < 4 → dinode_byte ip (12 + 4 * j + t) ≡ byte_of (addr_at ip j) t
address_byte ip j t h =
    past (12 + 4 * j + t) (omega arith)
    ∙ ap₂ (λ x y. byte_of (addr_at ip x) y) (omega (arith, h)) (omega (arith, h))
  where
    past : (q : ℕ) → 12 ≤ q → dinode_byte ip q ≡ byte_of (addr_at ip ((q - 12) / 4)) ((q - 12) % 4)
    past q l =
        let a : ltb q 2 ≡ false = ground (arith, l) in
        let b : ltb q 4 ≡ false = ground (arith, l) in
        let c : ltb q 6 ≡ false = ground (arith, l) in
        let e : ltb q 8 ≡ false = ground (arith, l) in
        let f : ltb q 12 ≡ false = ground (arith, l) in rw (a, b, c, e, f) refl

words_lem :
    (xs : List ℕ) (bytes : ℕ → ℕ) (o : ℕ)
    → ((j : ℕ) → j < length xs → word bytes (o + 4 * j) ≡ get_or xs j 0)
    → words (length xs) bytes o ≡ xs
unfolding words
words_lem [] bytes o h = refl
words_lem (x ∷ xs) bytes o h =
    ap₂ (λ y ys. y ∷ ys) (ap (word bytes) (omega arith) ∙ h 0 (omega arith))
      (words_lem xs bytes (o + 4)
        (λ j l. ap (word bytes) (omega arith) ∙ h (suc j) (omega (arith, l))))

module _ (inum : ℕ) (ip : Dinode) (d : Disk) (is_dinode : IsDinode ip) where
  abbrev start : ℕ
  start = inum % ipb * dinode_size

  abbrev block : ℕ → ℕ
  block = copy_bytes start (dinode_byte ip) 0 dinode_size (d (iblock inum))

  at : (q p : ℕ) → q < dinode_size → p ≡ start + q → block p ≡ dinode_byte ip q
  at q p h e =
      let offset : 0 + (p - start) ≡ q = omega (arith, e) in
      copy_in start (dinode_byte ip) 0 dinode_size (d (iblock inum)) p (omega (arith, e))
        (omega (arith, h, e))
      ∙ ap (dinode_byte ip) offset

  half_lem :
      (q v p : ℕ)
      → v < 2 ^ 16
      → q + 1 < dinode_size
      → p ≡ start + q
      → dinode_byte ip q ≡ byte_of v 0
      → dinode_byte ip (q + 1) ≡ byte_of v 1
      → half block p ≡ v
  half_lem q v p s h e a b =
      ap₂ (λ x y. x + y * 2 ^ 8) (at q p (omega (arith, h)) e ∙ a)
        (at (q + 1) (p + 1) h (omega (arith, e)) ∙ b)
      ∙ halves v s

  word_lem :
      (q v p : ℕ)
      → v < 2 ^ 32
      → q + 3 < dinode_size
      → p ≡ start + q
      → ((t : ℕ) → t < 4 → dinode_byte ip (q + t) ≡ byte_of v t)
      → word block p ≡ v
  word_lem q v p s h e b =
      ap₂ (λ x y. x + y * 2 ^ 24)
        (ap₂ (λ x y. x + y * 2 ^ 16)
          (ap₂ (λ x y. x + y * 2 ^ 8) (part 0 p (omega (arith, e)) (omega arith))
            (part 1 (p + 1) (omega (arith, e)) (omega arith)))
          (part 2 (p + 2) (omega (arith, e)) (omega arith)))
        (part 3 (p + 3) (omega (arith, e)) (omega arith))
      ∙ four v s
    where
      part : (t r : ℕ) → r ≡ start + q + t → t < 4 → block r ≡ byte_of v t
      part t r f l = at (q + t) r (omega (arith, h, l)) (omega (arith, f)) ∙ b t l

  fields_lem : fields block start ≡ ip
  fields_lem =
      same_dinode (half block start) (half block (start + 2)) (half block (start + 4))
        (half block (start + 6)) (word block (start + 8)) (words 13 block (start + 12)) ip
        (half_lem 0 ip.kind start is_dinode.short_kind (omega arith) (omega arith) refl refl)
        (half_lem 2 ip.major (start + 2) is_dinode.short_major (omega arith) refl refl refl)
        (half_lem 4 ip.minor (start + 4) is_dinode.short_minor (omega arith) refl refl refl)
        (half_lem 6 ip.nlink (start + 6) is_dinode.short_nlink (omega arith) refl refl refl)
        (word_lem 8 ip.size (start + 8) is_dinode.word_size (omega arith) refl size_byte)
        (ap (λ n. words n block (start + 12)) (sym is_dinode.thirteen)
          ∙ words_lem ip.addrs block (start + 12) (λ j l.
            word_lem (12 + 4 * j) (addr_at ip j) (start + 12 + 4 * j) (is_dinode.word_addrs j)
              (omega (arith, l, is_dinode.thirteen)) (omega arith) (λ t h. address_byte ip j t h)))
    where
      in_size : (q : ℕ) → 8 ≤ q → q < 12 → dinode_byte ip q ≡ byte_of ip.size (q - 8)
      in_size q l l' =
          let a : ltb q 2 ≡ false = ground (arith, l) in
          let b : ltb q 4 ≡ false = ground (arith, l) in
          let c : ltb q 6 ≡ false = ground (arith, l) in
          let e : ltb q 8 ≡ false = ground (arith, l) in
          let f : ltb q 12 ≡ true = ground (arith, l') in rw (a, b, c, e, f) refl

      size_byte : (t : ℕ) → t < 4 → dinode_byte ip (8 + t) ≡ byte_of ip.size t
      size_byte t h =
          in_size (8 + t) (omega arith) (omega (arith, h)) ∙ ap (byte_of ip.size) (omega arith)

  -- For an inode whose fields fit, the inode that ilock reads after iupdate is the one that iupdate wrote.
  pub read_dinode-iupdate : read_dinode inum (iupdate inum ip d) ≡ ip
  unfolding iupdate
  read_dinode-iupdate = ap (λ f. fields f start) (fun_ext (λ p. same_block p)) ∙ fields_lem
    where
      self : (x : ℕ) → (x == x) ≡ true
      self x = ground arith

      same_block : (p : ℕ) → write_block (iblock inum) block d (iblock inum) p ≡ block p
      same_block p = ap (λ x. if x then block p else d (iblock inum) p) (self (iblock inum))
