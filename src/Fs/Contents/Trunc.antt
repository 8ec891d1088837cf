-- ===== src/Fs/Contents/Trunc.antt =====
-- The loops of itrunc: a list of blocks is freed.
use cs_577_p.Base.{
  ℕ, ◌<◌, Bool, true, false, not, ◌&&◌, ◌||◌, List, [], ◌∷◌, ◌++◌, ◌≡◌, ◌≢◌, ◌⊎◌, refl, sym, ap,
  ◌∙◌, arith, ◌==◌, if◌then◌else◌, inl, inr, Bool-cases, Outcome, ok, panic, wild, spin, ◌>>=◌,
}
use mathlib.Core.Path.{subst}
use cs_577_p.Mutex.Invariant.{elem}
use cs_577_p.Fs.Blocks.{Disk, readsb, bblock, bfree}
use cs_577_p.Fs.Blocks.Bitmap.{in_use, IsDisk}
use cs_577_p.Fs.Blocks.Free.{IsData, Freed, bfree_lem}
use cs_577_p.Fs.Contents.{free_each}

-- Each of the blocks is 0, for none, or a block of data in use that is not once more among the later ones.
abbrev pub Freeable : Disk → List ℕ → Type 0
Freeable d [] = Unit
Freeable d (x ∷ xs) =
    ((x ≡ 0)
      ⊎ ((x ≢ 0) × (IsData d x) × (in_use (readsb d).ninodes d x ≡ true) × (elem x xs ≡ false)))
    × Freeable d xs

-- The disk after the blocks `xs` were freed.
pub record Released (xs : List ℕ) (d d' : Disk) : Type 0 where
  pub is_disk : IsDisk d'
  pub super_kept : readsb d' ≡ readsb d
  pub only :
      (a : ℕ)
      → a ≢ 0
      → a < (readsb d).size
      → in_use (readsb d).ninodes d' a ≡ (in_use (readsb d).ninodes d a && not (elem a xs))
  pub kept :
      (c : ℕ)
      → elem c xs ≡ false
      → ((x : ℕ) → x < (readsb d).size → c ≢ bblock x (readsb d).ninodes)
      → (p : ℕ) → d' c p ≡ d c p

moved-IsData : (d d' : Disk) (x : ℕ) → readsb d' ≡ readsb d → IsData d x → IsData d' x
moved-IsData d d' x e h = record {
  on_disk = rw e h.on_disk;
  no_super = h.no_super;
  no_map = rw e h.no_map;
}

Freeable-Freed :
    (d d' : Disk) (x : ℕ) (all : IsDisk d) (h : IsData d x)
    → Freed d x all h d'
    → (ys : List ℕ) → elem x ys ≡ false
    → Freeable d ys
    → Freeable d' ys
Freeable-Freed d d' x all h f [] n g = tt
Freeable-Freed d d' x all h f (y ∷ ys) n (inl z, g) =
    (inl z, Freeable-Freed d d' x all h f ys (ground arith) g)
Freeable-Freed d d' x all h f (y ∷ ys) n (inr (nz, dat, u, m), g) =
    let ne : (x == y) ≡ false = ground arith in
    (
      inr (
        nz,
        moved-IsData d d' y f.super_kept dat,
        ap (λ s. in_use s.ninodes d' y) f.super_kept
            ∙ (f.only y dat.on_disk
                ∙ (ap (λ b. if b then false else in_use (readsb d).ninodes d y) ne ∙ u)),
        m,
      ),
      Freeable-Freed d d' x all h f ys (ground arith) g,
    )

pub free_each_lem :
    (xs : List ℕ) (d : Disk)
    → IsDisk d
    → Freeable d xs
    → (d' : Disk) × (free_each xs d ≡ ok d') × Released xs d d'
unfolding free_each
free_each_lem [] d all f = (
  d,
  refl,
  record {
    is_disk = all;
    super_kept = refl;
    only = λ a h h'. ground arith;
    kept = λ c h h' p. refl;
  },
)
free_each_lem (x ∷ xs) d all (inl z, f) =
    let (d', e, r) = free_each_lem xs d all f in
    (
      d',
      ap (λ b. (if b then ok d else bfree x d) >>= free_each xs) (is_zero x z) ∙ e,
      record {
        is_disk = r.is_disk;
        super_kept = r.super_kept;
        only = λ a h h'.
            r.only a h h' ∙ ap (λ b. in_use (readsb d).ninodes d a && not b) (ground arith);
        kept = λ c h h' p. r.kept c (ground arith) h' p;
      },
    )
  where
    is_zero : (x : ℕ) → x ≡ 0 → (x == 0) ≡ true
    is_zero x z = ground arith
free_each_lem (x ∷ xs) d all (inr (nz, dat, u, m), f) = elim (bfree_lem d x all dat) [
  | inr (free, p) ↦ absurd (ground arith)
  | inl (used, d1, e, w) ↦
      let (d', e', r) = free_each_lem xs d1 w.is_disk (Freeable-Freed d d1 x all dat w xs m f) in
      (
        d',
        ap (λ b. (if b then ok d else bfree x d) >>= free_each xs) (is_zero x nz)
            ∙ (ap (λ o. o >>= free_each xs) e ∙ e'),
        record {
          is_disk = r.is_disk;
          super_kept = r.super_kept ∙ w.super_kept;
          only = λ a h h'. still d1 d' w r a h h';
          kept = λ c h h' p. after d1 d' w r c h h' p;
        },
      )
]
  where
    is_zero : (x : ℕ) → x ≢ 0 → (x == 0) ≡ false
    is_zero x z = ground arith

    still :
        (d1 d' : Disk)
        → Freed d x all dat d1
        → Released xs d1 d'
        → (a : ℕ) → a ≢ 0
        → a < (readsb d).size
        → in_use (readsb d).ninodes d' a ≡ (in_use (readsb d).ninodes d a && not (elem a (x ∷ xs)))
    still d1 d' w r a h h' =
        sym (ap (λ s. in_use s.ninodes d' a) w.super_kept)
        ∙ (r.only a h (rw w.super_kept h')
            ∙ (ap (λ s. in_use s.ninodes d1 a && not (elem a xs)) w.super_kept
                ∙ (ap (λ b. b && not (elem a xs)) (w.only a h')
                    ∙ merge (x == a) (in_use (readsb d).ninodes d a) (elem a xs))))
      where
        merge : (s u m : Bool) → ((if s then false else u) && not m) ≡ (u && not (s || m))
        merge s u m = ground arith

    after :
        (d1 d' : Disk)
        → Freed d x all dat d1
        → Released xs d1 d'
        → (c : ℕ) → elem c (x ∷ xs) ≡ false
        → ((y : ℕ) → y < (readsb d).size → c ≢ bblock y (readsb d).ninodes)
        → (p : ℕ) → d' c p ≡ d c p
    after d1 d' w r c h h' p =
        r.kept c (ground arith) (rw w.super_kept h') p
        ∙ w.same_blocks c (ground arith) (λ z. h' x dat.on_disk (sym z)) p

-- Freeing in two goes.
bind_both :
    (xs ys : List ℕ) (m : Outcome Disk)
    → ((d : Disk) → free_each (xs ++ ys) d ≡ (free_each xs d >>= free_each ys))
    → (m >>= free_each (xs ++ ys)) ≡ ((m >>= free_each xs) >>= free_each ys)
bind_both xs ys (ok d) h = h d
bind_both xs ys panic h = refl
bind_both xs ys wild h = refl
bind_both xs ys spin h = refl

pub free_each-append :
    (xs ys : List ℕ) (d : Disk) → free_each (xs ++ ys) d ≡ (free_each xs d >>= free_each ys)
unfolding free_each
free_each-append [] ys d = refl
free_each-append (x ∷ xs) ys d =
    bind_both xs ys (if x == 0 then ok d else bfree x d) (free_each-append xs ys)

pub free_last : (a : ℕ) (m : Outcome Disk) → a ≢ 0 → (m >>= free_each (a ∷ [])) ≡ (m >>= bfree a)
unfolding free_each
free_last a (ok d) h =
    ap (λ b. (if b then ok d else bfree a d) >>= free_each []) (is_zero a h) ∙ unit (bfree a d)
  where
    is_zero : (x : ℕ) → x ≢ 0 → (x == 0) ≡ false
    is_zero x z = ground arith

    unit : (m : Outcome Disk) → (m >>= free_each []) ≡ m
    unit (ok d) = refl
    unit panic = refl
    unit wild = refl
    unit spin = refl
free_last a panic h = refl
free_last a wild h = refl
free_last a spin h = refl

pub elem-both : (a : ℕ) (xs ys : List ℕ) → elem a (xs ++ ys) ≡ (elem a xs || elem a ys)
elem-both a [] ys = refl
elem-both a (x ∷ xs) ys = ground (arith, elem-both a xs ys)

pub Freeable-left : (d : Disk) (xs ys : List ℕ) → Freeable d (xs ++ ys) → Freeable d xs
Freeable-left d [] ys f = tt
Freeable-left d (x ∷ xs) ys (inl z, f) = (inl z, Freeable-left d xs ys f)
Freeable-left d (x ∷ xs) ys (inr (nz, dat, u, m), f) =
    (inr (nz, dat, u, ground (arith, elem-both x xs ys)), Freeable-left d xs ys f)

pub Freeable-right : (d : Disk) (xs ys : List ℕ) → Freeable d (xs ++ ys) → Freeable d ys
Freeable-right d [] ys f = f
Freeable-right d (x ∷ xs) ys f = Freeable-right d xs ys f.1

pub Freeable-last :
    (d : Disk) (xs : List ℕ) (a : ℕ) → Freeable d (xs ++ a ∷ []) → a ≢ 0 → IsData d a
Freeable-last d [] a (inl z, f) h = absurd (h z)
Freeable-last d [] a (inr (nz, dat, u, m), f) h = dat
Freeable-last d (x ∷ xs) a f h = Freeable-last d xs a f.1 h

-- What is also among the later blocks is not among the earlier ones.
pub not_before :
    (d : Disk) (xs ys : List ℕ) (a : ℕ)
    → Freeable d (xs ++ ys)
    → elem a ys ≡ true
    → a ≢ 0
    → elem a xs ≡ false
not_before d [] ys a f e h = refl
not_before d (x ∷ xs) ys a (inl z, f) e h =
    let ne : (x == a) ≡ false = ground arith in ground (arith, not_before d xs ys a f e h)
not_before d (x ∷ xs) ys a (inr (nz, dat, u, m), f) e h = elim (Bool-cases (x == a)) [
  | inl same ↦
      let eq : x ≡ a = ground arith in
      absurd (ground (arith, elem-both x xs ys, subst (λ z. elem z ys ≡ true) (sym eq) e))
  | inr other ↦ ground (arith, not_before d xs ys a f e h)
]
