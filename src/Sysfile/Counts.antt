-- ===== src/Sysfile/Counts.antt =====
-- The reference count of a file is the number of the descriptors that stand for it.
use cs_577_p.Base.{
  ℕ, zero, suc, ◌+◌, ◌≤◌, ◌<◌, ◌≡◌, ◌≢◌, ◌⊎◌, inl, inr, refl, sym, ap, ◌∙◌, arith, true, false,
  Option, none, some, List, [], ◌∷◌, get_or, modify, length, find_index, find_index-lt,
  find_index-none, get_elem?-get_or, find_index-get_or, get_or-modify_self, get_or-modify_ne,
  if◌then◌else◌, ◌==◌, Bool-cases, Option-cases, length-modify,
}
use mathlib.Core.Path.{subst}
use cs_577_p.File.{File, FTable, blank}
use cs_577_p.File.Refs.{ref_of, table}
use cs_577_p.Sysfile.{is_closed, opened, closed, fdalloc}

abbrev pub points : ℕ → Option ℕ → ℕ
points f none = 0
points f (some g) = if g == f then 1 else 0

-- How often a table of descriptors has the file.
abbrev pub count : ℕ → List (Option ℕ) → ℕ
count f [] = 0
count f (o ∷ os) = points f o + count f os

-- Each file of the system has a reference for each descriptor: those of the caller, and `others`, of
-- the other processes.
pub record Counted (others : ℕ → ℕ) (os : List (Option ℕ)) (t : FTable) : Type 0 where
  pub refs : (f : ℕ) → f < length t.files → ref_of t f ≡ others f + count f os
  pub open_files : (fd f : ℕ) → fd < length os → get_or os fd none ≡ some f → f < length t.files
  pub unlocked_table : t.lock.locked ≡ false

count-modify :
    (os : List (Option ℕ)) (fd f : ℕ) (change : Option ℕ → Option ℕ)
    → fd < length os
    → count f (modify os fd change) + points f (get_or os fd none)
      ≡ count f os + points f (change (get_or os fd none))
count-modify [] fd f change h = absurd (omega arith)
count-modify (o ∷ os) zero f change h = omega arith
count-modify (o ∷ os) (suc fd) f change h = omega (arith, count-modify os fd f change (omega arith))

-- What fdalloc finds.
pub fdalloc_cases :
    (f : ℕ) (os : List (Option ℕ))
    → ((fdalloc f os ≡ none) × ((i : ℕ) → i < length os → get_or os i none ≢ none))
      ⊎ ((fd : ℕ) × (fdalloc f os ≡ some (fd, modify os fd (opened f)))
          × (fd < length os)
          × (get_or os fd none ≡ none))
unfolding fdalloc
fdalloc_cases f os = elim (Option-cases (find_index is_closed os)) [
  | inl e ↦ inl (ground arith, all_open e)
  | inr (fd, e) ↦ inr (
    fd,
    ground arith,
    find_index-lt is_closed os fd e,
    is_none (get_or os fd none) (find_index-get_or is_closed os fd none e),
  )
]
  where
    is_none : (o : Option ℕ) → is_closed o ≡ true → o ≡ none
    is_none none h = refl
    is_none (some g) h = cc

    all_open : find_index is_closed os ≡ none → (i : ℕ) → i < length os → get_or os i none ≢ none
    all_open e i h z =
        let p =
          find_index-none is_closed os i (get_or os i none) e (get_elem?-get_or os i none h) in
        cc (sym (ap is_closed z) ∙ p)

pub points_self : (f : ℕ) → points f (some f) ≡ 1
points_self f = ground arith

pub points_ne : (f g : ℕ) → f ≢ g → points g (some f) ≡ 0
points_ne f g n = ground arith

pub count_pos :
    (os : List (Option ℕ)) (fd f : ℕ) → fd < length os → get_or os fd none ≡ some f → 1 ≤ count f os
count_pos [] fd f h e = absurd (omega arith)
count_pos (o ∷ os) zero f h e = let p = ap (points f) e ∙ points_self f in omega (arith, p)
count_pos (o ∷ os) (suc fd) f h e = omega (arith, count_pos os fd f (omega arith) e)

-- One more, or one fewer, descriptor for `f`.
pub count-open :
    (os : List (Option ℕ)) (fd f g : ℕ)
    → fd < length os
    → get_or os fd none ≡ none
    → count g (modify os fd (opened f)) ≡ count g os + points g (some f)
count-open os fd f g h e =
    let c = count-modify os fd g (opened f) h in let p = ap (points g) e in omega (arith, c, p)

pub count-close :
    (os : List (Option ℕ)) (fd f g : ℕ)
    → fd < length os
    → get_or os fd none ≡ some f
    → count g (modify os fd closed) + points g (some f) ≡ count g os
count-close os fd f g h e =
    let c = count-modify os fd g closed h in let p = ap (points g) e in omega (arith, c, p)

-- Where the count of `f` alone changes, as its descriptors do.
module _ (others : ℕ → ℕ) (os os' : List (Option ℕ)) (t : FTable) (f : ℕ) (change : File → File)
    (k : Counted others os t) (lt : f < length t.files)
    (self : (change (get_or t.files f blank)).ref ≡ others f + count f os')
    (rest : (g : ℕ) → f ≢ g → count g os' ≡ count g os)
    (kept : (fd g : ℕ) → fd < length os' → get_or os' fd none ≡ some g → g < length t.files) where
  pub Counted-change : Counted others os' (table (modify t.files f change))
  Counted-change = record {
    refs = λ g h. by_file g (omega (arith, length-modify t.files f change)) (Bool-cases (f == g));
    open_files = λ fd g h e. omega (arith, length-modify t.files f change, kept fd g h e);
    unlocked_table = refl;
  }
    where
      by_file :
          (g : ℕ)
          → g < length t.files
          → (f == g ≡ true) ⊎ (f == g ≡ false)
          → ref_of (table (modify t.files f change)) g ≡ others g + count g os'
      by_file g h (inl e) =
          let p : f ≡ g = ground arith in
          subst (λ x. ref_of (table (modify t.files f change)) x ≡ others x + count x os') p
            (ap (λ (x : File). x.ref) (get_or-modify_self t.files f change blank lt) ∙ self)
      by_file g h (inr e) =
          ap (λ (x : File). x.ref) (get_or-modify_ne t.files f g change blank (ground arith))
          ∙ k.refs g h
          ∙ ap (λ x. others g + x) (sym (rest g (ground arith)))
