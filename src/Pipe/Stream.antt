-- ===== src/Pipe/Stream.antt =====
-- What one call of pipewrite or piperead moves.
use cs_577_p.Base.{
  ℕ, zero, suc, ◌≡◌, ◌≢◌, refl, sym, ◌∙◌, ap, Bool, true, false, not, ◌&&◌, ◌||◌, List, [], ◌∷◌,
  ◌++◌, arith, ◌⊎◌, inl, inr, if◌then◌else◌, length, Bool-cases, min,
}
use mathlib.Core.List.{append-nil, append_assoc}
use cs_577_p.Pipe.{
  Pipe, pipesize, is_full, is_empty, put, take_byte, read_from, write_from, piperead, pipewrite,
  Written, Read, done, broken, asleep, readers, writers,
}
use cs_577_p.Pipe.Fifo.{
  IsValid, count, contents, length-window, is_full_iff, is_empty_iff, contents-put,
  contents-take_byte,
}

-- What the status of a write says of the pipe that it leaves.
abbrev pub StatusFits : ℕ → Bool → Written → Type 0
StatusFits n killed w =
    ((w.status ≡ done n) × (w.rest ≡ []))
    ⊎ ((w.rest ≢ [])
        × (length (contents w.pipe) ≡ pipesize)
        × (w.status ≡ (if not w.pipe.readopen || killed then broken else asleep)))

pub record Moved (n : ℕ) (killed : Bool) (p : Pipe) (bs : List ℕ) (w : Written) : Type 0 where
  pub valid : IsValid w.pipe
  pub accepted : List ℕ
  pub split : bs ≡ accepted ++ w.rest
  pub gained : contents w.pipe ≡ contents p ++ accepted
  pub status_fits : StatusFits n killed w

write_from-Moved :
    (n : ℕ) (killed : Bool) (bs : List ℕ) (p : Pipe)
    → IsValid p
    → Moved n killed p bs (write_from n killed p bs)
unfolding write_from
write_from-Moved n killed [] p v = record {
  valid = v;
  accepted = [];
  split = refl;
  gained = sym (append-nil (contents p));
  status_fits = inl (refl, refl);
}
write_from-Moved n killed (b ∷ bs) p v = elim (Bool-cases (is_full p)) [
  | inl full ↦ rw (full) (stopped full (not p.readopen || killed) refl)
  | inr room ↦
      let (v', c) = contents-put p b v room in
      let m = write_from-Moved n killed bs (put p b) v' in
      rw room (record {
        valid = m.valid;
        accepted = b ∷ m.accepted;
        split = ap (λ l. b ∷ l) m.split;
        gained =
            m.gained ∙ ap (λ l. l ++ m.accepted) c ∙ append_assoc (contents p) (b ∷ []) m.accepted;
        status_fits = m.status_fits;
      })
]
  where
    full_length : is_full p ≡ true → length (contents p) ≡ pipesize
    full_length full = ground (arith, length-window p.bytes p.nread (count p), is_full_iff p v)

    stopped :
        is_full p ≡ true
        → (dead : Bool) → (not p.readopen || killed) ≡ dead
        → Moved n killed p (b ∷ bs) (
            if dead
            then record { status = broken; pipe = p; rest = b ∷ bs; wakes = [] }
            else record { status = asleep; pipe = p; rest = b ∷ bs; wakes = readers ∷ [] })
    stopped full true e = record {
      valid = v;
      accepted = [];
      split = refl;
      gained = sym (append-nil (contents p));
      status_fits = inr (ground arith, full_length full, rw e refl);
    }
    stopped full false e = record {
      valid = v;
      accepted = [];
      split = refl;
      gained = sym (append-nil (contents p));
      status_fits = inr (ground arith, full_length full, rw e refl);
    }

-- pipewrite puts a prefix of the bytes behind those in the pipe, in order, and keeps the pipe valid. It
-- returns the whole count exactly if nothing is left; else the pipe is full, and it returns -1 if the
-- read end is closed or the process was killed, and sleeps if not.
pub pipewrite-Moved :
    (src : List ℕ) (killed : Bool) (p : Pipe)
    → IsValid p
    → Moved (length src) killed p src (pipewrite src killed p)
unfolding pipewrite
pipewrite-Moved src killed p v = write_from-Moved (length src) killed src p v

read_from_lem :
    (n : ℕ) (p : Pipe)
    → IsValid p
    → IsValid (read_from n p).1
      × (contents p ≡ (read_from n p).0 ++ contents (read_from n p).1)
      × (length (read_from n p).0 ≡ min n (length (contents p)))
unfolding read_from
read_from_lem zero p v = (v, refl, omega arith)
read_from_lem (suc n) p v = elim (Bool-cases (is_empty p)) [
  | inl drained ↦
      rw drained
        (v, refl, ground (arith, length-window p.bytes p.nread (count p), is_empty_iff p v))
  | inr more ↦
      let (v', c) = contents-take_byte p v more in
      let (v2, c2, l2) = read_from_lem n (take_byte p).1 v' in
      rw more (v2, c ∙ ap (λ l. (take_byte p).0 ∷ l) c2, omega (arith, l2, ap length c))
]

is_empty-contents : (p : Pipe) → IsValid p → is_empty p ≡ true → contents p ≡ []
is_empty-contents p v h =
    let zero_count : count p ≡ 0 = ground (arith, is_empty_iff p v) in rw zero_count refl

not-is_empty-contents : (p : Pipe) → IsValid p → is_empty p ≡ false → contents p ≢ []
not-is_empty-contents p v h e = cc ((contents-take_byte p v h).1)

-- What a read leaves of the pipe, what it gives, and what its status says.
pub record Taken (n : ℕ) (killed : Bool) (p : Pipe) (r : Read) : Type 0 where
  pub valid : IsValid r.pipe
  pub split : contents p ≡ r.out ++ contents r.pipe
  pub status_fits :
      ((contents p ≡ []) × (p.writeopen ≡ true) × (r.status ≡ (if killed then broken else asleep)))
      ⊎ (((contents p ≢ []) ⊎ (p.writeopen ≡ false))
          × (length r.out ≡ min n (length (contents p)))
          × (r.status ≡ done (length r.out)))

piperead_idle :
    (n : ℕ) (killed : Bool) (p : Pipe)
    → is_empty p && p.writeopen ≡ true
    → piperead n killed p
      ≡ record { status = if killed then broken else asleep; pipe = p; out = []; wakes = [] }
unfolding piperead
piperead_idle n killed p h = rw h refl

piperead_copy :
    (n : ℕ) (killed : Bool) (p : Pipe)
    → is_empty p && p.writeopen ≡ false
    → piperead n killed p ≡ record {
      status = done (length (read_from n p).0);
      pipe = (read_from n p).1;
      out = (read_from n p).0;
      wakes = writers ∷ [];
    }
unfolding piperead
piperead_copy n killed p h = rw h refl

-- piperead sleeps, or returns -1 if the process was killed, exactly when the pipe is empty and its
-- write end open. Else it takes as many bytes as there are, up to `n`, from the front, in order, and
-- returns their number. The pipe stays valid.
pub piperead-Taken :
    (n : ℕ) (killed : Bool) (p : Pipe) → IsValid p → Taken n killed p (piperead n killed p)
piperead-Taken n killed p v = elim (Bool-cases (is_empty p && p.writeopen)) [
  | inl idle ↦
      let e : is_empty p ≡ true = ground arith in
      rw (piperead_idle n killed p idle) (record {
        valid = v;
        split = refl;
        status_fits = inl (is_empty-contents p v e, ground arith, refl);
      })
  | inr busy ↦
      let (v2, c2, l2) = read_from_lem n p v in
      rw (piperead_copy n killed p busy) (record {
        valid = v2;
        split = c2;
        status_fits = inr (why busy (is_empty p) refl, l2, refl);
      })
]
  where
    why :
        is_empty p && p.writeopen ≡ false
        → (b : Bool) → is_empty p ≡ b
        → (contents p ≢ []) ⊎ (p.writeopen ≡ false)
    why busy true e = inr (ground arith)
    why busy false e = inl (not-is_empty-contents p v e)
