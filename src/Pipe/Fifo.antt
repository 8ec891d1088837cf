-- ===== src/Pipe/Fifo.antt =====
-- The ring refines a queue of at most 512 bytes.
use cs_577_p.Base.{
  ℕ, zero, suc, ◌+◌, ◌-◌, ◌%◌, ◌^◌, ◌≤◌, ◌<◌, ◌≡◌, refl, ◌∙◌, ap, false, List, [], ◌∷◌, ◌++◌, arith,
  ◌==◌, get_or, modify, length, length-modify, get_or-modify_self, get_or-modify_ne,
}
use mathlib.Core.Path.{ap₂}
use cs_577_p.Pipe.{Pipe, pipesize, wrap, is_full, is_empty, put, take_byte}

-- The number of bytes in the pipe: `nwrite - nread` on 32 bits.
abbrev pub count : Pipe → ℕ
count p = (p.nwrite + 2 ^ 32 - p.nread) % 2 ^ 32

pub record IsValid (p : Pipe) : Type 0 where
  pub storage : length p.bytes ≡ pipesize
  pub read32 : p.nread < 2 ^ 32
  pub write32 : p.nwrite < 2 ^ 32
  pub fits : count p ≤ pipesize

-- The `n` bytes from position `h` on.
abbrev pub window : List ℕ → ℕ → ℕ → List ℕ
window bytes h zero = []
window bytes h (suc n) = get_or bytes (h % pipesize) 0 ∷ window bytes (wrap (h + 1)) n

abbrev pub contents : Pipe → List ℕ
contents p = window p.bytes p.nread (count p)

pub length-window : (bytes : List ℕ) (h n : ℕ) → length (window bytes h n) ≡ n
length-window bytes h zero = refl
length-window bytes h (suc n) = ap suc (length-window bytes (wrap (h + 1)) n)

pub is_full_iff : (p : Pipe) → IsValid p → is_full p ≡ (count p == pipesize)
unfolding is_full
is_full_iff p v = ground arith

pub is_empty_iff : (p : Pipe) → IsValid p → is_empty p ≡ (count p == 0)
unfolding is_empty
is_empty_iff p v = ground arith

-- A write at the end of a window makes it longer.
window-modify :
    (bytes : List ℕ) (x n h i : ℕ)
    → length bytes ≡ pipesize
    → n < pipesize
    → i ≡ wrap (h + n) % pipesize
    → window (modify bytes i (λ old. x)) h (suc n) ≡ window bytes h n ++ (x ∷ [])
window-modify bytes x zero h i s l e =
    let e' : i ≡ h % pipesize = omega arith in
    rw e' (ap (λ y. y ∷ []) (get_or-modify_self bytes (h % pipesize) (λ old. x) 0 (omega arith)))
window-modify bytes x (suc n) h i s l e =
    ap₂ ◌∷◌ (get_or-modify_ne bytes i (h % pipesize) (λ old. x) 0 (omega arith))
      (window-modify bytes x n (wrap (h + 1)) i s (omega arith) (omega arith))

-- put appends a byte to what the pipe holds.
pub contents-put :
    (p : Pipe) (b : ℕ)
    → IsValid p
    → is_full p ≡ false
    → IsValid (put p b) × (contents (put p b) ≡ contents p ++ (b ∷ []))
unfolding put is_full
contents-put p b v h =
    let room : count p < pipesize = ground (arith, v.fits, v.read32, v.write32) in
    let grown : count (put p b) ≡ suc (count p) = ground (arith, v.fits, v.read32, v.write32) in
    (
      record {
        storage = length-modify p.bytes (p.nwrite % pipesize) (λ old. b) ∙ v.storage;
        read32 = v.read32;
        write32 = omega arith;
        fits = omega arith;
      },
      rw grown (
          window-modify p.bytes b (count p) p.nread (p.nwrite % pipesize) v.storage room
            (omega (arith, v.read32, v.write32))),
    )

-- take_byte removes the first byte of what the pipe holds.
pub contents-take_byte :
    (p : Pipe)
    → IsValid p
    → is_empty p ≡ false
    → IsValid (take_byte p).1 × (contents p ≡ (take_byte p).0 ∷ contents (take_byte p).1)
unfolding take_byte is_empty
contents-take_byte p v h =
    let shrunk : count p ≡ suc (count (take_byte p).1) =
      ground (arith, v.fits, v.read32, v.write32) in
    (
      record { storage = v.storage; read32 = omega arith; write32 = v.write32; fits = omega arith },
      rw shrunk refl,
    )
