-- ===== src/Fs/Path.antt =====
-- skipelem of kernel/fs.c, on a path as the list of its bytes.
pub mod Elements
mod Tests
use cs_577_p.Base.{
  ℕ, zero, suc, ◌+◌, Bool, true, false, Option, none, some, List, [], ◌∷◌, take, length,
  if◌then◌else◌, ◌==◌,
}

abbrev pub slash : ℕ
slash = b'/'

abbrev pub dirsiz : ℕ
dirsiz = 14

-- while(*path == '/') path++;
unfoldable pub skip_slashes : List ℕ → List ℕ
skip_slashes [] = []
skip_slashes (c ∷ cs) = if c == slash then skip_slashes cs else c ∷ cs

abbrev pub cons_first : ℕ → List ℕ × List ℕ → List ℕ × List ℕ
cons_first c r = (c ∷ r.0, r.1)

-- The bytes up to the next slash or the end, and the rest.
unfoldable pub take_elem : List ℕ → List ℕ × List ℕ
take_elem [] = ([], [])
take_elem (c ∷ cs) = if c == slash then ([], c ∷ cs) else cons_first c (take_elem cs)

-- skipelem behind its first loop. The name is cut to DIRSIZ bytes; `none` is 0.
unfoldable pub skip_from : List ℕ → Option (List ℕ × List ℕ)
unfolding skip_slashes take_elem
skip_from [] = none
skip_from (c ∷ cs) = some (take dirsiz (take_elem (c ∷ cs)).0, skip_slashes (take_elem (c ∷ cs)).1)

unfoldable pub skipelem : List ℕ → Option (List ℕ × List ℕ)
unfolding skip_slashes skip_from
skipelem path = skip_from (skip_slashes path)
