-- ===== src/Bio/Coherent.antt =====
-- A buffer that bread returns holds the block of the disk.
use cs_577_p.Base.{
  ℕ, ◌<◌, ◌≡◌, Bool, if◌then◌else◌, true, false, none, some, List, get_elem?, find_index, modify,
  get_or, length, get_or-modify_self, Outcome, ok,
}
use cs_577_p.Bio.{Buf, Cache, Disk, is_block, last_free, Got, got, asleep, blank}
use cs_577_p.Bio.Unique.{Unique}

-- A buffer that nobody uses is not dirty, and if it is valid it holds the block of the disk, unless the
-- drive fails at that block.
abbrev pub Coherent : Disk → (ℕ → ℕ → Bool) → List Buf → Type 0
Coherent disk fails bs =
    (i : ℕ) (b : Buf)
    → get_elem? bs i ≡ some b
    → b.busy ≡ false
    → (b.dirty ≡ false)
      × (b.valid ≡ true → fails b.dev b.sector ≡ false → b.bytes ≡ disk b.dev b.sector)

-- What bread says of its outcome.
pub Reads : ℕ → ℕ → Cache → Outcome Got → Type 0
Reads dev sector c (ok (got i c')) =
    Unique c'.bufs
    × Coherent c'.disk c'.fails c'.bufs
    × (c'.disk ≡ c.disk)
    × (c'.fails ≡ c.fails)
    × (is_block dev sector (get_or c'.bufs i blank) ≡ true)
    × ((get_or c'.bufs i blank).busy ≡ true)
    × ((get_or c'.bufs i blank).valid ≡ true)
    × (c.fails dev sector ≡ false → (get_or c'.bufs i blank).bytes ≡ c.disk dev sector)
Reads dev sector c (ok asleep) =
    (i : ℕ) × (find_index (is_block dev sector) c.bufs ≡ some i)
    × ((get_or c.bufs i blank).busy ≡ true)
Reads dev sector c r = (find_index (is_block dev sector) c.bufs ≡ none) × (last_free c.bufs ≡ none)

module _ (dev sector : ℕ) (c : Cache) (u : Unique c.bufs) (h : Coherent c.disk c.fails c.bufs) where
  -- A read from the disk.
  abbrev read_block : Buf → Buf
  read_block x = record x {
    valid = true;
    bytes = if c.fails dev sector then x.bytes else c.disk dev sector;
  }

  abbrev loaded : ℕ → (Buf → Buf) → Cache
  loaded i f = record c { bufs = modify (modify c.bufs i f) i read_block }

  abbrev held : ℕ → (Buf → Buf) → Cache
  held i f = record c { bufs = modify c.bufs i f }

  -- The buffer at `i`, changed by `f`, is the block's, in use, and clean.
  module _ (i : ℕ) (f : Buf → Buf) (lt : i < length c.bufs)
      (block : is_block dev sector (f (get_or c.bufs i blank)) ≡ true)
      (use_it : (b : Buf) → (f b).busy ≡ true) (clean : (f (get_or c.bufs i blank)).dirty ≡ false)
      (uniq : Unique (modify c.bufs i f)) where
    entry : get_or (modify c.bufs i f) i blank ≡ f (get_or c.bufs i blank)
    entry = get_or-modify_self c.bufs i f blank lt
