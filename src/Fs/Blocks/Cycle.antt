-- ===== src/Fs/Blocks/Cycle.antt =====
-- A balloc and the bfree of what it returned.
use cs_577_p.Base.{
  ℕ, ◌<◌, true, false, ◌≡◌, ◌≢◌, sym, ap, ◌∙◌, arith, ◌==◌, if◌then◌else◌, inl, inr, Bool-cases, ok,
}
use mathlib.Core.Path.{subst}
use cs_577_p.Fs.Blocks.{Disk, readsb, balloc, bfree}
use cs_577_p.Fs.Blocks.Bitmap.{in_use, IsDisk}
use cs_577_p.Fs.Blocks.Free.{self, Allocated, balloc_lem, IsData, bfree_lem}

-- After balloc has returned a data block, bfree of that block succeeds, and the blocks in use are the same ones
-- as before both.
pub bfree-balloc :
    (d : Disk) (r : ℕ) (d1 : Disk)
    → IsDisk d
    → IsData d r
    → balloc d ≡ ok (r, d1)
    → (d2 : Disk) × (bfree r d1 ≡ ok d2)
      × ((a : ℕ)
          → a < (readsb d).size
          → in_use (readsb d).ninodes d2 a ≡ in_use (readsb d).ninodes d a)
bfree-balloc d r d1 all dat e = elim (balloc_lem d all) [
  | inr (p, u) ↦ absurd (cc (e, p))
  | inl (r', d', e', w') ↦
      let w : Allocated d d1 r = subst (λ z. Allocated d z.1 z.0) (same_pair (sym e' ∙ e)) w' in
      let moved : IsData d1 r = record {
        on_disk = rw w.same_super dat.on_disk;
        no_super = dat.no_super;
        no_map = rw w.same_super dat.no_map;
      } in
      elim (bfree_lem d1 r w.is_disk moved) [
        | inr (free, p) ↦ absurd (in_both w free)
        | inl (used, d2, f, freed) ↦ (d2, f, back d2 w (rw w.same_super at freed.only))
      ]
]
  where
    same_pair : {p q : ℕ × Disk} → ok p ≡ ok q → p ≡ q
    same_pair e = cc

    in_both : Allocated d d1 r → in_use (readsb d1).ninodes d1 r ≢ false
    in_both w free =
        let here : in_use (readsb d).ninodes d1 r ≡ true =
          w.only r ∙ ap (λ x. if x then true else in_use (readsb d).ninodes d r) (self r) in
        ground (arith, sym here ∙ (rw w.same_super at free))

    back :
        (d2 : Disk)
        → Allocated d d1 r
        → ((a : ℕ)
            → a < (readsb d).size
            → in_use (readsb d).ninodes d2 a
              ≡ (if r == a then false else in_use (readsb d).ninodes d1 a))
        → (a : ℕ) → a < (readsb d).size
        → in_use (readsb d).ninodes d2 a ≡ in_use (readsb d).ninodes d a
    back d2 w only a h = elim (Bool-cases (r == a)) [
      | inl e ↦
          only a h
          ∙ (ap (λ x. if x then false else in_use (readsb d).ninodes d1 a) e
              ∙ subst (λ x. false ≡ in_use (readsb d).ninodes d x) (ground arith)
                  (sym w.first.was_free))
      | inr e ↦
          only a h
          ∙ (ap (λ x. if x then false else in_use (readsb d).ninodes d1 a) e
              ∙ (w.only a ∙ ap (λ x. if x then true else in_use (readsb d).ninodes d a) e))
    ]
