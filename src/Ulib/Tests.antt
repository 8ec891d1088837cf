-- ===== src/Ulib/Tests.antt =====
-- Short strings.
use cs_577_p.Base.{◌≡◌, refl, [], ◌∷◌}
use cs_577_p.Ulib.{atoi, atoi_from}

atoi-digits : atoi (b'4' ∷ b'2' ∷ b'x' ∷ []) ≡ 42
unfolding atoi atoi_from
atoi-digits = refl
