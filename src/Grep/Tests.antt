-- ===== src/Grep/Tests.antt =====
-- An expression with a star and an anchor.
use cs_577_p.Base.{ℕ, ◌≡◌, ◌↔◌, refl, true, List, [], ◌∷◌}
use cs_577_p.Grep.{match, match_here, match_from, match_char, star_loop}
use cs_577_p.Grep.Meaning.{Means, match_decides}

-- ab*c$
abbrev expression : List ℕ
expression = b'a' ∷ b'b' ∷ b'*' ∷ b'c' ∷ b'$' ∷ []

-- xabbc
abbrev text : List ℕ
text = b'x' ∷ b'a' ∷ b'b' ∷ b'b' ∷ b'c' ∷ []

match_decides_example : (match expression text ≡ true) ↔ Means expression text
match_decides_example = match_decides expression text

match-text : match expression text ≡ true
unfolding match match_here match_from match_char star_loop
match-text = refl
