-- ===== src/Grep.antt =====
-- The matcher of user/grep.c. A C string is the list of its bytes; its end stands for the NUL.
pub mod Meaning
mod Tests
use cs_577_p.Base.{ℕ, zero, suc, Bool, true, false, ◌&&◌, ◌||◌, List, [], ◌∷◌, if◌then◌else◌, ◌==◌}

abbrev pub is_nil : List ℕ → Bool
is_nil [] = true
is_nil (x ∷ xs) = false

-- The loop of matchstar, with `here` for the call of matchhere on the rest of the expression.
unfoldable pub star_loop : (List ℕ → Bool) → ℕ → List ℕ → Bool
star_loop here c [] = here []
star_loop here c (t ∷ ts) = here (t ∷ ts) || (((t == c) || (c == b'.')) && star_loop here c ts)

-- `re[0] == '.' || re[0] == *text`
abbrev pub fits : ℕ → ℕ → Bool
fits r t = (r == b'.') || (r == t)

-- `*text != '\0' && (…)`, and then the rest of the expression on the rest of the text.
unfoldable pub match_char : (List ℕ → Bool) → ℕ → List ℕ → Bool
match_char here r [] = false
match_char here r (t ∷ ts) = fits r t && here ts

-- matchhere, and matchstar as its loop. The test for `$` at the end of the expression comes, as in the
-- code, after the test for a star.
unfoldable pub match_here : List ℕ → List ℕ → Bool
unfolding star_loop match_char
match_here [] text = true
match_here (r ∷ []) [] = r == b'$'
match_here (r ∷ []) (t ∷ ts) = if r == b'$' then false else fits r t
match_here (r ∷ s ∷ re) text =
    let after_star = star_loop (match_here re) r text in
    let plain = match_char (match_here (s ∷ re)) r text in if s == b'*' then after_star else plain

-- The loop of match, which looks at the empty rest too.
unfoldable pub match_from : List ℕ → List ℕ → Bool
unfolding match_here
match_from re [] = match_here re []
match_from re (t ∷ ts) = match_here re (t ∷ ts) || match_from re ts

unfoldable pub match : List ℕ → List ℕ → Bool
unfolding match_here match_from
match [] text = match_from [] text
match (r ∷ re) text = if r == b'^' then match_here re text else match_from (r ∷ re) text
