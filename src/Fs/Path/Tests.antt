-- ===== src/Fs/Path/Tests.antt =====
-- The path //usr/b
use cs_577_p.Base.{ℕ, List, [], ◌∷◌}

abbrev path_usr : List ℕ
path_usr = b'/' ∷ b'/' ∷ b'u' ∷ b's' ∷ b'r' ∷ b'/' ∷ b'b' ∷ []
