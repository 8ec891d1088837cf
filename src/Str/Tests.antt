-- ===== src/Str/Tests.antt =====
-- A memory whose byte at each address is the address, cut to a byte.
use cs_577_p.Base.{◌%◌, ◌≡◌}
use cs_577_p.Str.{Mem, memmove}
use cs_577_p.Str.Moves.{copied, memmove_lem}

abbrev ramp : Mem
ramp a = a % 256

memmove_lem_example : memmove 12 10 8 ramp 15 ≡ copied 12 10 8 ramp 15
memmove_lem_example = memmove_lem 12 10 8 ramp 15
