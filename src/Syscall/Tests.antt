-- ===== src/Syscall/Tests.antt =====
-- A process of two pages.
use cs_577_p.Base.{ℕ, ◌%◌}
use cs_577_p.Syscall.{fetchstr}
use cs_577_p.Syscall.Bounds.{IsString, fetchstr-IsString}

abbrev ramp : ℕ → ℕ
ramp a = a % 256

fetchstr-IsString_example : IsString 8192 ramp 4000 (fetchstr 8192 ramp 4000)
fetchstr-IsString_example = fetchstr-IsString 8192 4000 ramp
