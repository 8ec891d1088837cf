-- ===== src/Ide/Registers.antt =====
-- The registers that idestart writes address the sector of the buffer.
use cs_577_p.Base.{◌^◌, ◌<◌, ◌≡◌, arith}
use cs_577_p.Bio.{Buf}
use cs_577_p.Ide.{request_regs, unit_of, sector_of}

-- For a device 0 or 1 and a sector below 2^28, the registers that idestart writes make the drive take the
-- buffer's device and the buffer's sector: the splitting over the ports loses nothing.
pub request_regs_lem :
    (b : Buf)
    → b.dev < 2
    → b.sector < 2 ^ 28
    → (unit_of (request_regs b) ≡ b.dev) × (sector_of (request_regs b) ≡ b.sector)
request_regs_lem b d s = (omega (arith, d), omega (arith, s))
