-- ===== src/Ide/Tests.antt =====
-- A drive that never fails, with a read and a write in the queue.
use cs_577_p.Base.{ℕ, zero, suc, true, false, [], ◌∷◌, ◌≡◌, refl, arith, ok}
use cs_577_p.Spinlock.{unlocked}
use cs_577_p.Bio.{Buf, Disk, write_disk}
use cs_577_p.Proc.Samples.{cpu_zero}
use cs_577_p.Ide.{Drive, Ide, request_regs, unit_of, sector_of, ideintr}
use cs_577_p.Ide.Registers.{request_regs_lem}
use cs_577_p.Ide.Invariant.{IsRequest}
use cs_577_p.Ide.Service.{Interrupted}
use cs_577_p.Ide.Locked.{IsValid, ideintr_lem}
use cs_577_p.Ide.Order.{interrupt, here, Finished, served_in_turn}

good_drive : Drive Disk
good_drive = record {
  fetch = λ d r. d (unit_of r) (sector_of r);
  store = λ d r bytes. write_disk d (unit_of r) (sector_of r) bytes;
  failed = λ d. false;
  content = λ d u t. d u t;
  fetch_content = λ d r. refl;
  store_same = λ d r bytes f. ground arith;
  store_other = λ d r bytes u t h. ground arith;
}

abbrev reading : Buf
reading = record {
  id = 0;
  busy = true;
  valid = false;
  dirty = false;
  dev = 0;
  sector = 0x2345678;
  bytes = [];
}

abbrev writing : Buf
writing = record {
  id = 1;
  busy = true;
  valid = true;
  dirty = true;
  dev = 1;
  sector = 7;
  bytes = 9 ∷ 8 ∷ [];
}

abbrev two_bufs : ℕ → Buf
two_bufs zero = reading
two_bufs (suc i) = writing

abbrev two_requests : Ide Disk
two_requests = record {
  inner = record {
    queue = 0 ∷ 1 ∷ [];
    bufs = two_bufs;
    regs = request_regs reading;
    drive = λ d s. s ∷ [];
    woken = [];
  };
  idelock = unlocked;
  cpu = cpu_zero;
  havedisk1 = true;
}

reading-IsRequest : IsRequest reading
reading-IsRequest = record {
  is_busy = refl;
  undone = refl;
  device = omega arith;
  on_disk = omega arith;
}

writing-IsRequest : IsRequest writing
writing-IsRequest = record {
  is_busy = refl;
  undone = refl;
  device = omega arith;
  on_disk = omega arith;
}

each-IsRequest : (i : ℕ) → IsRequest (two_requests.inner.bufs i)
each-IsRequest zero = reading-IsRequest
each-IsRequest (suc i) = writing-IsRequest

two_requests-IsValid : IsValid good_drive two_requests
two_requests-IsValid = record {
  inner_Inv = record {
    requests = λ i m. each-IsRequest i;
    distinct = (refl, (refl, tt));
    working = record { at_ports = refl; sent = λ h f. absurd (ground arith) };
  };
  free = refl;
  nested = λ h. absurd (omega (arith, h));
}

request_regs_lem_example :
    (unit_of (request_regs reading) ≡ 0) × (sector_of (request_regs reading) ≡ 0x2345678)
request_regs_lem_example = request_regs_lem reading (omega arith) (omega arith)

ideintr_lem_example :
    (t : Ide Disk) × (ideintr good_drive two_requests ≡ ok t)
    × IsValid good_drive t
    × Interrupted good_drive two_requests.inner t.inner 0 (1 ∷ [])
ideintr_lem_example = ideintr_lem good_drive two_requests 0 (1 ∷ []) two_requests-IsValid refl

-- Both interrupts.
two_interrupts :
    (t u : Ide Disk) × (ideintr good_drive two_requests ≡ ok t) × (ideintr good_drive t ≡ ok u)
two_interrupts =
    let (t, e, v, r) = ideintr_lem good_drive two_requests 0 (1 ∷ []) two_requests-IsValid refl in
    let (u, e', v', r') = ideintr_lem good_drive t 1 [] v r.left in (t, u, e, e')

served_in_turn_example : Finished good_drive two_requests two_interrupts.1 1 1 2
served_in_turn_example =
    served_in_turn good_drive 1 (0 ∷ []) []
      (interrupt two_interrupts.2 (interrupt two_interrupts.3 here)) two_requests-IsValid refl
      (omega arith)
