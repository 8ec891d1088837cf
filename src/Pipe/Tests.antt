-- ===== src/Pipe/Tests.antt =====
-- A fresh pipe, and runs of a writer and a reader on it.
use cs_577_p.Base.{◌≡◌, refl, true, false, List, [], ◌∷◌, ◌++◌, replicate, arith}
use cs_577_p.Pipe.{Pipe}
use cs_577_p.Pipe.Fifo.{IsValid, contents}
use cs_577_p.Pipe.Run.{Op, write, read, run, run_stream}

-- The indexes are about to wrap; one byte, 7, is in the pipe.
abbrev wrapping : Pipe
wrapping = record {
  bytes = replicate 511 0 ++ (7 ∷ []);
  nread = 0xffffffff;
  nwrite = 0;
  readopen = true;
  writeopen = true;
}

wrapping-IsValid : IsValid wrapping
wrapping-IsValid = record {
  storage = refl;
  read32 = omega arith;
  write32 = omega arith;
  fits = omega arith;
}

abbrev script : List Op
script = write (1 ∷ 2 ∷ []) false ∷ read 1 false ∷ write (3 ∷ []) false ∷ read 9 false ∷ []

run_stream_example :
    let t = run script (record { pipe = wrapping; went_in = []; came_out = [] }) in
    t.came_out ++ contents t.pipe ≡ contents wrapping ++ t.went_in
run_stream_example = run_stream script wrapping wrapping-IsValid
