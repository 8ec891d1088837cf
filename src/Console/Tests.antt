-- ===== src/Console/Tests.antt =====
-- An input buffer with two characters that are not committed.
use cs_577_p.Base.{refl, replicate, arith}
use cs_577_p.Console.{Input, input_char}
use cs_577_p.Console.Line.{IsValid, Kept, input_char-Kept}

abbrev typing : Input
typing = record { buf = replicate 128 b'x'; r = 4; w = 7; e = 9 }

typing-IsValid : IsValid typing
typing-IsValid = record {
  storage = refl;
  r32 = omega arith;
  w32 = omega arith;
  e32 = omega arith;
  ordered = omega arith;
  room = omega arith;
}

input_char-Kept_example : Kept typing (input_char 21 typing).1
input_char-Kept_example = input_char-Kept 21 typing typing-IsValid
