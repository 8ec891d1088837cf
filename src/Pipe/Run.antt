-- ===== src/Pipe/Run.antt =====
-- The stream of a whole run: any calls of pipewrite and piperead on one pipe.
use cs_577_p.Base.{
  ℕ, suc, ◌-◌, ◌≤◌, ◌≡◌, refl, sym, ◌∙◌, ap, Bool, List, [], ◌∷◌, ◌++◌, arith, length,
  length-append, take,
}
use mathlib.Core.List.{append-nil, append_assoc}
use cs_577_p.Pipe.{Pipe, piperead, pipewrite}
use cs_577_p.Pipe.Fifo.{IsValid, contents}
use cs_577_p.Pipe.Stream.{pipewrite-Moved, piperead-Taken}

-- A client's calls. A call that sleeps is taken up again by a later call with what was left.
pub data Op : Type 0 where
  write : List ℕ → Bool → Op
  read : ℕ → Bool → Op

-- A run: the pipe at the end, the bytes that went in and those that came out.
pub record Trace : Type 0 where
  pub pipe : Pipe
  pub went_in : List ℕ
  pub came_out : List ℕ

abbrev pub accepted : List ℕ → List ℕ → List ℕ
accepted bs rest = take (length bs - length rest) bs

pub run : List Op → Trace → Trace
run [] t = t
run (write bs killed ∷ ops) t =
    let w = pipewrite bs killed t.pipe in
    run ops (record t { pipe = w.pipe; went_in = t.went_in ++ accepted bs w.rest })
run (read n killed ∷ ops) t =
    let r = piperead n killed t.pipe in
    run ops (record t { pipe = r.pipe; came_out = t.came_out ++ r.out })

take-accepted : (acc rest : List ℕ) → accepted (acc ++ rest) rest ≡ acc
take-accepted [] rest = take_none (length rest - length rest) rest (omega arith)
  where
    take_none : (n : ℕ) (xs : List ℕ) → n ≡ 0 → take n xs ≡ []
    take_none n xs e = rw e refl
take-accepted (x ∷ acc) rest =
    take_more (length (acc ++ rest)) (length rest) (omega (arith, length-append acc rest))
    ∙ ap (λ l. x ∷ l) (take-accepted acc rest)
  where
    take_more :
        (n m : ℕ) → m ≤ n → take (suc n - m) (x ∷ acc ++ rest) ≡ x ∷ take (n - m) (acc ++ rest)
    take_more n m le = let e : suc n - m ≡ suc (n - m) = omega arith in rw e refl

run_from :
    (ops : List Op) (t : Trace) (start : List ℕ)
    → IsValid t.pipe
    → t.came_out ++ contents t.pipe ≡ start ++ t.went_in
    → (run ops t).came_out ++ contents (run ops t).pipe ≡ start ++ (run ops t).went_in
unfolding run
run_from [] t start v h = h
run_from (write bs killed ∷ ops) t start v h =
    let m = pipewrite-Moved bs killed t.pipe v in
    let w = pipewrite bs killed t.pipe in
    let acc : accepted bs w.rest ≡ m.accepted =
      ap (λ l. accepted l w.rest) m.split ∙ take-accepted m.accepted w.rest in
    run_from ops (record t { pipe = w.pipe; went_in = t.went_in ++ accepted bs w.rest }) start
      m.valid
      (ap (λ l. t.came_out ++ l) m.gained
        ∙ sym (append_assoc t.came_out (contents t.pipe) m.accepted)
        ∙ ap (λ l. l ++ m.accepted) h
        ∙ append_assoc start t.went_in m.accepted
        ∙ ap (λ l. start ++ (t.went_in ++ l)) (sym acc))
run_from (read n killed ∷ ops) t start v h =
    let m = piperead-Taken n killed t.pipe v in
    let r = piperead n killed t.pipe in
    run_from ops (record t { pipe = r.pipe; came_out = t.came_out ++ r.out }) start m.valid
      (append_assoc t.came_out r.out (contents r.pipe)
        ∙ ap (λ l. t.came_out ++ l) (sym m.split)
        ∙ h)

-- Whatever calls are made, in any order and cut up by sleeps as it may be, the bytes that came out and
-- then those in the pipe are the bytes that were in the pipe and then those that went in, in order:
-- none is lost, repeated or moved.
pub run_stream :
    (ops : List Op) (p : Pipe)
    → IsValid p
    → let t = run ops (record { pipe = p; went_in = []; came_out = [] }) in
      t.came_out ++ contents t.pipe ≡ contents p ++ t.went_in
run_stream ops p v =
    run_from ops (record { pipe = p; went_in = []; came_out = [] }) (contents p) v
      (sym (append-nil (contents p)))
