-- ===== src/Mutex/Preserved.antt =====
-- Every step of a thread keeps the invariant.
use cs_577_p.Base.{refl, ap, arith}
use cs_577_p.Mutex.{
  System, setpark, park, unpark, Step, lock_guard, get_flag, enqueue, drop_guard, do_park,
  start_unlock, clear_flag, hand_over, Reach, start, later,
}
use cs_577_p.Mutex.Invariant.{elem, elem-append, Distinct-append, Inv, init-Inv, hand_over-Inv}

pub Step-Inv : {s t : System} → Step s t → Inv s → Inv t
unfolding setpark park unpark
Step-Inv {s} (lock_guard i p g) v = record {
  announced_iff = λ a. ground (arith, v.announced_iff a);
  parked_iff = λ a. ground (arith, v.parked_iff a);
  told_parking = λ a h. ground (arith, v.told_parking a, p);
  guard_held = λ a h. refl;
  guard_one = λ a b h h'. ground (arith, v.guard_held a, v.guard_held b);
  waits_iff = λ a. ground (arith, v.waits_iff a);
  distinct = v.distinct;
  owns_flag = λ a h. ground (arith, v.owns_flag a);
  owns_one = λ a b h h'. ground (arith, v.owns_one a b);
  queue_flag = λ a h. ground (arith, v.queue_flag a);
  owner = λ h. let (a, o) = v.owner h in (a, ground (arith, p));
}
Step-Inv {s} (get_flag i p g) v = record {
  announced_iff = λ a. ground (arith, v.announced_iff a);
  parked_iff = λ a. ground (arith, v.parked_iff a);
  told_parking = λ a h. ground (arith, v.told_parking a, p);
  guard_held = λ a h. ground (arith, v.guard_one a i);
  guard_one = λ a b h h'. ground (arith, v.guard_one a b);
  waits_iff = λ a. ground (arith, v.waits_iff a);
  distinct = v.distinct;
  owns_flag = λ a h. refl;
  owns_one = λ a b h h'. ground (arith, v.owns_flag a, v.owns_flag b);
  queue_flag = λ a h. refl;
  owner = λ h. (i, ground arith);
}
Step-Inv {s} (enqueue i p g) v = record {
  announced_iff = λ a. ground (arith, v.announced_iff a, v.told_parking a);
  parked_iff = λ a. ground (arith, v.parked_iff a);
  told_parking = λ a h. ground (arith, v.told_parking a, p);
  guard_held = λ a h. ground (arith, v.guard_held a, v.guard_held i);
  guard_one = λ a b h h'. ground (arith, v.guard_one a b);
  waits_iff = λ a. ground (arith, v.waits_iff a, elem-append a i s.queue);
  distinct = ground (arith, Distinct-append i s.queue, v.waits_iff i, v.distinct);
  owns_flag = λ a h. ground (arith, v.owns_flag a);
  owns_one = λ a b h h'. ground (arith, v.owns_one a b);
  queue_flag = λ a h. ground arith;
  owner = λ h. let (a, o) = v.owner g in (a, ground arith);
}
Step-Inv {s} (drop_guard i p) v = record {
  announced_iff = λ a. ground (arith, v.announced_iff a);
  parked_iff = λ a. ground (arith, v.parked_iff a);
  told_parking = λ a h. ground (arith, v.told_parking a, p);
  guard_held = λ a h. ground (arith, v.guard_one a i);
  guard_one = λ a b h h'. ground (arith, v.guard_one a b);
  waits_iff = λ a. ground (arith, v.waits_iff a, v.told_parking a);
  distinct = v.distinct;
  owns_flag = λ a h. ground (arith, v.owns_flag a, v.told_parking a);
  owns_one = λ a b h h'. ground (arith, v.owns_one a b, v.told_parking a, v.told_parking b);
  queue_flag = λ a h. ground (arith, v.queue_flag a);
  owner = λ h. let (a, o) = v.owner h in (a, ground arith);
}
Step-Inv {s} (do_park i p) v = record {
  announced_iff = λ a. ground (arith, v.announced_iff a);
  parked_iff = λ a. ground (arith, v.parked_iff a);
  told_parking = λ a h. ground (arith, v.told_parking a);
  guard_held = λ a h. ground (arith, v.guard_held a);
  guard_one = λ a b h h'. ground (arith, v.guard_one a b);
  waits_iff = λ a. ground (arith, v.waits_iff a);
  distinct = ground (arith, v.distinct);
  owns_flag = λ a h. ground (arith, v.owns_flag a);
  owns_one = λ a b h h'. ground (arith, v.owns_one a b);
  queue_flag = λ a h. ground (arith, v.queue_flag a);
  owner = λ h. let (a, o) = v.owner (ground arith) in (a, ground arith);
}
Step-Inv {s} (start_unlock i p g) v = record {
  announced_iff = λ a. ground (arith, v.announced_iff a);
  parked_iff = λ a. ground (arith, v.parked_iff a);
  told_parking = λ a h. ground (arith, v.told_parking a, p);
  guard_held = λ a h. refl;
  guard_one = λ a b h h'. ground (arith, v.guard_held a, v.guard_held b);
  waits_iff = λ a. ground (arith, v.waits_iff a);
  distinct = v.distinct;
  owns_flag = λ a h. ground (arith, v.owns_flag a);
  owns_one = λ a b h h'. ground (arith, v.owns_one a b);
  queue_flag = λ a h. ground (arith, v.queue_flag a);
  owner = λ h. let (a, o) = v.owner h in (a, ground arith);
}
Step-Inv {s} (clear_flag i p e) v = record {
  announced_iff = λ a. ground (arith, v.announced_iff a);
  parked_iff = λ a. ground (arith, v.parked_iff a);
  told_parking = λ a h. ground (arith, v.told_parking a, p);
  guard_held = λ a h. ground (arith, v.guard_one a i);
  guard_one = λ a b h h'. ground (arith, v.guard_one a b);
  waits_iff = λ a. ground (arith, v.waits_iff a);
  distinct = v.distinct;
  owns_flag = λ a h. ground (arith, v.owns_one a i);
  owns_one = λ a b h h'. ground (arith, v.owns_one a b);
  queue_flag = λ a h. absurd (cc (ap (elem a) e));
  owner = λ h. absurd (ground arith);
}
Step-Inv {s} (hand_over i j rest p e) v = hand_over-Inv s i j rest p e v

pub Reach-Inv : {s : System} → Reach s → Inv s
Reach-Inv start = init-Inv
Reach-Inv (later r st) = Step-Inv st (Reach-Inv r)
