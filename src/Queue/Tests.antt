-- ===== src/Queue/Tests.antt =====
-- The theorems on core/posix/queue.c at a ring of three slots whose items wrap around.
use mlink_device.Prelude.{ℕ, ◌*◌, ◌≡◌, inr, List, [], ◌∷◌, arith}
use mlink_device.Queue.{Queue, at_once, forever}
use mlink_device.Queue.Fifo.{IsRing, contents}
use mlink_device.Queue.Trace.{
  Operation, sends, receives, resets, operate_all, spec_all, operate_all-spec_all,
}

abbrev wrapped : Queue ℕ
wrapped = record {
  buffer = λ address. address * 10;
  item_size = 4;
  queue_size = 3;
  head = 2;
  tail = 1;
  count = 2;
}

wrapped-IsRing : IsRing wrapped
wrapped-IsRing = record {
  wide = omega arith;
  small = omega arith;
  head_in = omega arith;
  tail_in = omega arith;
  count_in = omega arith;
  tail_is = inr (omega arith);
}

abbrev calls : List (Operation ℕ)
calls = sends 7 ∷ sends 8 ∷ receives at_once ∷ resets 0 ∷ receives forever ∷ []

operate_all-spec_all_example :
    let r = operate_all wrapped calls in
    let t = spec_all 3 (contents wrapped) calls in (r.0 ≡ t.0) × (contents r.1 ≡ t.1) × IsRing r.1
operate_all-spec_all_example = operate_all-spec_all wrapped calls wrapped-IsRing
