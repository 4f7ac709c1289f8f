-- ===== src/Atomic/Ring/Tests.antt =====
-- The theorems on src/atomic/ring.c at a full ring whose tail has wrapped.
use vexspoke.Base.{◌≡◌, refl, [], ◌∷◌, arith, true}
use vexspoke.Atomic.Ring.{RingBuffer, create_ring}
use vexspoke.Atomic.Ring.Refine.{IsQueue, pushes, pops, run, spec_run, ring_run_refines}

abbrev wrapped : RingBuffer
wrapped = record {
  capacity = 4;
  mask = 3;
  elem_size = 8;
  head = 18446744073709551614;
  tail = 1;
  slots = 7 ∷ 0 ∷ 3 ∷ 9 ∷ [];
}

wrapped-IsQueue : IsQueue 2 wrapped
wrapped-IsQueue = record {
  narrow = omega arith;
  capacity_is = refl;
  mask_is = refl;
  sized = refl;
  head_in = omega arith;
  tail_in = omega arith;
  used_in = omega arith;
}

-- What RingBuffer_2 makes of a request for three slots.
three_slots-IsQueue : IsQueue 2 (create_ring true 8 3)
three_slots-IsQueue = record {
  narrow = omega arith;
  capacity_is = refl;
  mask_is = refl;
  sized = refl;
  head_in = omega arith;
  tail_in = omega arith;
  used_in = omega arith;
}

ring_run_refines_example :
    run wrapped (pushes 5 ∷ pushes 6 ∷ pops ∷ pops ∷ pops ∷ pops ∷ pops ∷ [])
    ≡ spec_run 4 (3 ∷ 9 ∷ 7 ∷ []) (pushes 5 ∷ pushes 6 ∷ pops ∷ pops ∷ pops ∷ pops ∷ pops ∷ [])
ring_run_refines_example =
    ring_run_refines 2 (pushes 5 ∷ pushes 6 ∷ pops ∷ pops ∷ pops ∷ pops ∷ pops ∷ []) wrapped-IsQueue
