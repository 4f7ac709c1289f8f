-- ===== src/Struct/Map/Tests.antt =====
-- Runs of a map with four slots, and one that its own calls wear out.
use Prim.Native.Nat.{◌<◌}
use vexspoke.Base.{
  ℕ, zero, suc, ◌≡◌, refl, Option, none, some, ◌>>=◌, [], Bool, true, false, arith, get_or,
  replicate,
}
use vexspoke.Struct.Map.{
  Memory, Slot, empty, deleted, Map, compute_hash, keys_equal, create, put, put_here, put_loop, get,
  remove, find_loop, contains_key,
}
use vexspoke.Struct.Map.Probe.{Passed}
use vexspoke.Struct.Map.Lookup.{put_stuck, get-put}

abbrev no_headers : Memory
no_headers = record { type_of = λ address. 0; bytes_of = λ address. [] }

abbrev all_granted : ℕ → Bool
all_granted bytes = true

abbrev four_slots : Slot → Map
four_slots slot = record {
  slots = replicate 4 slot;
  capacity = 4;
  active_count = 0;
  key_class = 0;
  value_class = 0;
  exhaustion = record { count = 0; reported = false };
}

create_four : create 0 0 4 ≡ four_slots empty
unfolding create
create_four = refl

get-put_example :
    (map' : Map) × (put no_headers all_granted 4 (four_slots empty) 7 70 ≡ some map')
    × (get no_headers map' 7 ≡ 70)
    × (contains_key no_headers map' 7 ≡ true)
get-put_example =
    get-put no_headers all_granted 2 (four_slots empty) 7 70 3 refl refl (omega arith) (omega arith)
      refl

put_stuck_example : put no_headers all_granted 9 (four_slots deleted) 7 70 ≡ none
put_stuck_example =
    put_stuck no_headers all_granted 2 9 (four_slots deleted) 7 70 refl (omega arith) passed
  where
    passed :
        (i : ℕ)
        → i < 4
        → Passed no_headers 0
            (compute_hash no_headers 0 7)
            7
            2
            (get_or (replicate 4 deleted) i empty)
    passed zero h = tt
    passed (suc zero) h = tt
    passed (suc (suc zero)) h = tt
    passed (suc (suc (suc zero))) h = tt
    passed (suc (suc (suc (suc i)))) h = absurd (omega (arith, h))

-- A key put and removed again.
abbrev put_and_remove : ℕ → Map → Option Map
put_and_remove key map =
    put no_headers all_granted 4 map key 1 >>= λ map'. some (remove no_headers map' key).1

-- Four such keys, with homes that differ, leave no slot empty in a map without an entry.
worn_out :
    (put_and_remove 0 (four_slots empty) >>= λ m.
    put_and_remove 4 m >>= λ m'. put_and_remove 3 m' >>= λ m''. put_and_remove 2 m'')
    ≡ some (four_slots deleted)
unfolding put put_here put_loop remove find_loop compute_hash keys_equal
worn_out = refl
