-- ===== src/Atomic/Ring/Slots.antt =====
-- src/atomic/ring.c: the slots of a ring by their distance from the head, modulo a capacity that is
-- a power of two.
use Prim.Native.Nat.{◌∣◌}
use native.Mathlib.Nat.{
  zero-add, suc-add, pow-suc, mod-add-mod, mod-lt, mod-mod_of_dvd, dvd_refl, dvd-mul_right_of_dvd,
}
use vexspoke.Base.{ℕ, zero, suc, ◌+◌, ◌-◌, ◌%◌, ◌^◌, ◌≤◌, ◌<◌, ◌≡◌, ◌≢◌, ◌∙◌, sym, ap, arith, u64}
use vexspoke.Struct.Deque.Cells.{slots_differ}
use vexspoke.Struct.Map.Mask.{pow_pos}

pow_dvd : (b k : ℕ) → 2 ^ b ∣ 2 ^ (k + b)
pow_dvd b zero = rw zero-add (dvd_refl (2 ^ b))
pow_dvd b (suc k) =
    rw (suc-add k b, pow-suc 2 (k + b)) (dvd-mul_right_of_dvd (2 ^ b) (pow_dvd b k) 2)

-- A counter that wraps leads to the slot of the one that does not.
pub u64-mod : (b n : ℕ) → b ≤ 64 → u64 n % 2 ^ b ≡ n % 2 ^ b
u64-mod b n h =
    let top : 64 - b + b ≡ 64 = omega arith in
    ap (λ k. n % 2 ^ k % 2 ^ b) (sym top) ∙ mod-mod_of_dvd (2 ^ b) n (pow_dvd b (64 - b))

pub u64-add-mod : (b n k : ℕ) → b ≤ 64 → (u64 n + k) % 2 ^ b ≡ (n + k) % 2 ^ b
u64-add-mod b n k h =
    sym (mod-add-mod (u64 n) (2 ^ b) k)
    ∙ ap (λ m. (m + k) % 2 ^ b) (u64-mod b n h)
    ∙ mod-add-mod n (2 ^ b) k

-- Two distances below the capacity lead to different slots, whatever the head.
pub masks_differ : (b h : ℕ) {i j : ℕ} → i < 2 ^ b → j < i → (h + i) % 2 ^ b ≢ (h + j) % 2 ^ b
masks_differ b h {i} {j} p q r =
    slots_differ {cap = 2 ^ b} {h = h % 2 ^ b} {i = i} {j = j} (mod-lt h (pow_pos b)) p q
      (mod-add-mod h (2 ^ b) i ∙ r ∙ sym (mod-add-mod h (2 ^ b) j))
