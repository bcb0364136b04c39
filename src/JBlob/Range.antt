-- ===== src/JBlob/Range.antt =====
-- JRegister::min and max: the values that a register of a given width and sign can hold.
use feed_core.Prelude.{
  ℕ, ◌-◌, ◌*◌, ◌%◌, ◌^◌, ◌≤◌, ◌<◌, ◌≡◌, refl, ap, ◌∙◌, true, ◌&&◌, arith, ◌==◌, ==_iff, leb, passes,
  passes_at,
}
use feed_core.Prelude.Int.{pos, negsuc}
use feed_core.JBlob.{JRegister, signed, reg_min, reg_max, signed64}

mask_table : passes (λ k. 0xffffffffffffffff * 2 ^ k % 2 ^ 64 == 2 ^ 64 - 2 ^ k) 32 ≡ true
unfolding passes
mask_table = refl

power_table : passes (λ k. leb 1 (2 ^ k) && leb (2 ^ k) (2 ^ 31)) 32 ≡ true
unfolding passes
power_table = refl

mask_shifted : (k : ℕ) → k < 32 → 0xffffffffffffffff * 2 ^ k % 2 ^ 64 ≡ 2 ^ 64 - 2 ^ k
mask_shifted k h = (==_iff _ _).0 (passes_at _ 32 k h mask_table)

power_bounds : (k : ℕ) → k < 32 → (1 ≤ 2 ^ k) × (2 ^ k ≤ 2 ^ 31)
power_bounds k h = ground (arith, passes_at _ 32 k h power_table)

-- The pattern of -(2 ^ k).
signed64-mask : (n : ℕ) → 1 ≤ n → n ≤ 2 ^ 31 → signed64 (2 ^ 64 - n) ≡ negsuc (n - 1)
signed64-mask n p q = ground arith

-- A signed register of 1 to 32 bits ranges over two's complement, from -2^(w-1) to 2^(w-1)-1.
pub reg_min-reg_max_signed :
    (r : JRegister)
    → r.sign ≡ signed
    → 1 ≤ r.data_width
    → r.data_width ≤ 32
    → (reg_min r ≡ negsuc (2 ^ (r.data_width - 1) - 1))
      × (reg_max r ≡ pos (2 ^ (r.data_width - 1) - 1))
unfolding reg_min reg_max
reg_min-reg_max_signed r s p q =
    let k : ℕ = r.data_width - 1 in
    let bounds = power_bounds k (omega arith) in
    (
      rw s (
          ap signed64 (mask_shifted k (omega arith))
          ∙ signed64-mask (2 ^ k) (omega (arith, bounds)) (omega (arith, bounds))),
      rw s,
    )
