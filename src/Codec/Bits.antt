-- ===== src/Codec/Bits.antt =====
-- The masks of wire.rs on one byte as arithmetic, each a table of 256 entries that is evaluated.
use Prim.Native.Nat.{bit_and}
use changekernel.Base.{
  ℕ, zero, suc, ◌*◌, ◌/◌, ◌%◌, ◌<◌, ◌≡◌, refl, Bool, true, ◌&&◌, arith, eqb, eqb_iff,
}

module _ (f g : ℕ → ℕ) where
  same_below : ℕ → Bool
  same_below zero = true
  same_below (suc n) = eqb (f n) (g n) && same_below n

  same_below-eq : (n : ℕ) → same_below n ≡ true → (i : ℕ) → i < n → f i ≡ g i
  unfolding same_below
  same_below-eq zero e i h = absurd (omega arith)
  same_below-eq (suc n) e i h =
      ground (arith, eqb_iff (f n) (g n), same_below-eq n (ground arith) i)

pub low_bits : (b : ℕ) → b < 256 → bit_and b 127 ≡ b % 128
unfolding same_below
low_bits = same_below-eq _ _ 256 refl

pub top_bit : (b : ℕ) → b < 256 → bit_and b 128 ≡ b / 128 * 128
unfolding same_below
top_bit = same_below-eq _ _ 256 refl
