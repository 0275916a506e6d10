-- ===== src/Cluster/Crc.antt =====
-- The table of crc16tab against the polynomial that it stands for.
use Prim.Native.Nat.{bit_xor, bit_and}
use memtier_skewsyn.Prelude.{
  ℕ, zero, suc, ◌+◌, ◌*◌, ◌/◌, ◌%◌, ◌^◌, ◌<◌, ◌≡◌, refl, true, arith, ltb, ◌==◌, if◌then◌else◌,
  get_or, ==_iff, Bool, ltb→lt, All, Bytes, [], ◌∷◌, ap, ◌∙◌,
}
use memtier_skewsyn.CLib.Bits.{
  bit_xor_fields, bit_and_ones, bit_xor-lt, bit_xor_zero, passes, passes_lem,
}
use memtier_skewsyn.Cluster.HashSlot.{
  crc16tab, crc16_step, crc16_from, crc16, calc_hslot_crc16_cluster,
}

-- One place of a division by x^16 + x^12 + x^5 + 1.
abbrev shift_bit : ℕ → ℕ
shift_bit r = if ltb r (2 ^ 15) then r * 2 else bit_xor (r * 2) 0x11021

shift_bits : ℕ → ℕ → ℕ
shift_bits zero r = r
shift_bits (suc n) r = shift_bits n (shift_bit r)

-- The remainder of a message, behind that of the bytes before it.
pub remainder_from : ℕ → Bytes → ℕ
unfolding shift_bits
remainder_from r [] = r
remainder_from r (c ∷ cs) = remainder_from (shift_bits 8 (bit_xor r (c * 2 ^ 8))) cs

abbrev pub AreBytes : Bytes → Type 0
AreBytes s = All (λ c. c < 256) s

-- Every row of the table, with each low byte of the register.
abbrev row_matches : ℕ → ℕ → Bool
row_matches h l = shift_bits 8 (h * 2 ^ 8 + l) == bit_xor (l * 2 ^ 8) (get_or crc16tab h 0) % 2 ^ 16

rows : passes (λ h. passes (row_matches h) 256) 256 ≡ true
unfolding passes shift_bits
rows = refl

row :
    (h l : ℕ)
    → h < 256
    → l < 256
    → shift_bits 8 (h * 2 ^ 8 + l) ≡ bit_xor (l * 2 ^ 8) (get_or crc16tab h 0) % 2 ^ 16
row h l p q =
    (==_iff _ _).0 (
      passes_lem (row_matches h) 256 l (passes_lem (λ h. passes (row_matches h) 256) 256 h rows p)
        q)

entries : passes (λ h. ltb (get_or crc16tab h 0) (2 ^ 16)) 256 ≡ true
unfolding passes
entries = refl

entry-lt : (h : ℕ) → h < 256 → get_or crc16tab h 0 < 2 ^ 16
entry-lt h p = ltb→lt _ _ (passes_lem (λ h. ltb (get_or crc16tab h 0) (2 ^ 16)) 256 h entries p)

module _ (crc c : ℕ) (h : crc < 2 ^ 16) (k : c < 256) where
  abbrev high : ℕ
  high = bit_xor (crc / 2 ^ 8) c

  high-lt : high < 256
  high-lt = bit_xor-lt 8 (crc / 2 ^ 8) c (omega arith) k

  index_lem : bit_and high 0xff ≡ high
  index_lem = ground (arith, bit_and_ones 8 0 high high-lt)

  -- The byte meets the high half of the register.
  entered : bit_xor crc (c * 2 ^ 8) ≡ high * 2 ^ 8 + crc % 2 ^ 8
  entered = ground (
    arith,
    bit_xor_fields 8 (crc / 2 ^ 8) (crc % 2 ^ 8) c 0 (omega arith) (omega arith),
    bit_xor_zero (crc % 2 ^ 8),
  )

  shifted :
      (t : ℕ)
      → t < 2 ^ 16
      → bit_xor (crc * 2 ^ 8) t % 2 ^ 16 ≡ bit_xor (crc % 2 ^ 8 * 2 ^ 8) t % 2 ^ 16
  shifted t lt =
      ground (arith, bit_xor_fields 16 (crc / 2 ^ 8) (crc % 2 ^ 8 * 2 ^ 8) 0 t (omega arith) lt)

  step_lem : crc16_step crc c ≡ shift_bits 8 (bit_xor crc (c * 2 ^ 8))
  unfolding crc16_step
  step_lem =
      rw (index_lem, entered, row high (crc % 2 ^ 8) high-lt (omega arith))
        (shifted (get_or crc16tab high 0) (entry-lt high high-lt))

  step-lt : crc16_step crc c < 2 ^ 16
  unfolding crc16_step
  step-lt = omega arith

from_lem :
    (crc : ℕ) (s : Bytes) → crc < 2 ^ 16 → AreBytes s → crc16_from crc s ≡ remainder_from crc s
unfolding crc16_from remainder_from
from_lem crc [] h k = refl
from_lem crc (c ∷ cs) h k =
    from_lem (crc16_step crc c) cs (step-lt crc c h k.0) k.1
    ∙ ap (λ r. remainder_from r cs) (step_lem crc c h k.0)

from-lt : (crc : ℕ) (s : Bytes) → crc < 2 ^ 16 → AreBytes s → crc16_from crc s < 2 ^ 16
unfolding crc16_from
from-lt crc [] h k = h
from-lt crc (c ∷ cs) h k = from-lt (crc16_step crc c) cs (step-lt crc c h k.0) k.1

-- The hash slot of a key is the remainder of its bytes, as a polynomial shifted by 16 places, on division by
-- x^16 + x^12 + x^5 + 1, modulo 2^14; so that it is a place of the table of 16384 slots.
pub hslot-remainder :
    (s : Bytes)
    → AreBytes s
    → (calc_hslot_crc16_cluster s ≡ remainder_from 0 s % 2 ^ 14)
      × (calc_hslot_crc16_cluster s < 16384)
unfolding calc_hslot_crc16_cluster crc16
hslot-remainder s k =
    let e : bit_and (crc16_from 0 s) 16383 ≡ crc16_from 0 s % 2 ^ 14 =
      ground (
        arith,
        bit_and_ones 14 (crc16_from 0 s / 2 ^ 14) (crc16_from 0 s % 2 ^ 14) (omega arith),
      ) in
    (e ∙ ap (λ (n : ℕ). n % 2 ^ 14) (from_lem 0 s (omega arith) k), omega (arith, e))
