-- ===== src/ObjGen/Fill.antt =====
-- The counters of the loop in object_generator::alloc_value_buffer that fills the buffer with random data.
use memtier_skewsyn.Prelude.{
  ℕ, zero, suc, ◌+◌, ◌/◌, ◌%◌, ◌<◌, ◌≤◌, ◌≡◌, refl, ap, ◌∙◌, false, inl, inr, arith, ◌==◌,
  Bool-cases,
}
use memtier_skewsyn.ObjGen.{Filling, refill, filling, byte_places}

abbrev places : ℕ → ℕ → Filling
places a b = record { buf1_idx = a; buf2_idx = b; iter = 0; reads = 0 }

refill_end : (b : ℕ) → 64 ≤ b → refill (places 64 b) ≡ places 0 (b + 1)
unfolding refill
refill_end b h = rw (let z : (b + 1 == 64) ≡ false = ground arith in z) refl

refill_within : (a b : ℕ) → a < 64 → refill (places a b) ≡ places a b
unfolding refill
refill_within a b h = rw (let z : (a == 64) ≡ false = ground arith in z) refl

refill_next :
    (n : ℕ) → refill (places (n % 64 + 1) (65 + n / 64)) ≡ places (suc n % 64) (65 + suc n / 64)
refill_next n = elim (Bool-cases (n % 64 + 1 == 64)) [
  | inl e ↦
      (λ i. refill (places ((let z : n % 64 + 1 ≡ 64 = ground arith in z) i) (65 + n / 64)))
      ∙ refill_end (65 + n / 64) (omega arith)
      ∙ (λ i.
          places ((let z : 0 ≡ suc n % 64 = ground arith in z) i)
            ((let z : 65 + n / 64 + 1 ≡ 65 + suc n / 64 = ground arith in z) i))
  | inr e ↦ refill_within (n % 64 + 1) (65 + n / 64) (ground arith) ∙ (λ i.
      places ((let z : n % 64 + 1 ≡ suc n % 64 = ground arith in z) i)
        ((let z : 65 + n / 64 ≡ 65 + suc n / 64 = ground arith in z) i))
]

-- Byte n of the buffer is made of byte n % 64 of buf1 and of byte 65 + n / 64 of buf2, an array of 64 bytes,
-- and no random data is read for it.
pub byte_places-overread :
    (n : ℕ)
    → byte_places n ≡ record { buf1_idx = n % 64; buf2_idx = 65 + n / 64; iter = 0; reads = 0 }
unfolding filling refill
byte_places-overread zero = refl
byte_places-overread (suc n) =
    ap (λ f. refill (record f { buf1_idx = f.buf1_idx + 1 })) (byte_places-overread n)
    ∙ refill_next n
