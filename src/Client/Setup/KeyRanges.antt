-- ===== src/Client/Setup/KeyRanges.antt =====
-- The keys of the clients with the key pattern P.
use memtier_skewsyn.Prelude.{
  ℕ, suc, ◌+◌, ◌-◌, ◌*◌, ◌/◌, ◌%◌, ◌^◌, ◌<◌, ◌≤◌, ◌≡◌, refl, inl, inr, true, false, arith, ◌==◌,
  if◌then◌else◌, Bool-cases, mod-eq_of_lt,
}
use native.Mathlib.Nat.{div-le_self, mul-div-le, lt-mul-div-succ, div-lt_iff_lt-mul}
use memtier_skewsyn.CLib.{u32_mod, u64_mod, to_u32}
use memtier_skewsyn.Client.Setup.{SetupConfig, widened, range_size, key_range}

-- The options as they are in use: keys below 2 ^ 30, and the number of clients an int that is not 0.
pub record IsUsual (c : SetupConfig) : Type 0 where
  pub ordered : c.key_minimum ≤ c.key_maximum
  pub small : c.key_maximum < 2 ^ 30
  pub some_clients : 0 < c.clients * c.threads
  pub few_clients : c.clients * c.threads < 2 ^ 31

widened_small : (n : ℕ) → n < 2 ^ 31 → widened n ≡ n
widened_small n h = ground arith

module _ (c : SetupConfig) (u : IsUsual c) where
  abbrev pub count : ℕ
  count = c.clients * c.threads

  abbrev pub size : ℕ
  size = (c.key_maximum - c.key_minimum) / count + 1

  range_size_lem : range_size c ≡ size
  unfolding range_size
  range_size_lem =
      let z : (c.key_maximum + u64_mod - c.key_minimum) % u64_mod ≡ c.key_maximum - c.key_minimum =
        omega (arith, u.ordered, u.small) in
      let y : c.clients * c.threads % u32_mod ≡ count =
        mod-eq_of_lt (omega (arith, u.few_clients)) in
      let le = div-le_self (c.key_maximum - c.key_minimum) count in
      rw (z, y) (mod-eq_of_lt (omega (arith, le, u.small)))

  -- The range of a client that starts at a key below 2 ^ 30.
  key_range_lem :
      (idx : ℕ)
      → idx < count
      → c.key_minimum + size * idx < 2 ^ 30
      → key_range c idx ≡ (
        c.key_minimum + size * idx,
        (if suc idx == count then c.key_maximum else c.key_minimum + size * idx + size),
      )
  unfolding key_range
  key_range_lem idx lt fits =
      let le = div-le_self (c.key_maximum - c.key_minimum) count in
      let whole : c.clients * c.threads % u32_mod ≡ count =
        mod-eq_of_lt (omega (arith, u.few_clients)) in
      let product : to_u32 (size * idx) ≡ size * idx = omega (arith, fits) in
      let start : to_u32 (c.key_minimum + size * idx) ≡ c.key_minimum + size * idx =
        omega (arith, fits) in
      let end : to_u32 (c.key_minimum + size * idx + size) ≡ c.key_minimum + size * idx + size =
        omega (arith, fits, le, u.small) in
      let last : (count + u32_mod - 1) % u32_mod ≡ count - 1 =
        omega (arith, u.few_clients, u.some_clients) in
      rw
        (
          range_size_lem,
          product,
          widened_small (size * idx) (omega (arith, fits)),
          start,
          widened_small (c.key_minimum + size * idx) (omega (arith, fits)),
          whole,
          last,
          end,
          let z : to_u32 c.key_maximum ≡ c.key_maximum = omega (arith, u.small) in z,
        )
        (elim (Bool-cases (idx == count - 1)) [
          | inl e ↦
              let z : (suc idx == count) ≡ true = (let pos = u.some_clients in ground arith) in
              rw (e, z) (rw (widened_small c.key_maximum (omega (arith, u.small))) refl)
          | inr e ↦
              let z : (suc idx == count) ≡ false = ground arith in
              rw (e, z)
                (rw
                  (widened_small (c.key_minimum + size * idx + size)
                    (omega (arith, fits, le, u.small)))
                  refl)
        ])

  -- For an ordered key range with a greatest key below 2 ^ 30, and a number of clients times threads that is not zero
  -- and below 2 ^ 31, every key of the range of all clients is in the range of one of the clients, by its index; and
  -- the last key of the range of a client that is not the last is the first key of the range of the next one,
  -- where that first key, before it is cut, is below 2 ^ 30.
  pub key_range-covers :
      ((k : ℕ)
        → c.key_minimum ≤ k
        → k ≤ c.key_maximum
        → (idx : ℕ) × (idx < count) × ((key_range c idx).0 ≤ k) × (k ≤ (key_range c idx).1))
      × ((idx : ℕ)
          → suc idx < count
          → c.key_minimum + size * suc idx < 2 ^ 30
          → (key_range c idx).1 ≡ (key_range c (suc idx)).0)
  key_range-covers = (
    (λ k lo hi.
        let idx = (k - c.key_minimum) / size in
        let pos : 0 < size = omega arith in
        let most = lt-mul-div-succ (c.key_maximum - c.key_minimum) u.some_clients in
        let lt : idx < count = (div-lt_iff_lt-mul pos).1 (omega (arith, most, lo, hi)) in
        let low = mul-div-le (k - c.key_minimum) size in
        let high = lt-mul-div-succ (k - c.key_minimum) pos in
        let e = key_range_lem idx lt (omega (arith, low, lo, hi, u.small)) in
        (
          idx,
          lt,
          rw e (omega (arith, low, lo)),
          rw e (elim (Bool-cases (suc idx == count)) [
            | inl f ↦ rw f hi
            | inr f ↦ rw f (omega (arith, high, lo))
          ]),
        )),
    (λ idx lt fits.
        let more : size * suc idx ≡ size * idx + size = omega arith in
        let a = key_range_lem idx (omega (arith, lt)) (omega (arith, fits, more)) in
        let b = key_range_lem (suc idx) lt fits in
        let z : (suc idx == count) ≡ false = ground arith in rw (a, b, z) (omega (arith, more))),
  )
