-- ===== src/CLib/Decimal.antt =====
-- Printed decimals are read back.
use memtier_skewsyn.Prelude.{
  ℕ, zero, suc, ◌+◌, ◌/◌, ◌%◌, ◌≤◌, ◌<◌, ◌≡◌, refl, ◌∙◌, inl, inr, true, false, [], ◌∷◌, ◌++◌, ◌^◌,
  All, append-nil, append_assoc, arith, Bytes, ltb, Bool-cases,
}
use memtier_skewsyn.CLib.{
  first, is_digit, skip_space, read_digits, digits_fuel, print_u, strtoul, strtol, c_str, read_sign,
  u64_mod,
}

read_digits_last :
    (n : ℕ) (rest : Bytes) → read_digits (n / 10) ((b'0' + n % 10) ∷ rest) ≡ read_digits n rest
unfolding read_digits
read_digits_last n rest = ground arith

read_digits-digits_fuel :
    (f n : ℕ) (rest : Bytes) → n < f → read_digits 0 (digits_fuel f n ++ rest) ≡ read_digits n rest
unfolding digits_fuel
read_digits-digits_fuel zero n rest h = elim h [ ]
read_digits-digits_fuel (suc f) n rest h = elim (Bool-cases (ltb n 10)) [
  | inl small ↦ rw small (unfold read_digits in ground arith)
  | inr big ↦ rw big (
      rw append_assoc
        (read_digits-digits_fuel f (n / 10) _ (ground arith) ∙ read_digits_last n rest))
]

-- A printed number is read back, with the digits that follow it.
pub read_digits-print_u :
    (n : ℕ) (rest : Bytes) → read_digits 0 (print_u n ++ rest) ≡ read_digits n rest
unfolding print_u
read_digits-print_u n rest = read_digits-digits_fuel (suc n) n rest (omega arith)

read_digits_stop :
    (n : ℕ) (rest : Bytes) → is_digit (first rest) ≡ false → read_digits n rest ≡ (n, rest)
unfolding read_digits
read_digits_stop n [] h = refl
read_digits_stop n (c ∷ rest) h = rw h

-- The first byte of a printed number is a digit.
first-digits_fuel :
    (f n : ℕ) (rest : Bytes)
    → n < f
    → (c : ℕ) × (cs : Bytes) × (digits_fuel f n ++ rest ≡ c ∷ cs) × (is_digit c ≡ true)
unfolding digits_fuel
first-digits_fuel zero n rest h = elim h [ ]
first-digits_fuel (suc f) n rest h = elim (Bool-cases (ltb n 10)) [
  | inl small ↦ rw small (b'0' + n, rest, refl, ground arith)
  | inr big ↦
      let (c, cs, e, d) = first-digits_fuel f (n / 10) ((b'0' + n % 10) ∷ rest) (ground arith) in
      rw big (c, cs, rw append_assoc e, d)
]

pub first-print_u :
    (n : ℕ) (rest : Bytes)
    → (c : ℕ) × (cs : Bytes) × (print_u n ++ rest ≡ c ∷ cs) × (is_digit c ≡ true)
unfolding print_u
first-print_u n rest = first-digits_fuel (suc n) n rest (omega arith)

pub skip_space_digit : (c : ℕ) (cs : Bytes) → is_digit c ≡ true → skip_space (c ∷ cs) ≡ c ∷ cs
unfolding skip_space
skip_space_digit c cs d = ground arith

pub read_sign_digit :
    (c : ℕ) (cs : Bytes) → is_digit c ≡ true → read_sign (c ∷ cs) ≡ (false, c ∷ cs)
read_sign_digit c cs d = ground arith

strtoul_digit :
    (c : ℕ) (cs : Bytes) (n : ℕ) (rest : Bytes)
    → is_digit c ≡ true
    → read_digits 0 (c ∷ cs) ≡ (n, rest)
    → n < u64_mod
    → strtoul (c ∷ cs) ≡ (n, rest)
unfolding strtoul
strtoul_digit c cs n rest d r h = ground (arith, skip_space_digit c cs d, read_sign_digit c cs d)

-- strtoul reads a printed number back, up to the first byte that is no digit.
pub strtoul-print_u :
    (n : ℕ) (rest : Bytes)
    → n < u64_mod
    → is_digit (first rest) ≡ false
    → strtoul (print_u n ++ rest) ≡ (n, rest)
strtoul-print_u n rest h stop =
    let (c, cs, e, d) = first-print_u n rest in
    rw e (
      strtoul_digit c cs n rest d
        (rw e at (read_digits-print_u n rest) ∙ read_digits_stop n rest stop) h)

pub strtoul-print_u_end : (n : ℕ) → n < u64_mod → strtoul (print_u n) ≡ (n, [])
strtoul-print_u_end n h = rw append-nil at (strtoul-print_u n [] h refl)

All-append {ℓ} : (P : ℕ → Type ℓ) (xs ys : Bytes) → All P xs → All P ys → All P (xs ++ ys)
All-append P [] ys h k = k
All-append P (x ∷ xs) ys (h, hs) k = (h, All-append P xs ys hs k)

abbrev pub AreDigits : Bytes → Type 0
AreDigits = All (λ c. is_digit c ≡ true)

digits_fuel-AreDigits : (f n : ℕ) → AreDigits (digits_fuel f n)
unfolding digits_fuel
digits_fuel-AreDigits zero n = tt
digits_fuel-AreDigits (suc f) n = elim (Bool-cases (ltb n 10)) [
  | inl small ↦ rw small (ground arith, tt)
  | inr big ↦ rw big (All-append _ _ _ (digits_fuel-AreDigits f (n / 10)) (ground arith, tt))
]

pub print_u-AreDigits : (n : ℕ) → AreDigits (print_u n)
unfolding print_u
print_u-AreDigits n = digits_fuel-AreDigits (suc n) n

pub c_str-AreDigits : (s : Bytes) → AreDigits s → c_str s ≡ s
c_str-AreDigits [] h = refl
c_str-AreDigits (c ∷ cs) (h, hs) = ground (arith, c_str-AreDigits cs hs)

strtol_digit :
    (c : ℕ) (cs : Bytes) (n : ℕ) (rest : Bytes)
    → is_digit c ≡ true
    → read_digits 0 (c ∷ cs) ≡ (n, rest)
    → n < 2 ^ 63
    → strtol (c ∷ cs) ≡ (n, rest)
unfolding strtol
strtol_digit c cs n rest d r h = ground (arith, skip_space_digit c cs d, read_sign_digit c cs d)

-- strtol reads a printed number back, up to the first byte that is no digit.
pub strtol-print_u :
    (n : ℕ) (rest : Bytes)
    → n < 2 ^ 63
    → is_digit (first rest) ≡ false
    → strtol (print_u n ++ rest) ≡ (n, rest)
strtol-print_u n rest h stop =
    let (c, cs, e, d) = first-print_u n rest in
    rw e (
      strtol_digit c cs n rest d
        (rw e at (read_digits-print_u n rest) ∙ read_digits_stop n rest stop) h)

pub strtol-print_u_end : (n : ℕ) → n < 2 ^ 63 → strtol (print_u n) ≡ (n, [])
strtol-print_u_end n h = rw append-nil at (strtol-print_u n [] h refl)

digits_fuel_enough : (f g n : ℕ) → n < f → n < g → digits_fuel f n ≡ digits_fuel g n
unfolding digits_fuel
digits_fuel_enough zero g n h k = elim h [ ]
digits_fuel_enough (suc f) zero n h k = elim k [ ]
digits_fuel_enough (suc f) (suc g) n h k = elim (Bool-cases (ltb n 10)) [
  | inl small ↦ rw small
  | inr big ↦ rw big (rw (digits_fuel_enough f g (n / 10) (ground arith) (ground arith)))
]

-- A number of more than one digit is printed as its tenth and its last digit.
pub print_u_small : (n : ℕ) → n < 10 → print_u n ≡ (b'0' + n) ∷ []
unfolding print_u digits_fuel
print_u_small n h = ground arith

pub print_u_step : (n : ℕ) → 10 ≤ n → print_u n ≡ print_u (n / 10) ++ ((b'0' + n % 10) ∷ [])
unfolding print_u digits_fuel
print_u_step n h = ground (arith, digits_fuel_enough n (suc (n / 10)) (n / 10))
