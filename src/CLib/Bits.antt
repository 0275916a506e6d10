-- ===== src/CLib/Bits.antt =====
-- Exclusive or, and the mask of low digits, at variables.
use Prim.Native.Nat.{bit_xor, bit_and, min, digits, differ, bit_xor-bitwise, bit_and-bitwise}
use mathlib.Core.Path.{ap}
use native.Mathlib.Nat.{le_refl, pow-suc, one-le-pow}
use memtier_skewsyn.Prelude.{
  ℕ, zero, suc, ◌+◌, ◌-◌, ◌*◌, ◌/◌, ◌%◌, ◌^◌, ◌≤◌, ◌<◌, ◌≡◌, ◌∙◌, refl, sym, inl, inr, ◌==◌, arith,
  Bool, true, ◌&&◌, Bool-cases,
}

-- Fuel beyond the first number changes nothing of the recursion on digits.
module _ (pad : ℕ → ℕ) (g : ℕ → ℕ → ℕ) where
  one_more : (fuel x y : ℕ) → x ≤ fuel → digits pad g (suc fuel) x y ≡ digits pad g fuel x y
  one_more zero zero y le = refl
  one_more zero (suc x) y le = absurd (omega arith)
  one_more (suc fuel) zero y le = refl
  one_more (suc fuel) (suc x) y le =
      let half = one_more fuel (suc x / 2) (y / 2) (omega (arith, le)) in rw half refl

  enough : (fuel x y : ℕ) → x ≤ fuel → digits pad g fuel x y ≡ digits pad g x x y
  enough zero x y le = let e : x ≡ zero = omega (arith, le) in rw e refl
  enough (suc fuel) x y le = elim (Bool-cases (x == suc fuel)) [
    | inl e ↦ let same : x ≡ suc fuel = ground arith in rw same refl
    | inr e ↦ let lt : x ≤ fuel = ground arith in one_more fuel x y lt ∙ enough fuel x y lt
  ]

pub bit_xor_step : (a b : ℕ) → bit_xor a b ≡ bit_xor (a / 2) (b / 2) * 2 + differ (a % 2) (b % 2)
bit_xor_step zero b = ground (arith, bit_xor-bitwise 0 b, bit_xor-bitwise 0 (b / 2))
bit_xor_step (suc x) y =
    simp bit_xor-bitwise
      (let e = enough (λ t. t) differ x (suc x / 2) (y / 2) (omega arith) in omega (arith, e))

pub bit_and_step : (a b : ℕ) → bit_and a b ≡ bit_and (a / 2) (b / 2) * 2 + min (a % 2) (b % 2)
bit_and_step zero b = omega (arith, bit_and-bitwise 0 b, bit_and-bitwise 0 (b / 2))
bit_and_step (suc x) y =
    simp bit_and-bitwise
      (let e = enough (λ t. 0) min x (suc x / 2) (y / 2) (omega arith) in omega (arith, e))

two_pow : (x k : ℕ) → 2 * (x * 2 ^ k) ≡ x * 2 ^ suc k
two_pow x k = omega (arith, ap (λ (y : ℕ). x * y) (pow-suc 2 k))

-- An operation that goes digit by digit
module _ (op g : ℕ → ℕ → ℕ) (step : (x y : ℕ) → op x y ≡ op (x / 2) (y / 2) * 2 + g (x % 2) (y % 2))
    (nil : op 0 0 ≡ 0) where
  -- It takes the k low digits of both numbers, and the others, apart.
  by_fields :
      (k high low high' low' : ℕ)
      → low < 2 ^ k
      → low' < 2 ^ k
      → op (high * 2 ^ k + low) (high' * 2 ^ k + low') ≡ op high high' * 2 ^ k + op low low'
  by_fields zero high low high' low' l l' = ground (arith, nil)
  by_fields (suc k) high low high' low' l l' =
      let two = pow-suc 2 k in
      let rest =
        by_fields k high (low / 2) high' (low' / 2) (omega (arith, two)) (omega (arith, two)) in
      ground (
        arith,
        rest,
        step (high * 2 ^ suc k + low) (high' * 2 ^ suc k + low'),
        step low low',
        two_pow high k,
        two_pow high' k,
        two_pow (op high high') k,
      )

  -- Where no digit of the result is above 1, the result has no more digits than the numbers.
  by_fields-lt :
      ((x y : ℕ) → x < 2 → y < 2 → g x y ≤ 1) → (k x y : ℕ) → x < 2 ^ k → y < 2 ^ k → op x y < 2 ^ k
  by_fields-lt bit zero x y l l' = ground (arith, nil)
  by_fields-lt bit (suc k) x y l l' =
      let two = pow-suc 2 k in
      let rest = by_fields-lt bit k (x / 2) (y / 2) (omega (arith, two)) (omega (arith, two)) in
      omega (arith, rest, two, step x y, bit (x % 2) (y % 2) (omega arith) (omega arith))

  -- What the digits make beside a 0
  by_digits :
      (w : ℕ → ℕ)
      → w 0 ≡ 0
      → ((x : ℕ) → w x ≡ w (x / 2) * 2 + g (x % 2) 0)
      → (fuel x : ℕ) → x ≤ fuel
      → op x 0 ≡ w x
  by_digits w w0 ws zero x le = let e : x ≡ 0 = omega (arith, le) in rw e (nil ∙ sym w0)
  by_digits w w0 ws (suc fuel) x le =
      let rest = by_digits w w0 ws fuel (x / 2) (omega (arith, le)) in
      omega (arith, rest, step x 0, ws x)

differ-bit : (x y : ℕ) → x < 2 → y < 2 → differ x y ≤ 1
differ-bit zero y l l' = omega (arith, l')
differ-bit (suc x) zero l l' = omega (arith, l)
differ-bit (suc x) (suc y) l l' =
    let e : x ≡ 0 = omega arith in let e' : y ≡ 0 = omega arith in rw (e, e') (omega arith)

differ-nil : (x : ℕ) → differ x 0 ≡ x
differ-nil zero = refl
differ-nil (suc x) = refl

xor-nil : bit_xor 0 0 ≡ 0
xor-nil = bit_xor-bitwise 0 0

and-nil : bit_and 0 0 ≡ 0
and-nil = bit_and-bitwise 0 0

pub bit_xor_fields :
    (k high low high' low' : ℕ)
    → low < 2 ^ k
    → low' < 2 ^ k
    → bit_xor (high * 2 ^ k + low) (high' * 2 ^ k + low')
      ≡ bit_xor high high' * 2 ^ k + bit_xor low low'
bit_xor_fields = by_fields bit_xor differ bit_xor_step xor-nil

pub bit_xor-lt : (k x y : ℕ) → x < 2 ^ k → y < 2 ^ k → bit_xor x y < 2 ^ k
bit_xor-lt = by_fields-lt bit_xor differ bit_xor_step xor-nil differ-bit

pub bit_xor_zero : (x : ℕ) → bit_xor x 0 ≡ x
bit_xor_zero x =
    by_digits bit_xor differ bit_xor_step xor-nil (λ y. y) refl
      (λ y. omega (arith, differ-nil (y % 2))) x x (le_refl x)

bit_and_zero : (x : ℕ) → bit_and x 0 ≡ 0
bit_and_zero x =
    by_digits bit_and min bit_and_step and-nil (λ y. 0) refl (λ y. omega arith) x x (le_refl x)

ones : (k x : ℕ) → x < 2 ^ k → bit_and x (2 ^ k - 1) ≡ x
ones zero x l = let e : x ≡ 0 = omega (arith, l) in rw e and-nil
ones (suc k) x l =
    let two = pow-suc 2 k in
    let rest = ones k (x / 2) (omega (arith, two)) in
    let half : (2 ^ suc k - 1) / 2 ≡ 2 ^ k - 1 = omega (arith, two, one-le-pow k 2) in
    let odd : (2 ^ suc k - 1) % 2 ≡ 1 = omega (arith, two, one-le-pow k 2) in
    rw (bit_and_step x (2 ^ suc k - 1), half, odd, rest) (omega arith)

-- A number k ones long is a mask of the k low digits.
pub bit_and_ones : (k high low : ℕ) → low < 2 ^ k → bit_and (high * 2 ^ k + low) (2 ^ k - 1) ≡ low
bit_and_ones k high low l = ground (
  arith,
  by_fields bit_and min bit_and_step and-nil k high low 0 (2 ^ k - 1) l
      (omega (arith, one-le-pow k 2)),
  bit_and_zero high,
  ones k low l,
)

-- A test that holds of every number below a bound, by evaluation
unfoldable pub passes : (ℕ → Bool) → ℕ → Bool
passes test zero = true
passes test (suc bound) = passes test bound && test bound

pub passes_lem :
    (test : ℕ → Bool) (bound x : ℕ) → passes test bound ≡ true → x < bound → test x ≡ true
unfolding passes
passes_lem test zero x all l = elim l [ ]
passes_lem test (suc bound) x all l = elim (Bool-cases (x == bound)) [
  | inl e ↦ let same : x ≡ bound = ground arith in rw same (ground arith)
  | inr e ↦ passes_lem test bound x (ground arith) (ground arith)
]
