-- ===== src/CLib.antt =====
-- The functions of the C library on strings that the program calls: strtoul and strtol (base 10),
-- the %u, %d and %.*s directives of printf, memcmp as a prefix test, and the directives of sscanf. A C
-- string is the list of its bytes; the end of the list, or a zero byte, is the terminator.
pub mod Bits
pub mod Decimal
pub mod Scan
use memtier_skewsyn.Prelude.{
  ℕ, zero, suc, ◌+◌, ◌-◌, ◌*◌, ◌/◌, ◌%◌, ◌^◌, Bool, true, false, ◌&&◌, ◌||◌, List, [], ◌∷◌, ◌++◌,
  Option, none, some, Bytes, ltb, leb, ◌==◌, if◌then◌else◌, take,
}

abbrev pub u32_mod : ℕ
u32_mod = 2 ^ 32

abbrev pub u64_mod : ℕ
u64_mod = 2 ^ 64

-- *p
abbrev pub first : Bytes → ℕ
first [] = 0
first (c ∷ cs) = c

-- p + 1
abbrev pub rest_of : Bytes → Bytes
rest_of [] = []
rest_of (c ∷ cs) = cs

abbrev pub is_digit : ℕ → Bool
is_digit c = leb b'0' c && leb c b'9'

-- isspace in the C locale
abbrev pub is_space : ℕ → Bool
is_space c = (leb 9 c && leb c 13) || c == 32

unfoldable pub skip_space : Bytes → Bytes
skip_space [] = []
skip_space (c ∷ cs) = if is_space c then skip_space cs else c ∷ cs

-- The number that the digits at the front spell behind `acc`, and what follows them.
unfoldable pub read_digits : ℕ → Bytes → ℕ × Bytes
read_digits acc [] = (acc, [])
read_digits acc (c ∷ cs) =
    let more = read_digits (acc * 10 + (c - b'0')) cs in if is_digit c then more else (acc, c ∷ cs)

-- An optional sign: whether it is a minus, and what follows it.
abbrev pub read_sign : Bytes → Bool × Bytes
read_sign [] = (false, [])
read_sign (c ∷ cs) =
    if c == b'-' then (true, cs) else if c == b'+' then (false, cs) else (false, c ∷ cs)

-- The end pointer of strtoul is `str` itself where no digit was read.
abbrev read_number {ℓ} : {A : Type ℓ} → Bytes → (Bool → ℕ → A) → A → A × Bytes
read_number str value zero_value =
    let (minus, digits) = read_sign (skip_space str) in
    let (n, rest) = read_digits 0 digits in
    if is_digit (first digits) then (value minus n, rest) else (zero_value, str)

-- An unsigned long (64 bits), saturated; a minus sign negates modulo 2^64.
unfoldable pub strtoul : Bytes → ℕ × Bytes
unfolding skip_space read_digits
strtoul str =
    read_number str
      (λ minus n.
        if leb u64_mod n then u64_mod - 1 else if minus then (u64_mod - n) % u64_mod else n)
      0

-- A signed long (64 bits), saturated, as its bit pattern.
unfoldable pub strtol : Bytes → ℕ × Bytes
unfolding skip_space read_digits
strtol str =
    read_number str
      (λ minus n.
        if minus
        then (if ltb (2 ^ 63) n then 2 ^ 63 else (u64_mod - n) % u64_mod)
        else if leb (2 ^ 63) n
        then 2 ^ 63 - 1
        else n)
      0

-- The conversion of a 64-bit value to int or unsigned int, as a bit pattern.
abbrev pub to_u32 : ℕ → ℕ
to_u32 n = n % u32_mod

-- a < b on int patterns
abbrev pub int_lt : ℕ → ℕ → Bool
int_lt a b = ltb ((a + 2 ^ 31) % u32_mod) ((b + 2 ^ 31) % u32_mod)

-- The int -1
abbrev pub minus_one : ℕ
minus_one = u32_mod - 1

-- %u
digits_fuel : ℕ → ℕ → Bytes
digits_fuel zero n = []
digits_fuel (suc f) n =
    let front = digits_fuel f (n / 10) in
    if ltb n 10 then (b'0' + n) ∷ [] else front ++ ((b'0' + n % 10) ∷ [])

unfoldable pub print_u : ℕ → Bytes
unfolding digits_fuel
print_u n = digits_fuel (suc n) n

-- %d of an int pattern
unfoldable pub print_d : ℕ → Bytes
unfolding print_u
print_d n = if ltb n (2 ^ 31) then print_u n else b'-' ∷ print_u (u32_mod - n)

-- The bytes before the first zero.
abbrev pub c_str : Bytes → Bytes
c_str [] = []
c_str (c ∷ cs) = let rest = c_str cs in if c == 0 then [] else c ∷ rest

-- %.*s
abbrev pub print_s : ℕ → Bytes → Bytes
print_s n s = take n (c_str s)

-- memcmp(s, p, strlen(p)) == 0 for a literal p
abbrev pub starts_with : Bytes → Bytes → Bool
starts_with [] s = true
starts_with (x ∷ p) [] = false
starts_with (x ∷ p) (y ∷ s) = x == y && starts_with p s

-- The %s of sscanf: the bytes up to the next space, at least one.
unfoldable pub word : Bytes → Bytes × Bytes
word [] = ([], [])
word (c ∷ cs) =
    let (w, rest) = word cs in if is_space c || c == 0 then ([], c ∷ cs) else (c ∷ w, rest)

non_empty : Bytes × Bytes → Option (Bytes × Bytes)
non_empty ([], rest) = none
non_empty (c ∷ w, rest) = some (c ∷ w, rest)

unfoldable pub scan_s : Bytes → Option (Bytes × Bytes)
unfolding skip_space word non_empty
scan_s s = non_empty (word (skip_space s))

-- The %u of sscanf, which converts as strtoul does and stores an unsigned int.
unfoldable pub scan_u : Bytes → Option (ℕ × Bytes)
scan_u s =
    let (minus, digits) = read_sign (skip_space s) in
    let (v, rest) = strtoul s in if is_digit (first digits) then some (to_u32 v, rest) else none
