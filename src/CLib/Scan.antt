-- ===== src/CLib/Scan.antt =====
-- What the directives of sscanf read from words and printed numbers.
use memtier_skewsyn.Prelude.{
  ℕ, ◌<◌, ◌≡◌, ◌≢◌, refl, ap, ◌∙◌, true, false, [], ◌∷◌, ◌++◌, some, arith, Bytes, ◌==◌, All, ◌||◌,
}
use memtier_skewsyn.CLib.{
  u32_mod, first, is_digit, is_space, skip_space, word, non_empty, scan_s, scan_u, strtoul, c_str,
  print_u,
}
use memtier_skewsyn.CLib.Decimal.{AreDigits, first-print_u, strtoul-print_u, read_sign_digit}

-- Neither a zero nor a carriage return.
abbrev pub AreClean : Bytes → Type 0
AreClean = All (λ c. (c == 0 || c == b'\r') ≡ false)

pub AreClean-append : (xs ys : Bytes) → AreClean xs → AreClean ys → AreClean (xs ++ ys)
AreClean-append [] ys h k = k
AreClean-append (x ∷ xs) ys (h, hs) k = (h, AreClean-append xs ys hs k)

pub AreDigits-AreClean : (s : Bytes) → AreDigits s → AreClean s
AreDigits-AreClean [] h = tt
AreDigits-AreClean (c ∷ cs) (h, hs) = (ground arith, AreDigits-AreClean cs hs)

pub c_str-AreClean : (s : Bytes) → AreClean s → c_str s ≡ s
c_str-AreClean [] h = refl
c_str-AreClean (c ∷ cs) (h, hs) = ground (arith, c_str-AreClean cs hs)

-- Neither a zero nor a space.
abbrev pub IsWord : Bytes → Type 0
IsWord = All (λ c. (is_space c || c == 0) ≡ false)

pub IsWord-AreClean : (s : Bytes) → IsWord s → AreClean s
IsWord-AreClean [] h = tt
IsWord-AreClean (c ∷ cs) (h, hs) = (ground arith, IsWord-AreClean cs hs)

word-IsWord : (s rest : Bytes) → IsWord s → word (s ++ (b' ' ∷ rest)) ≡ (s, b' ' ∷ rest)
unfolding word
word-IsWord [] rest h = refl
word-IsWord (c ∷ cs) rest (h, hs) = ground (arith, word-IsWord cs rest hs)

skip_space-IsWord :
    (s rest : Bytes) → s ≢ [] → IsWord s → skip_space (b' ' ∷ (s ++ rest)) ≡ s ++ rest
unfolding skip_space
skip_space-IsWord [] rest ne h = absurd (ne refl)
skip_space-IsWord (c ∷ cs) rest ne (h, hs) = ground arith

non_empty_lem : (s rest : Bytes) → s ≢ [] → non_empty (s, rest) ≡ some (s, rest)
unfolding non_empty
non_empty_lem [] rest ne = absurd (ne refl)
non_empty_lem (c ∷ cs) rest ne = refl

-- %s reads a word behind a space, up to the next space.
pub scan_s-IsWord :
    (s rest : Bytes)
    → s ≢ []
    → IsWord s
    → scan_s (b' ' ∷ (s ++ (b' ' ∷ rest))) ≡ some (s, b' ' ∷ rest)
scan_s-IsWord s rest ne h =
    scan_s_lem (b' ' ∷ (s ++ (b' ' ∷ rest)))
    ∙ ap (λ t. non_empty (word t)) (skip_space-IsWord s (b' ' ∷ rest) ne h)
    ∙ ap non_empty (word-IsWord s rest h)
    ∙ non_empty_lem s (b' ' ∷ rest) ne
  where
    scan_s_lem : (t : Bytes) → scan_s t ≡ non_empty (word (skip_space t))
    scan_s_lem t = unfold scan_s in refl

strtoul_space :
    (s : Bytes) (n : ℕ) (rest : Bytes)
    → strtoul s ≡ (n, rest)
    → is_digit (first s) ≡ true
    → strtoul (b' ' ∷ s) ≡ (n, rest)
unfolding strtoul
strtoul_space [] n rest e d = cc
strtoul_space (c ∷ cs) n rest e d = ground arith

skip_space_once : (c : ℕ) (cs : Bytes) → is_digit c ≡ true → skip_space (b' ' ∷ c ∷ cs) ≡ c ∷ cs
unfolding skip_space
skip_space_once c cs d = ground arith

scan_u_digit :
    (c : ℕ) (cs : Bytes) (n : ℕ) (rest : Bytes)
    → is_digit c ≡ true
    → strtoul (b' ' ∷ c ∷ cs) ≡ (n, rest)
    → n < u32_mod
    → scan_u (b' ' ∷ c ∷ cs) ≡ some (n, rest)
unfolding scan_u
scan_u_digit c cs n rest d e h = ground (arith, skip_space_once c cs d, read_sign_digit c cs d)

-- %u reads a printed number behind a space.
pub scan_u-print_u :
    (n : ℕ) (rest : Bytes)
    → n < u32_mod
    → is_digit (first rest) ≡ false
    → scan_u (b' ' ∷ (print_u n ++ rest)) ≡ some (n, rest)
scan_u-print_u n rest h stop =
    let (c, cs, e, d) = first-print_u n rest in
    let read = strtoul-print_u n rest (omega arith) stop in
    rw e (scan_u_digit c cs n rest d (strtoul_space (c ∷ cs) n rest (rw e at read) d) h)
