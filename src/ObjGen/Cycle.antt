-- ===== src/ObjGen/Cycle.antt =====
-- The arithmetic of the key iterators.
use memtier_skewsyn.Prelude.{
  ℕ, zero, suc, ◌+◌, ◌-◌, ◌%◌, ◌<◌, ◌≤◌, ◌≡◌, ◌≢◌, refl, ap, inl, inr, List, [], ◌∷◌, arith, ltb,
  ◌==◌, if◌then◌else◌, Bool-cases, mod-eq_of_lt, length, get_or, set,
}
use memtier_skewsyn.CLib.{u64_mod}

pub get_or-set_self : (xs : List ℕ) (i v : ℕ) → i < length xs → get_or (set xs i v) i 0 ≡ v
get_or-set_self [] i v h = elim h [ ]
get_or-set_self (x ∷ xs) zero v h = refl
get_or-set_self (x ∷ xs) (suc i) v h = get_or-set_self xs i v (omega arith)

pub get_or-set_ne : (xs : List ℕ) (i j v : ℕ) → i ≢ j → get_or (set xs i v) j 0 ≡ get_or xs j 0
get_or-set_ne [] i j v h = refl
get_or-set_ne (x ∷ xs) zero zero v h = absurd (h refl)
get_or-set_ne (x ∷ xs) zero (suc j) v h = refl
get_or-set_ne (x ∷ xs) (suc i) zero v h = refl
get_or-set_ne (x ∷ xs) (suc i) (suc j) v h = get_or-set_ne xs i j v (λ e. h (ap suc e))

unfoldable pub after_key : ℕ → ℕ → ℕ → ℕ
after_key m x k =
    let n = (k + 1) % u64_mod in let k' = (if ltb x n then m else n) in if ltb k' m then m else k'

pub after_key_lem :
    (m x r : ℕ)
    → m ≤ x
    → x < u64_mod
    → r < x - m + 1
    → after_key m x (m + r) ≡ m + (if suc r == x - m + 1 then 0 else suc r)
unfolding after_key
after_key_lem m x r h k l = elim (Bool-cases (m + r + 1 == u64_mod)) [
  | inl e ↦ ground arith
  | inr e ↦ rw (mod-eq_of_lt (let z : m + r + 1 < u64_mod = ground arith in z)) (ground arith)
]
