-- ===== src/ObjGen/KeyText.antt =====
-- The text of a key of object_generator.
use memtier_skewsyn.Prelude.{
  ℕ, zero, suc, ◌+◌, ◌-◌, ◌*◌, ◌/◌, ◌%◌, ◌<◌, ◌≤◌, ◌≡◌, refl, sym, ap, ◌∙◌, inl, inr, [], ◌∷◌, ◌++◌,
  Option, none, some, arith, Bytes, ltb, leb, ◌==◌, Bool-cases, length, length-append, take, drop,
  drop_append, mod-eq_of_lt,
}
use mathlib.Core.Option.{some-injective}
use memtier_skewsyn.CLib.{u64_mod, c_str, print_u, strtoul}
use memtier_skewsyn.CLib.Decimal.{print_u_small, print_u_step, strtoul-print_u_end}
use memtier_skewsyn.ObjGen.{
  Outside, Generator, Iter, key_random, key_gaussian, key_iter, key_iterators, random_range,
  with_random, get_key_index, key_text, with_key, get_key,
}

tens : ℕ → ℕ
tens zero = 1
tens (suc d) = 10 * tens d

length-print_u : (d n : ℕ) → n < tens (suc d) → length (print_u n) ≤ suc d
unfolding tens
length-print_u zero n h = rw (print_u_small n (omega arith)) (omega arith)
length-print_u (suc d) n h = elim (Bool-cases (ltb n 10)) [
  | inl lt ↦ rw (print_u_small n (ground arith)) (omega arith)
  | inr ge ↦ omega (
    arith,
    ap length (print_u_step n (ground arith)),
    length-append (print_u (n / 10)) ((b'0' + n % 10) ∷ []),
    length-print_u d (n / 10) (omega arith),
  )
]

-- An unsigned long long has 20 digits at most.
pub length-print_u_u64 : (n : ℕ) → n < u64_mod → length (print_u n) ≤ 20
length-print_u_u64 n h = length-print_u 19 n (unfold tens in omega arith)

pub take_all : (n : ℕ) (s : Bytes) → length s ≤ n → take n s ≡ s
take_all zero [] h = refl
take_all zero (c ∷ s) h = elim h [ ]
take_all (suc n) [] h = refl
take_all (suc n) (c ∷ s) h = ap (◌∷◌ c) (take_all n s (omega arith))

print_u-injective : (m n : ℕ) → m < u64_mod → n < u64_mod → print_u m ≡ print_u n → m ≡ n
print_u-injective m n h k e =
    sym (ap (λ r. r.0) (strtoul-print_u_end m h))
    ∙ ap (λ s. (strtoul s).0) e
    ∙ ap (λ r. r.0) (strtoul-print_u_end n k)

key_text-injective :
    (prefix : Bytes) (m n : ℕ)
    → m < u64_mod
    → n < u64_mod
    → key_text prefix m ≡ key_text prefix n
    → m ≡ n
unfolding key_text
key_text-injective prefix m n h k e = print_u-injective m n h k (
    sym (drop_append (c_str prefix) (print_u m))
    ∙ ap (drop _) e
    ∙ drop_append (c_str prefix) (print_u n))

module _ (out : Outside) where
  SamePrefix : Generator out → Option (ℕ × Generator out) → Type 0
  SamePrefix g none = Unit
  SamePrefix g (some (k, h)) = h.m_key_prefix ≡ g.m_key_prefix

  with_random-prefix :
      (g : Generator out) (r : Option (ℕ × out.State)) → SamePrefix g (with_random out g r)
  unfolding SamePrefix
  with_random-prefix g none = tt
  with_random-prefix g (some (k, s)) = refl

  get_key_index-prefix : (iter : Iter) (g : Generator out) → SamePrefix g (get_key_index out iter g)
  unfolding get_key_index random_range SamePrefix
  get_key_index-prefix key_random g =
      elim (Bool-cases ((g.m_key_max + u64_mod - g.m_key_min + 1) % u64_mod == 0)) [
        | inl e ↦ rw e tt
        | inr e ↦ rw e refl
      ]
  get_key_index-prefix key_gaussian g = with_random-prefix g _
  get_key_index-prefix (key_iter i) g = elim (Bool-cases (leb key_iterators i)) [
    | inl e ↦ rw e tt
    | inr e ↦ rw e refl
  ]

  -- The text of a key whose prefix is not too long is whole, and the length is that of the text.
  get_key_lem :
      (iter : Iter) (g : Generator out) {text : Bytes} {len : ℕ} {h : Generator out}
      → get_key out iter g ≡ some (text, len, h)
      → length (c_str g.m_key_prefix) ≤ 228
      → h.m_key_index < u64_mod
      → (text ≡ key_text g.m_key_prefix h.m_key_index) × (len ≡ length text)
  unfolding get_key SamePrefix key_text
  get_key_lem iter g {text} {len} {h} e short u64 =
      go (get_key_index out iter g) (get_key_index-prefix iter g) e
    where
      go :
          (r : Option (ℕ × Generator out))
          → SamePrefix g r
          → with_key out r ≡ some (text, len, h)
          → (text ≡ key_text g.m_key_prefix h.m_key_index) × (len ≡ length text)
      go none p q = cc
      go (some (k, g')) p q =
          let T = key_text g'.m_key_prefix k in
          let parts = some-injective _ _ q in
          let index : k ≡ h.m_key_index = ap (λ r. r.2.m_key_index) parts in
          let same : T ≡ c_str g.m_key_prefix ++ print_u h.m_key_index =
            (λ i. c_str (p i) ++ print_u (index i)) in
          let size : length T ≤ 248 = omega (
            arith,
            ap length same,
            length-append (c_str g.m_key_prefix) (print_u h.m_key_index),
            length-print_u_u64 h.m_key_index u64,
          ) in
          let whole : T ≡ text = sym (take_all 248 T size) ∙ ap (λ r. r.0) parts in
          (
            sym whole ∙ same,
            sym (ap (λ r. r.1) parts) ∙ (mod-eq_of_lt (omega (arith, size)) ∙ ap length whole),
          )

  -- Two calls of get_key, of any generators with the same prefix of 228 bytes at most, give the same text
  -- only for the same index; the text is the prefix and the digits of the index, and the length is that
  -- of the text.
  pub get_key-distinct :
      (iter iter' : Iter) (g g' : Generator out) {text text' : Bytes} {len len' : ℕ}
      {h h' : Generator out}
      → get_key out iter g ≡ some (text, len, h)
      → get_key out iter' g' ≡ some (text', len', h')
      → g'.m_key_prefix ≡ g.m_key_prefix
      → length (c_str g.m_key_prefix) ≤ 228
      → h.m_key_index < u64_mod
      → h'.m_key_index < u64_mod
      → (text ≡ c_str g.m_key_prefix ++ print_u h.m_key_index)
        × (len ≡ length text)
        × (text ≡ text' → h.m_key_index ≡ h'.m_key_index)
  unfolding key_text
  get_key-distinct iter iter' g g' {h} {h'} e e' same short u u' =
      let (a, b) = get_key_lem iter g e short u in
      let (c, d) = get_key_lem iter' g' e' (rw same short) u' in
      (
        a,
        b,
        λ q.
            key_text-injective g.m_key_prefix h.m_key_index h'.m_key_index u u'
              (sym a ∙ q ∙ c ∙ (λ i. c_str (same i) ++ print_u h'.m_key_index)),
      )
