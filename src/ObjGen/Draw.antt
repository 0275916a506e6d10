-- ===== src/ObjGen/Draw.antt =====
-- object_generator::get_key_index never fails for a generator with a range of keys.
use memtier_skewsyn.Prelude.{
  ℕ, ◌+◌, ◌-◌, ◌<◌, ◌≤◌, ◌≡◌, refl, false, inl, inr, List, some, arith, leb, length, length-append,
  set, get_or, [], ◌∷◌, zero, suc,
}
use memtier_skewsyn.CLib.{u64_mod, c_str, print_u}
use memtier_skewsyn.ObjGen.{
  Outside, Generator, Iter, key_random, key_gaussian, key_iter, key_iterators, next_key, key_after,
  get_key_index, key_text,
}
use memtier_skewsyn.ObjGen.Keys.{IsCall, random_range-InRange, normal_cases}
use memtier_skewsyn.ObjGen.KeyText.{length-print_u_u64}

-- The text of a key with a prefix of 228 bytes at most fits in the buffer.
pub length-key_text :
    (prefix : List ℕ) (k : ℕ)
    → length (c_str prefix) ≤ 228
    → k < u64_mod
    → length (key_text prefix k) ≤ 248
unfolding key_text
length-key_text prefix k h u =
    omega (arith, length-append (c_str prefix) (print_u k), length-print_u_u64 k u)

get_or-set-le :
    (xs : List ℕ) (i v j m : ℕ) → v ≤ m → get_or xs j 0 ≤ m → get_or (set xs i v) j 0 ≤ m
get_or-set-le [] i v j m h k = k
get_or-set-le (x ∷ xs) zero v zero m h k = h
get_or-set-le (x ∷ xs) zero v (suc j) m h k = k
get_or-set-le (x ∷ xs) (suc i) v zero m h k = k
get_or-set-le (x ∷ xs) (suc i) v (suc j) m h k = get_or-set-le xs i v j m h k

module _ (out : Outside) where
  -- The range of keys is one that random_range can take, no iterator is above it, and get_key_index keeps
  -- its assertions for the iterator.
  pub record CanDraw (iter : Iter) (g : Generator out) : Type 0 where
    pub ordered : g.m_key_min ≤ g.m_key_max
    pub bounded : g.m_key_max < u64_mod
    pub span : g.m_key_max - g.m_key_min + 1 < u64_mod
    pub call : IsCall out g iter
    pub next : (i : ℕ) → get_or g.m_next_key i 0 ≤ g.m_key_max

  -- The normal distribution gives no key above the range.
  abbrev pub IsGaussian : Type 0
  IsGaussian =
      (stddev median a b : ℕ) (s : out.State) → a ≤ b → (out.gaussian stddev median a b s).0 ≤ b

  -- A draw gives the index of a key, and keeps what the generator is set to.
  pub record Draws (iter : Iter) (g : Generator out) : Type 0 where
    pub index : ℕ
    pub after : Generator out
    pub gives : get_key_index out iter g ≡ some (index, after)
    pub small : index ≤ g.m_key_max
    pub can_draw : CanDraw iter after
    pub prefix : after.m_key_prefix ≡ g.m_key_prefix

  pub draws : IsGaussian → (iter : Iter) (g : Generator out) → CanDraw iter g → Draws iter g
  unfolding get_key_index
  draws gauss key_random g c =
      let (k, s, e, lo, hi) =
        random_range-InRange out g.m_key_min g.m_key_max g c.ordered c.bounded c.span in
      record {
        index = k;
        after = record g { m_random = s };
        gives = e;
        small = hi;
        can_draw = record {
          ordered = c.ordered;
          bounded = c.bounded;
          span = c.span;
          call = tt;
          next = c.next;
        };
        prefix = refl;
      }
  draws gauss key_gaussian g c = elim (normal_cases out g c.ordered c.bounded c.call) [
    | inl e ↦ record {
      index = g.m_key_min;
      after = g;
      gives = rw e refl;
      small = c.ordered;
      can_draw = c;
      prefix = refl;
    }
    | inr e ↦
        let (k, s) =
          out.gaussian g.m_key_stddev g.m_key_median g.m_key_min g.m_key_max g.m_random in
        record {
          index = k;
          after = record g { m_random = s };
          gives = rw e refl;
          small = gauss _ _ _ _ _ c.ordered;
          can_draw = record {
            ordered = c.ordered;
            bounded = c.bounded;
            span = c.span;
            call = c.call;
            next = c.next;
          };
          prefix = refl;
        }
  ]
  draws gauss (key_iter n) g c = record {
    index = next_key out n g;
    after = record g { m_next_key = set g.m_next_key n (key_after out (next_key out n g) g) };
    gives = rw (let z : leb key_iterators n ≡ false = ground (arith, c.call) in z) refl;
    small = ground (arith, c.next n, c.ordered);
    can_draw = record {
      ordered = c.ordered;
      bounded = c.bounded;
      span = c.span;
      call = c.call;
      next = λ j.
          get_or-set-le g.m_next_key n (key_after out (next_key out n g) g) j g.m_key_max
            (ground (arith, c.ordered)) (c.next j);
    };
    prefix = refl;
  }
