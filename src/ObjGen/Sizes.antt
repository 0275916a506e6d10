-- ===== src/ObjGen/Sizes.antt =====
-- The sizes of the values of object_generator, and its value buffer.
use memtier_skewsyn.Prelude.{
  ℕ, suc, ◌+◌, ◌<◌, ◌≤◌, ◌≡◌, refl, sym, ap, ◌∙◌, false, inl, inr, Option, some, arith, Bytes, ltb,
  leb, true, ◌%◌, get_or, set, if◌then◌else◌, Bool-cases, length, length-set, mod-eq_of_lt,
}
use mathlib.Core.Path.{subst}
use memtier_skewsyn.CLib.{u32_mod}
use memtier_skewsyn.Config.{WeightList, largest, largest_from, get_next_size}
use memtier_skewsyn.Config.Circle.{total}
use memtier_skewsyn.Config.Draws.{IsCursor, get_next_size-Draws}
use memtier_skewsyn.Config.Largest.{get_next_size-le-largest}
use memtier_skewsyn.ObjGen.{
  Outside, Generator, DataSize, size_unknown, size_fixed, size_range, size_list, buffer_size,
}
use memtier_skewsyn.ObjGen.Values.{
  is_sloped, ranged_size, listed_size, size_of, new_size, mutate, sized_value, get_value,
}
use memtier_skewsyn.ObjGen.Keys.{random_range-InRange}

-- The sizes that can be asked for: a range that is not empty and fits an unsigned int, or a list of
-- weights that are not all zero.
abbrev pub IsUsable : DataSize → Type 0
IsUsable size_unknown = ¬ Unit
IsUsable (size_fixed n) = Unit
IsUsable (size_range size_min size_max) =
    (size_min ≤ size_max) × (0 < size_max) × (size_max < u32_mod)
IsUsable (size_list l) = IsCursor l × (0 < total l.item_list)

module _ (out : Outside) where
  -- The buffer is as long as the sizes ask for, no size is computed with floating point, and the byte that
  -- is changed next, where bytes are changed, is in the buffer.
  pub record IsReady (g : Generator out) : Type 0 where
    pub allocated : length g.m_value_buffer ≡ buffer_size g.m_data_size
    pub usable : IsUsable g.m_data_size
    pub no_slope : is_sloped out g.m_data_size_pattern ≡ false
    pub in_buffer : g.m_random_data ≡ true → g.m_value_buffer_mutation_pos < length g.m_value_buffer

  record Sized (g : Generator out) (r : Option (ℕ × Generator out)) : Type 0 where
    size : ℕ
    after : Generator out
    returned : r ≡ some (size, after)
    fits : size ≤ length after.m_value_buffer
    ready : IsReady after

  ranged_size-Sized :
      (k a b : ℕ) (g : Generator out)
      → g.m_data_size ≡ size_range a b
      → IsReady g
      → Sized g (ranged_size out k a b g)
  ranged_size-Sized k a b g e r =
      let (le, pos, u32) = subst IsUsable e r.usable in
      let low = (if ltb 0 a then a else 1) in
      let (n, s, eq, _, top) =
        random_range-InRange out low b g (ground arith) (omega arith) (ground arith) in
      record {
        size = n;
        after = record g { m_random = s };
        returned =
            rw (r.no_slope, eq)
              (ap {B = Option (ℕ × Generator out)} (λ (m : ℕ). some (m, record g { m_random = s }))
                (mod-eq_of_lt (omega (arith, top))));
        fits = omega (arith, top, r.allocated, ap buffer_size e);
        ready = record {
          allocated = r.allocated;
          usable = r.usable;
          no_slope = r.no_slope;
          in_buffer = r.in_buffer;
        };
      }

  listed_size-Sized :
      (l : WeightList) (g : Generator out)
      → g.m_data_size ≡ size_list l
      → IsReady g
      → Sized g
          (listed_size out g (get_next_size (suc (length l.item_list + length l.item_list)) l))
  unfolding largest
  listed_size-Sized l g e r =
      let (cursor, some_weight) = subst IsUsable e r.usable in
      let d = get_next_size-Draws l cursor some_weight in
      let same : largest d.after ≡ largest l = ap (largest_from 0) d.kept in
      record {
        size = d.size;
        after = record g { m_data_size = size_list d.after };
        returned = ap (listed_size out g) d.returned;
        fits =
            omega (arith, get_next_size-le-largest _ l d.returned, r.allocated, ap buffer_size e);
        ready = record {
          allocated = r.allocated ∙ ap buffer_size e ∙ sym same;
          usable = (d.cursor, rw d.kept some_weight);
          no_slope = r.no_slope;
          in_buffer = r.in_buffer;
        };
      }

  size_of-Sized :
      (d : DataSize) (k : ℕ) (g : Generator out)
      → g.m_data_size ≡ d
      → IsReady g
      → Sized g (size_of out d k g)
  unfolding size_of
  size_of-Sized size_unknown k g e r = absurd (subst IsUsable e r.usable tt)
  size_of-Sized (size_fixed n) k g e r = record {
    size = n;
    after = g;
    returned = refl;
    fits = omega (arith, r.allocated, ap buffer_size e);
    ready = r;
  }
  size_of-Sized (size_range a b) k g e r = ranged_size-Sized k a b g e r
  size_of-Sized (size_list l) k g e r = listed_size-Sized l g e r

  mutate-IsReady :
      (g : Generator out)
      → IsReady g
      → (h : Generator out) × (mutate out g ≡ some h)
        × (length h.m_value_buffer ≡ length g.m_value_buffer)
        × IsReady h
  unfolding mutate
  mutate-IsReady g r = elim (Bool-cases g.m_random_data) [
    | inl e ↦
        let p = g.m_value_buffer_mutation_pos in
        let fits = r.in_buffer e in
        let buffer = set g.m_value_buffer p ((get_or g.m_value_buffer p 0 + 1) % 256) in
        let same : length buffer ≡ length g.m_value_buffer = length-set g.m_value_buffer p _ in
        let place = (if leb (length g.m_value_buffer) (p + 1) then 0 else p + 1) in
        (
          record g { m_value_buffer = buffer; m_value_buffer_mutation_pos = place },
          rw (e, (let z : ltb p (length g.m_value_buffer) ≡ true = ground (arith, fits) in z)) refl,
          same,
          record {
            allocated = same ∙ r.allocated;
            usable = r.usable;
            no_slope = r.no_slope;
            in_buffer = λ _. rw same (ground (arith, fits));
          },
        )
    | inr e ↦ (g, rw e refl, refl, r)
  ]

  -- A generator that is ready always gives a value: the byte that is changed is in the buffer, the length is
  -- within the buffer that it is given with, and the generator is ready for the next.
  pub get_value-IsReady :
      (key_index : ℕ) (g : Generator out)
      → IsReady g
      → (buffer : Bytes) × (n : ℕ) × (h : Generator out) × (get_value out key_index g
          ≡ some (buffer, n, h))
        × (n ≤ length buffer)
        × (buffer ≡ h.m_value_buffer)
        × IsReady h
  unfolding get_value new_size
  get_value-IsReady key_index g r =
      let d = size_of-Sized g.m_data_size key_index g refl r in
      let (h, e, same, ready) = mutate-IsReady d.after d.ready in
      (
        h.m_value_buffer,
        d.size,
        h,
        ap (sized_value out) d.returned ∙ rw (e, sized_value) refl,
        omega (arith, d.fits, same),
        refl,
        ready,
      )
