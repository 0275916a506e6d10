-- ===== src/JsonHandler/Tree.antt =====
-- A tree of results, the calls of json_handler that write it, and its JSON text.
use memtier_skewsyn.Prelude.{
  ℕ, zero, suc, ◌≡◌, refl, ap, ◌||◌, [], ◌∷◌, ◌++◌, Option, arith, Bytes, ◌==◌, if◌then◌else◌,
  replicate,
}
use memtier_skewsyn.JsonHandler.{
  NestedType, JsonHandler, drop_last, nest_start, nest_end, title, title_of, write_obj,
  open_nesting, close_nesting,
}

-- A tree of results, and the calls that write it.
mutual
  pub data Element : Type 0 where
    value : Bytes → Bytes → Element
    nest : Option Bytes → NestedType → Elements → Element

  pub data Elements : Type 0 where
    nil : Elements
    cons : Element → Elements → Elements

unfoldable mutual
  pub emit : Element → JsonHandler → JsonHandler
  emit (value name text) h = write_obj name text h
  emit (nest name type es) h = close_nesting (emit_all es (open_nesting name type h))

  pub emit_all : Elements → JsonHandler → JsonHandler
  emit_all nil h = h
  emit_all (cons e es) h = emit_all es (emit e h)

-- The JSON text, with commas between the elements only.
unfoldable mutual
  pub render : Element → Bytes
  render (value name text) = title name ++ (b' ' ∷ text)
  render (nest name type es) =
      (title_of name ++ nest_start type) ++ (render_all es ++ nest_end type)

  pub render_all : Elements → Bytes
  render_all nil = []
  render_all (cons e es) = render e ++ render_rest es

  pub render_rest : Elements → Bytes
  render_rest nil = []
  render_rest (cons e es) = b',' ∷ (render e ++ render_rest es)

-- Without line ends and tabs.
abbrev pub strip : Bytes → Bytes
strip [] = []
strip (c ∷ cs) = let rest = strip cs in if c == b'\n' || c == b'\t' then rest else c ∷ rest

pub strip-append : (a b : Bytes) → strip (a ++ b) ≡ strip a ++ strip b
strip-append [] b = refl
strip-append (c ∷ a) b = ground (arith, strip-append a b)

pub strip-tabs : (n : ℕ) → strip (replicate n b'\t') ≡ []
strip-tabs zero = refl
strip-tabs (suc n) = strip-tabs n

pub drop_last-append : (x : Bytes) (c : ℕ) → drop_last (x ++ (c ∷ [])) ≡ x
drop_last-append [] c = refl
drop_last-append (d ∷ []) c = refl
drop_last-append (d ∷ e ∷ x) c = ap (◌∷◌ d) (drop_last-append (e ∷ x) c)

pub replicate_last : (n a : ℕ) → replicate (suc n) a ≡ replicate n a ++ (a ∷ [])
replicate_last zero a = refl
replicate_last (suc n) a = ap (◌∷◌ a) (replicate_last n a)
