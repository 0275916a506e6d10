-- ===== src/JsonHandler/Output.antt =====
-- What the calls of json_handler write: the JSON text of a tree, but for line ends and tabs.
use memtier_skewsyn.Prelude.{
  ℕ, suc, ◌≡◌, refl, sym, ap, ◌∙◌, true, List, [], ◌∷◌, ◌++◌, Option, arith, Bytes, ltb, length,
  replicate, append_assoc, append-nil,
}
use memtier_skewsyn.JsonHandler.{
  NestedType, nested_general, JsonHandler, nest_start, nest_end, title, title_of, beutify,
  new_handler, write_obj, open_nesting, close_last, close_nesting, close_all, finish,
}
use memtier_skewsyn.JsonHandler.Tree.{
  Element, value, nest, Elements, nil, cons, emit, emit_all, render, render_all, render_rest, strip,
  strip-append, strip-tabs, drop_last-append, replicate_last,
}

nested_text : (a b c d : Bytes) → ((a ++ b) ++ c) ++ d ≡ a ++ (b ++ (c ++ d))
nested_text a b c d = append_assoc (a ++ b) c d ∙ append_assoc a b (c ++ d)

abbrev handler : Bytes → List NestedType → JsonHandler
handler file types = record { m_json_file = file; m_nest_closer_types = types }

abbrev space : ℕ → Bytes
space n = b'\n' ∷ replicate n b'\t'

strip-space : (a : Bytes) (n : ℕ) → strip (a ++ space n) ≡ strip a
strip-space a n =
    strip-append a (space n) ∙ ap (◌++◌ (strip a)) (strip-tabs n) ∙ append-nil (strip a)

-- The element stands at the end of the file, but for a comma.
record Stands (file : Bytes) (types : List NestedType) (body : Bytes) (h : JsonHandler)
    : Type 0 where
  front : Bytes
  written : h ≡ handler (front ++ (b',' ∷ [])) types
  text : strip front ≡ strip file ++ strip body

-- The elements stand at the end of the file, but for one more byte.
record StandsAll (file : Bytes) (types : List NestedType) (body : Bytes) (h : JsonHandler)
    : Type 0 where
  front : Bytes
  last : ℕ
  written : h ≡ handler (front ++ (last ∷ [])) types
  text : strip front ≡ strip file ++ strip body

value_lem :
    (name text file : Bytes) (types : List NestedType)
    → Stands file types (render (value name text)) (emit (value name text) (handler file types))
unfolding emit render write_obj beutify
value_lem name text file types = record {
  front = (file ++ (title name ++ (b' ' ∷ text))) ++ space (length types);
  written = refl;
  text =
      strip-space (file ++ (title name ++ (b' ' ∷ text))) (length types)
      ∙ strip-append file (title name ++ (b' ' ∷ text));
}

open_lem :
    (name : Option Bytes) (type : NestedType) (file : Bytes) (types : List NestedType)
    → open_nesting name type (handler file types)
      ≡ handler
          (((file ++ (title_of name ++ nest_start type)) ++ space (length types)) ++ (b'\t' ∷ []))
          (type ∷ types)
unfolding open_nesting beutify
open_lem name type file types =
    ap (λ s. handler ((file ++ (title_of name ++ nest_start type)) ++ (b'\n' ∷ s)) (type ∷ types))
      (replicate_last (length types) b'\t')
    ∙ ap (λ s. handler s (type ∷ types))
        (sym (
          append_assoc (file ++ (title_of name ++ nest_start type)) (space (length types))
            (b'\t' ∷ [])))

close_lem :
    (x : Bytes) (c : ℕ) (type t : NestedType) (types : List NestedType)
    → close_nesting (handler (x ++ (c ∷ [])) (type ∷ t ∷ types))
      ≡ handler (((x ++ nest_end type) ++ space (suc (length types))) ++ (b',' ∷ [])) (t ∷ types)
unfolding close_nesting close_last beutify
close_lem x c type t types =
    rw (let z : ltb 1 (suc (suc (length types))) ≡ true = ground arith in z) (
      ap
        (λ s.
          handler (((s ++ nest_end type) ++ space (suc (length types))) ++ (b',' ∷ [])) (t ∷ types))
        (drop_last-append x c))

mutual
  unfolding emit render

  emit_lem :
      (e : Element) (file : Bytes) (t : NestedType) (types : List NestedType)
      → Stands file (t ∷ types) (render e) (emit e (handler file (t ∷ types)))
  emit_lem (value name text) file t types = value_lem name text file (t ∷ types)
  emit_lem (nest name type es) file t types =
      let start = title_of name ++ nest_start type in
      let y = (file ++ start) ++ space (suc (length types)) in
      let b = body_lem es y type (t ∷ types) in
      record {
        front = (b.front ++ nest_end type) ++ space (suc (length types));
        written =
            ap (λ h. close_nesting (emit_all es h)) (open_lem name type file (t ∷ types))
            ∙ ap close_nesting b.written
            ∙ close_lem b.front b.last type t types;
        text =
            strip-space (b.front ++ nest_end type) (suc (length types))
            ∙ strip-append b.front (nest_end type)
            ∙ ap (λ s. s ++ strip (nest_end type))
                (b.text
                  ∙ ap (λ s. s ++ strip (render_all es))
                      (strip-space (file ++ start) (suc (length types)) ∙ strip-append file start))
            ∙ nested_text (strip file) (strip start) (strip (render_all es)) (strip (nest_end type))
            ∙ ap (λ s. strip file ++ s)
                (sym (
                  strip-append start (render_all es ++ nest_end type)
                  ∙ ap (λ s. strip start ++ s) (strip-append (render_all es) (nest_end type))));
      }

  body_lem :
      (es : Elements) (y : Bytes) (t : NestedType) (types : List NestedType)
      → StandsAll y
          (t ∷ types)
          (render_all es)
          (emit_all es (handler (y ++ (b'\t' ∷ [])) (t ∷ types)))
  body_lem nil y t types = record {
    front = y;
    last = b'\t';
    written = refl;
    text = sym (append-nil (strip y));
  }
  body_lem (cons e es) y t types =
      let d = emit_lem e (y ++ (b'\t' ∷ [])) t types in
      let r = rest_lem es d.front t types in
      record {
        front = r.front;
        last = b',';
        written = ap (emit_all es) d.written ∙ r.written;
        text =
            r.text
            ∙ ap (λ s. s ++ strip (render_rest es))
                (d.text
                  ∙ ap (λ s. s ++ strip (render e))
                      (strip-append y (b'\t' ∷ []) ∙ append-nil (strip y)))
            ∙ append_assoc (strip y) (strip (render e)) (strip (render_rest es))
            ∙ ap (λ s. strip y ++ s) (sym (strip-append (render e) (render_rest es)));
      }

  rest_lem :
      (es : Elements) (x : Bytes) (t : NestedType) (types : List NestedType)
      → Stands x (t ∷ types) (render_rest es) (emit_all es (handler (x ++ (b',' ∷ [])) (t ∷ types)))
  rest_lem nil x t types = record { front = x; written = refl; text = sym (append-nil (strip x)) }
  rest_lem (cons e es) x t types =
      let d = emit_lem e (x ++ (b',' ∷ [])) t types in
      let r = rest_lem es d.front t types in
      record {
        front = r.front;
        written = ap (emit_all es) d.written ∙ r.written;
        text =
            r.text
            ∙ ap (λ s. s ++ strip (render_rest es))
                (d.text ∙ ap (λ s. s ++ strip (render e)) (strip-append x (b',' ∷ [])))
            ∙ nested_text (strip x) (b',' ∷ []) (strip (render e)) (strip (render_rest es))
            ∙ ap (λ s. strip x ++ (b',' ∷ s)) (sym (strip-append (render e) (render_rest es)));
      }

finish_lem :
    (x : Bytes) (c : ℕ)
    → finish (handler (x ++ (c ∷ [])) (nested_general ∷ []))
      ≡ handler ((x ++ (b'}' ∷ [])) ++ space 0) []
unfolding finish close_all close_nesting close_last beutify
finish_lem x c = ap (λ s. handler ((s ++ (b'}' ∷ [])) ++ space 0) []) (drop_last-append x c)

-- However the results are nested, the handler, when it is made, called for each of them and destroyed, has written an
-- object that holds them, with commas between the elements only and every nesting closed by its own bracket, but for
-- line ends and tabs; no nesting is left open.
pub finish-render :
    (es : Elements)
    → let h = finish (emit_all es new_handler) in
      (strip h.m_json_file ≡ strip (b'{' ∷ (render_all es ++ (b'}' ∷ []))))
      × (h.m_nest_closer_types ≡ [])
unfolding new_handler beutify
finish-render es =
    let b = body_lem es (b'{' ∷ b'\n' ∷ []) nested_general [] in
    let whole : finish (emit_all es new_handler)
        ≡ handler ((b.front ++ (b'}' ∷ [])) ++ space 0) [] =
      ap finish b.written ∙ finish_lem b.front b.last in
    (
      ap (λ h. strip h.m_json_file) whole
          ∙ strip-space (b.front ++ (b'}' ∷ [])) 0
          ∙ strip-append b.front (b'}' ∷ [])
          ∙ ap (λ s. s ++ (b'}' ∷ [])) b.text
          ∙ sym (strip-append (b'{' ∷ render_all es) (b'}' ∷ [])),
      ap (λ h. h.m_nest_closer_types) whole,
    )
