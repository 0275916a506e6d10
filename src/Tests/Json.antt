-- ===== src/Tests/Json.antt =====
-- A small tree of results, written.
use memtier_skewsyn.Prelude.{◌≡◌, [], some, none, codes}
use memtier_skewsyn.JsonHandler.{nested_general, nested_array, new_handler, finish}
use memtier_skewsyn.JsonHandler.Tree.{Elements, value, nest, nil, cons, emit_all, render_all, strip}
use memtier_skewsyn.JsonHandler.Output.{finish-render}

abbrev results : Elements
results =
    cons (value (codes "runs") (codes "1"))
      (cons (nest (some (codes "sets")) nested_array (cons (nest none nested_general nil) nil)) nil)

finish-render_example :
    let h = finish (emit_all results new_handler) in
    (strip h.m_json_file ≡ codes "{\"runs\": 1,\"sets\":[{}]}") × (h.m_nest_closer_types ≡ [])
unfolding render_all
finish-render_example = finish-render results
