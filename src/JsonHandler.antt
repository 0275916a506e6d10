-- ===== src/JsonHandler.antt =====
-- JSON_handler.h and JSON_handler.cpp: the writer of the results.
pub mod Tree
pub mod Output
use memtier_skewsyn.Prelude.{
  ℕ, zero, suc, ◌+◌, Bool, true, false, List, [], ◌∷◌, ◌++◌, Option, none, some, Bytes, codes, ltb,
  if◌then◌else◌, length, replicate,
}

-- eJSON_NESTED_TYPE
pub data NestedType : Type 0 where
  nested_general nested_array : NestedType

-- class json_handler: the content of the file, whose position is its end, and the open nestings, the last first.
pub record JsonHandler : Type 0 where
  pub m_json_file : Bytes
  pub m_nest_closer_types : List NestedType

-- fseek one byte back, in front of a write
abbrev pub drop_last : Bytes → Bytes
drop_last [] = []
drop_last (c ∷ []) = []
drop_last (c ∷ d ∷ cs) = c ∷ drop_last (d ∷ cs)

abbrev pub nest_start : NestedType → Bytes
nest_start nested_general = b'{' ∷ []
nest_start nested_array = b'[' ∷ []

abbrev pub nest_end : NestedType → Bytes
nest_end nested_general = b'}' ∷ []
nest_end nested_array = b']' ∷ []

abbrev print : Bytes → JsonHandler → JsonHandler
print text h = record h { m_json_file = h.m_json_file ++ text }

-- json_handler::beutify
unfoldable pub beutify : Bool → JsonHandler → JsonHandler
beutify only_tabs h =
    print ((if only_tabs then [] else b'\n' ∷ []) ++ replicate (length h.m_nest_closer_types) b'\t')
      h

-- json_handler::json_handler, for a file that opens
unfoldable pub new_handler : JsonHandler
unfolding beutify
new_handler =
    beutify false (record { m_json_file = b'{' ∷ []; m_nest_closer_types = nested_general ∷ [] })

abbrev pub title : Bytes → Bytes
title name = b'"' ∷ (name ++ (b'"' ∷ b':' ∷ []))

abbrev pub title_of : Option Bytes → Bytes
title_of none = []
title_of (some name) = title name

-- json_handler::write_obj of the formatted text
unfoldable pub write_obj : Bytes → Bytes → JsonHandler → JsonHandler
unfolding beutify
write_obj objectname text h =
    print (b',' ∷ []) (beutify false (print (title objectname ++ (b' ' ∷ text)) h))

-- json_handler::open_nesting
unfoldable pub open_nesting : Option Bytes → NestedType → JsonHandler → JsonHandler
unfolding beutify
open_nesting objectname type h = beutify false (record h {
  m_json_file = h.m_json_file ++ (title_of objectname ++ nest_start type);
  m_nest_closer_types = type ∷ h.m_nest_closer_types;
})

close_last : List NestedType → JsonHandler → JsonHandler
unfolding beutify
close_last [] h = h
close_last (type ∷ outer) h =
    let closed = beutify false (record {
      m_json_file = drop_last h.m_json_file ++ nest_end type;
      m_nest_closer_types = outer;
    }) in
    if ltb 1 (length (type ∷ outer)) then print (b',' ∷ []) closed else closed

-- json_handler::close_nesting, without the number of levels that it returns
unfoldable pub close_nesting : JsonHandler → JsonHandler
unfolding close_last
close_nesting h = close_last h.m_nest_closer_types h

-- json_handler::~json_handler: close_nesting until no level is left, which takes as many calls as there are levels.
close_all : ℕ → JsonHandler → JsonHandler
close_all zero h = h
close_all (suc n) h = close_all n (close_nesting h)

unfoldable pub finish : JsonHandler → JsonHandler
unfolding close_all
finish h = close_all (length h.m_nest_closer_types) h
