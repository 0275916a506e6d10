-- ===== src/Tests/Protocol.antt =====
-- The protocols at concrete replies and commands.
use memtier_skewsyn.Prelude.{
  ℕ, List, none, get_elem?, ◌+◌, ◌≡◌, refl, true, false, [], ◌∷◌, ◌++◌, some, arith, codes, length,
}
use memtier_skewsyn.CLib.{print_u}
use memtier_skewsyn.Tests.Buffer.{list_evbuffer, list_laws}
use memtier_skewsyn.Protocol.Base.{MbulkElement, cleared, complete, incomplete}
use memtier_skewsyn.Protocol.Redis.{Redis, rs_initial, parse_response}
use memtier_skewsyn.Protocol.Redis.Single.{waiting, header, after_bulk, parse_bulk_split}
use memtier_skewsyn.Protocol.Redis.Reply.{Items, one, more, int, bulk, arr, encode_all, count}
use memtier_skewsyn.Protocol.Redis.Holds.{HoldsAll}
use memtier_skewsyn.Protocol.Redis.Elements.{inside}
use memtier_skewsyn.Protocol.Redis.Array.{parse_array, parse_array_bulk_lost}
use memtier_skewsyn.Protocol.Redis.Command.{write_command_set}
use memtier_skewsyn.Protocol.Redis.Command.Wire.{command_wire, set_args, write_command_set-Writes}
use memtier_skewsyn.Protocol.Text
use memtier_skewsyn.Protocol.Text.{Text}
use memtier_skewsyn.Protocol.Text.Wire.{Value, IsSent, wire}
use memtier_skewsyn.Protocol.Text.Values.{parse_values, parse_values_aborts}
use memtier_skewsyn.Protocol.Text.Values

abbrev pub redis : Redis
redis = record {
  m_read_buf = [];
  m_write_buf = [];
  m_keep_value = true;
  m_last_response = cleared;
  m_response_state = rs_initial;
  m_bulk_len = 0;
  m_response_len = 0;
  mbulk = record { store = []; levels = [] };
}

parse_bulk_split_example :
    (q : Redis) × (parse_response list_evbuffer
        (waiting (header b'$' 3 ++ (b'\r' ∷ b'\n' ∷ codes "ab")) redis)
      ≡ (incomplete, q))
    × (parse_response list_evbuffer
          (record q { m_read_buf = q.m_read_buf ++ (codes "c\r\n" ++ codes "+OK") })
        ≡ (
          complete,
          after_bulk list_evbuffer list_laws (header b'$' 3) (codes "abc") (codes "+OK") redis,
        ))
unfolding print_u
parse_bulk_split_example =
    parse_bulk_split list_evbuffer list_laws redis (codes "abc") (codes "ab") (codes "c\r\n")
      (codes "+OK") (omega arith) refl (cc)

-- Two slots, one of them with a nested address.
abbrev slots : Items
slots =
    more (int (codes "0"))
      (more (arr (more (bulk (codes "host")) (one (int (codes "6379"))))) (one (int (codes "9"))))

parse_array_example :
    (q : Redis) × (parse_response list_evbuffer (
        waiting
          (header b'*' (count slots) ++ (b'\r' ∷ b'\n' ∷ encode_all slots (codes "+OK")))
          redis)
      ≡ (complete, q))
    × (q.m_read_buf ≡ codes "+OK")
    × (q.m_response_state ≡ rs_initial)
    × (q.mbulk.levels ≡ [])
    × ((ids : List ℕ) × (get_elem? q.mbulk.store 0
          ≡ some (record { value = none; value_len = 0; mbulk_array = ids }))
        × HoldsAll q.mbulk.store 1 ids slots)
    × ((i : ℕ) (e : MbulkElement)
        → get_elem? redis.mbulk.store i ≡ some e
        → get_elem? q.mbulk.store i ≡ some e)
    × (q.m_last_response.m_mbulk_value ≡ some 0)
    × (q.m_last_response.m_error ≡ false)
unfolding count
parse_array_example =
    parse_array list_evbuffer list_laws redis slots (codes "+OK") (omega arith)
      ((refl, refl), ((omega arith, (omega arith, (refl, refl))), (refl, refl)))

parse_array_bulk_lost_example :
    parse_response list_evbuffer
      (inside (header b'$' 3 ++ (b'\r' ∷ b'\n' ∷ codes "ab")) redis.mbulk redis)
    ≡ (
      incomplete,
      inside (codes "ab") redis.mbulk (record redis { m_bulk_len = 3; m_response_len = 2 }),
    )
unfolding print_u
parse_array_bulk_lost_example =
    parse_array_bulk_lost list_evbuffer list_laws redis redis.mbulk 3 (codes "ab") (omega arith)
      (omega arith)

write_command_set-Writes_example :
    let text = command_wire (set_args (codes "k") (codes "v") 60 0) in
    write_command_set list_evbuffer (codes "k") (codes "v") 60 0 [] ≡ some (text, length text)
write_command_set-Writes_example =
    write_command_set-Writes list_evbuffer list_laws [] (codes "k") (codes "v") 60 0

abbrev text : Text
text = record {
  m_read_buf = [];
  m_write_buf = [];
  m_keep_value = false;
  m_last_response = cleared;
  m_response_state = Text.rs_initial;
  m_value_len = 0;
  m_response_len = 0;
}

abbrev stored : Value
stored = record { key = codes "k1"; flags = 0; content = codes "data" }

stored-IsSent : IsSent stored
stored-IsSent = record {
  key_word = (refl, (refl, tt));
  key_ne_nil = λ e. cc;
  key_short = omega arith;
  flags_fit = omega arith;
  content_fits = omega arith;
}

parse_values_example :
    (q : Text) × (Text.parse_response list_evbuffer (
        Values.waiting list_evbuffer list_laws false
          (wire (stored ∷ stored ∷ []) (codes "END"))
          text)
      ≡ (complete, q))
    × (q.m_read_buf ≡ codes "END")
    × (q.m_response_state ≡ Text.rs_initial)
    × (q.m_last_response.m_hits ≡ 2)
    × (q.m_last_response.m_error ≡ false)
    × (q.m_last_response.m_total_len + 3 ≡ length (wire (stored ∷ stored ∷ []) (codes "END")))
unfolding print_u
parse_values_example =
    parse_values list_evbuffer list_laws text (stored ∷ stored ∷ []) (codes "END")
      (stored-IsSent, (stored-IsSent, tt)) (omega arith)
