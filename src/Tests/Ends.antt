-- ===== src/Tests/Ends.antt =====
-- The parsers at contents that are no whole reply, the setup of clients, and a connection that breaks.
use memtier_skewsyn.Prelude.{
  ℕ, suc, ◌+◌, ◌-◌, ◌*◌, ◌%◌, ◌^◌, ◌<◌, ◌≤◌, ◌≡◌, refl, true, false, Bool, List, [], ◌∷◌, ◌++◌,
  some, arith, codes, ltb, if◌then◌else◌,
}
use memtier_skewsyn.Protocol.Base.{cleared, incomplete, new_array}
use memtier_skewsyn.Protocol.Base.Ends.{IsAnswer, IsEnd}
use memtier_skewsyn.Protocol.Redis as R
use memtier_skewsyn.Protocol.Redis.{Redis, rs_read_mbulk}
use memtier_skewsyn.Protocol.Redis.Single.{waiting, header}
use memtier_skewsyn.Protocol.Redis.Ends.{IsOpened, redis-answers}
use memtier_skewsyn.Protocol.Redis.Empty.{parse_array-empty}
use memtier_skewsyn.Protocol.Text as T
use memtier_skewsyn.Protocol.Text.{Text, rs_read_value}
use memtier_skewsyn.Protocol.Text.Ends.{text-ends}
use memtier_skewsyn.Client.Setup.{SetupConfig, Conns, prepared, key_range, prepare}
use memtier_skewsyn.Client.Setup.KeyRanges.{IsUsual, size, key_range-covers}
use memtier_skewsyn.Client.Setup.Skew.{clients, trues, prepare-places}
use memtier_skewsyn.ShardConnection.{new_connection, is_conn_setup_done}
use memtier_skewsyn.ShardConnection.Fill.{Outside, System, write_failed, fill_loop, fill_pipeline}
use memtier_skewsyn.ShardConnection.Event.{
  EventType, EventIo, no_more, aborts, first_request, handle_event,
}
use memtier_skewsyn.ShardConnection.Event.Drops.{handle_event-aborts}
use memtier_skewsyn.Tests.Shard.{listed, config, logging, clock, system}
use memtier_skewsyn.Tests.Buffer.{list_evbuffer, list_laws}
use memtier_skewsyn.Tests.Protocol.{redis}

-- A parser within an array, with a bulk that has not come
abbrev within : Redis
within = record redis {
  m_read_buf = codes ":7\r\n$5\r\nab";
  m_response_state = rs_read_mbulk;
  mbulk = record { store = new_array ∷ []; levels = record { mbulk_count = 2; mbulk = 0 } ∷ [] };
}

redis-answers_example :
    IsAnswer (R.parse_response list_evbuffer within).0
    × IsOpened (R.parse_response list_evbuffer within).1
redis-answers_example = redis-answers list_evbuffer list_laws within tt

abbrev within_value : Text
within_value = record {
  m_read_buf = codes "abc\r\nEND\r\n";
  m_write_buf = [];
  m_keep_value = false;
  m_last_response = cleared;
  m_response_state = rs_read_value;
  m_value_len = 3;
  m_response_len = 0;
}

text-ends_example : IsEnd (T.parse_response list_evbuffer within_value).0
text-ends_example = text-ends list_evbuffer list_laws within_value

parse_array-empty_example :
    (q : Redis) × (R.parse_response list_evbuffer
        (waiting (header b'*' 0 ++ (b'\r' ∷ b'\n' ∷ codes "+O")) redis)
      ≡ (incomplete, q))
    × (q.m_response_state ≡ rs_read_mbulk)
    × (q.m_read_buf ≡ codes "+O")
parse_array-empty_example = parse_array-empty list_evbuffer list_laws redis (codes "+O") refl

-- The keys 1 to 10 for three clients
abbrev three : SetupConfig
three = record {
  distinct_client_seed = false;
  randomize = 0;
  key_pattern = b'P';
  key_minimum = 1;
  key_maximum = 10;
  clients = 3;
  threads = 1;
}

three-IsUsual : IsUsual three
three-IsUsual = record {
  ordered = omega arith;
  small = omega arith;
  some_clients = omega arith;
  few_clients = omega arith;
}

-- The last of six clients starts behind the last key.
six_clients : key_range (record three { clients = 6 }) 5 ≡ (11, 10)
unfolding key_range
six_clients = refl

key_range-covers_example :
    ((k : ℕ)
      → 1 ≤ k
      → k ≤ 10
      → (idx : ℕ) × (idx < 3) × ((key_range three idx).0 ≤ k) × (k ≤ (key_range three idx).1))
    × ((idx : ℕ)
        → suc idx < 3
        → 1 + size three three-IsUsual * suc idx < 2 ^ 30
        → (key_range three idx).1 ≡ (key_range three (suc idx)).0)
key_range-covers_example = key_range-covers three three-IsUsual

two-pos : 0 < 2
two-pos = omega arith

four-pos : 0 < 4
four-pos = omega arith

prepare-places_example :
    (u v : ℕ) × (s s' : Conns) × (u ≤ 4 * 6)
    × (v ≤ 4)
    × ((connects : List Bool)
        → clients 2 4 four-pos two-pos 6 (trues 2 4 four-pos two-pos u connects)
          ≡ some (s, connects))
    × ((connects : List Bool)
        → prepare 2 4 (trues 2 4 four-pos two-pos v connects) s
          ≡ prepared (if ltb (6 % 4) 2 then 0 else 6 % 4 - 2 + 1) s' connects)
prepare-places_example = prepare-places 2 4 four-pos two-pos 6

-- A connection that has just come to be, and whose first write fails
abbrev broken : Outside (List ℕ) ℕ
broken = record clock { write = λ t p. (true, t, p) }

abbrev io : EventIo (List ℕ) (List ℕ) ℕ
io = record {
  unix_socket = false;
  so_error = λ t. (some 0, t);
  flush = λ t p. (false, t, p);
  read = λ t p. (no_more, t, p);
  write_pending = λ p. false;
  read_pending = λ p. false;
  set_start_time = λ m. m;
  set_end_time = λ m. m;
}

abbrev write_event : EventType
write_event = record { is_write = true; is_read = false }

abbrev lost : System (List ℕ) (List ℕ) ℕ
lost =
    (first_request listed config logging broken io 5 0
      (record system { conn = record system.conn { m_connected = true } })).1

first_write :
    first_request listed config logging broken io 5 0
      (record system { conn = record system.conn { m_connected = true } })
    ≡ (write_failed, lost)
unfolding first_request fill_pipeline fill_loop new_connection is_conn_setup_done
first_write = refl

handle_event-aborts_example :
    handle_event listed config logging broken io 5 0 write_event system ≡ aborts
unfolding new_connection
handle_event-aborts_example =
    handle_event-aborts listed config logging broken io 5 0 write_event system lost refl refl refl
      first_write
