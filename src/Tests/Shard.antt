-- ===== src/Tests/Shard.antt =====
-- A connection over a protocol that answers from a list, and a manager that logs.
use memtier_skewsyn.Prelude.{
  ℕ, ◌+◌, ◌≡◌, refl, List, [], ◌∷◌, some, none, true, false, arith, codes, length,
}
use memtier_skewsyn.Protocol.Base.{Outcome, cleared, complete, incomplete}
use memtier_skewsyn.ShardConnection.{
  Config, Protocol, Manager, Request, rt_get, new_connection, push_req,
}
use memtier_skewsyn.ShardConnection.Fill.{Outside, System}
use memtier_skewsyn.ShardConnection.Handle.{processed, process_loop}
use memtier_skewsyn.ShardConnection.Order.{at, process_loop-order}

pub answer : List ℕ → Outcome × List ℕ
answer [] = (incomplete, [])
answer (n ∷ ns) = (complete, ns)

abbrev pub listed : Protocol (List ℕ)
listed = record {
  parse_response = answer;
  get_response = λ ns. record cleared { m_hits = length ns };
  mbulk_array = λ ns. none;
  send_authenticate = λ s ns. ns;
  send_select_db = λ n ns. ns;
  send_cluster_slots = λ ns. ns;
  drain_buffers = λ ns. [];
}

abbrev request : ℕ → Request
request n = record { m_type = rt_get; m_sent_time = 0; m_size = n; m_keys = 1 }

-- The log holds the size of each request and the hits of its response.
abbrev pub logging : Manager (List ℕ) (List ℕ)
logging = record {
  get_reqs_processed = length;
  inc_reqs_processed = λ m. m;
  finished = λ m. false;
  hold_pipeline = λ m. false;
  handle_cluster_slots = λ r m. m;
  handle_response = λ now req r m. req.m_size ∷ r.m_hits ∷ m;
  create_request = λ now s. (s.0, push_req (request 7) s.1);
  disconnect = λ s. s;
  connect = λ s. (0, s.0, s.1);
}

abbrev pub clock : Outside (List ℕ) ℕ
clock = record {
  gettimeofday = λ t. (t, t + 1);
  rdtsc = λ t. (t, t + 1);
  interval = λ t. (1, t);
  set_lambda = λ t. (false, t);
  write = λ t p. (false, t, p);
}

abbrev pub config : Config
config = record {
  authenticate = some (codes "pw");
  select_db = 0;
  pipeline = 2;
  reconnect_interval = 0;
}

abbrev pub system : System (List ℕ) (List ℕ) ℕ
system = record { conn = new_connection []; manager = []; outside = 100 }

process_loop-order_example :
    process_loop listed config logging clock 3 0 false (
      at listed config logging clock 0 system
        (1 ∷ 2 ∷ [])
        (request 10 ∷ request 20 ∷ request 30 ∷ [])
        [])
    ≡ processed incomplete true
        (at listed config logging clock 0 system [] (request 30 ∷ []) (20 ∷ 0 ∷ 10 ∷ 1 ∷ []))
unfolding answer
process_loop-order_example =
    process_loop-order listed config logging clock 0 (request 10 ∷ request 20 ∷ [])
      (request 30 ∷ []) (record cleared { m_hits = 1 } ∷ cleared ∷ []) 3 false system (1 ∷ 2 ∷ [])
      [] [] incomplete refl (tt, (tt, tt)) (2 ∷ [], refl, refl, ([], refl, refl, (refl, λ e. cc)))
      (omega arith)
