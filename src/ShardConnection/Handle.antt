-- ===== src/ShardConnection/Handle.antt =====
-- shard_connection::process_response.
use memtier_skewsyn.Prelude.{
  ℕ, zero, suc, ◌%◌, Bool, true, false, ◌&&◌, List, [], ◌∷◌, Option, none, some, Bytes, codes,
  bytes_eq, ltb, ◌==◌, if◌then◌else◌, length,
}
use memtier_skewsyn.CLib.{c_str}
use memtier_skewsyn.Protocol.Base.{ProtocolResponse, Outcome, complete, incomplete}
use memtier_skewsyn.ShardConnection.{
  Config, Protocol, Connection, Manager, Request, RequestType, rt_auth, rt_select_db,
  rt_cluster_slots, setup_done, pop_req,
}
use memtier_skewsyn.ShardConnection.Fill.{Outside, System, Filled, out_of_fuel, fill_pipeline}

-- What becomes of a response: it is done with, or its setup command failed, or the process fails, by a
-- response without a request or a status that is NULL.
pub data Handled (S : Type 0) : Type 0 where
  handled : Bool → S → Handled S
  setup_error : S → Handled S
  crashed : Handled S

module _ {P M T : Type 0} (protocol : Protocol P) (config : Config) (man : Manager P M)
    (out : Outside P T) where
  select_answer : Option Bytes → System P M T → Handled (System P M T)
  select_answer none s = crashed
  select_answer (some status) s =
      if bytes_eq (c_str status) (codes "+OK")
      then handled false (record s { conn = record s.conn { m_db_selection = setup_done } })
      else setup_error s

  slots_answer : ProtocolResponse → Option (List ℕ) → System P M T → Handled (System P M T)
  slots_answer r none s = setup_error s
  slots_answer r (some []) s = setup_error s
  slots_answer r (some (_ ∷ _)) s = handled false (record s {
    conn = record s.conn { m_cluster_slots = setup_done };
    manager = man.handle_cluster_slots r s.manager;
  })

  -- The branches on the type of the request, behind pop_req; the Boolean says whether it is one of the
  -- benchmark.
  unfoldable pub handle_request : ℕ → RequestType → Request → System P M T → Handled (System P M T)
  unfolding select_answer slots_answer
  handle_request now rt_auth req s =
      if (protocol.get_response s.conn.m_protocol).m_error
      then setup_error s
      else handled false (record s { conn = record s.conn { m_authentication = setup_done } })
  handle_request now rt_select_db req s =
      select_answer (protocol.get_response s.conn.m_protocol).m_status s
  handle_request now rt_cluster_slots req s =
      slots_answer (protocol.get_response s.conn.m_protocol)
        (protocol.mbulk_array s.conn.m_protocol) s
  handle_request now _ req s = handled true (record s {
    manager =
        man.inc_reqs_processed
          (man.handle_response now req (protocol.get_response s.conn.m_protocol) s.manager);
  })

  unfoldable pub handle_popped :
      ℕ → System P M T → Option (Request × Connection P) → Handled (System P M T)
  unfolding handle_request
  handle_popped now s none = crashed
  handle_popped now s (some (req, c)) = handle_request now req.m_type req (record s { conn = c })

  unfoldable pub handle_one : ℕ → System P M T → Handled (System P M T)
  unfolding handle_popped pop_req
  handle_one now s = handle_popped now s (pop_req s.conn)

  unfoldable pub parsed : System P M T → Outcome × System P M T
  parsed s =
      let (o, p) = protocol.parse_response s.conn.m_protocol in
      (o, record s { conn = record s.conn { m_protocol = p } })

  -- How process_response ends.
  pub data Processed : Type 0 where
    -- the loop is over: what parse_response returned, and whether a response was one of the benchmark
    processed : Outcome → Bool → System P M T → Processed
    refused : System P M T → Processed
    crash : Processed
    fuel_spent : Processed

  abbrev pub after_parse : Bool → (System P M T → Processed) → Outcome × System P M T → Processed
  after_parse some_handled respond (complete, s) = respond s
  after_parse some_handled respond (o, s) = processed o some_handled s

  abbrev pub after_handle : (Bool → System P M T → Processed) → Handled (System P M T) → Processed
  after_handle go_on (handled is_benchmark s) = go_on is_benchmark s
  after_handle go_on (setup_error s) = refused s
  after_handle go_on crashed = crash

  -- The loop, for `fuel` responses at most
  unfoldable pub process_loop : ℕ → ℕ → Bool → System P M T → Processed
  unfolding handle_one
  process_loop zero now some_handled s = fuel_spent
  process_loop (suc f) now some_handled s =
      after_parse some_handled
        (λ s1.
          after_handle
            (λ is_benchmark s2. process_loop f now (if is_benchmark then true else some_handled) s2)
            (handle_one now s1))
        (parsed s)

  -- Behind the loop: reconnect at the interval, or fill the pipeline. A refused assertion is `crash`.
  reconnected : ℕ × M × Connection P → System P M T → Processed
  reconnected (ret, m, c) s =
      if ret == 0 then processed incomplete true (record s { conn = c; manager = m }) else crash

  abbrev after_fill : Filled → Outcome → Bool → System P M T → Processed
  after_fill out_of_fuel o some_handled s = fuel_spent
  after_fill _ o some_handled s = processed o some_handled s

  unfoldable pub after_loop : ℕ → Processed → Processed
  unfolding reconnected fill_pipeline
  after_loop fuel (processed o some_handled s) =
      let (result, s') = fill_pipeline protocol config man out fuel s in
      if ltb 0 config.reconnect_interval
        && some_handled
        && man.get_reqs_processed s.manager % config.reconnect_interval == 0
      then (if length s.conn.m_pipeline == 0
          then reconnected (man.connect (man.disconnect (s.manager, s.conn))) s
          else crash)
      else after_fill result o some_handled s'
  after_loop fuel r = r

  -- shard_connection::process_response
  unfoldable pub process_response : ℕ → ℕ → System P M T → Processed
  unfolding process_loop after_loop
  process_response fuel now s = after_loop fuel (process_loop fuel now false s)
