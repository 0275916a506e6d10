-- ===== src/ShardConnection/Fill.antt =====
-- shard_connection::fill_pipeline.
use memtier_skewsyn.Prelude.{
  ℕ, zero, suc, ◌+◌, Bool, true, false, not, ◌&&◌, ltb, if◌then◌else◌, length,
}
use memtier_skewsyn.ShardConnection.{
  Config, Protocol, Connection, Manager, is_conn_setup_done, send_conn_setup_commands, disconnect,
}

-- What the loop takes from outside, with a state T: the time, the cycle counter, the next interval of the generator
-- in cycles, whether set_lambda changed its rate, and a write of the buffer to a writable socket, which says whether it failed
-- with anything but EWOULDBLOCK.
pub record Outside (P T : Type 0) : Type 0 where
  pub gettimeofday : T → ℕ × T
  pub rdtsc : T → ℕ × T
  pub interval : T → ℕ × T
  pub set_lambda : T → Bool × T
  pub write : T → P → Bool × T × P

-- The connection, its manager and what is outside.
pub record System (P M T : Type 0) : Type 0 where
  pub conn : Connection P
  pub manager : M
  pub outside : T

-- How the loop ends: by its condition, by a failed write, or for want of fuel in the model.
pub data Filled : Type 0 where
  filled write_failed out_of_fuel : Filled

module _ {P M T : Type 0} (protocol : Protocol P) (config : Config) (man : Manager P M)
    (out : Outside P T) where
  -- The condition of the loop.
  abbrev pub has_room : ℕ → System P M T → Bool
  has_room current s =
      not (man.finished s.manager)
      && ltb (length s.conn.m_pipeline) config.pipeline
      && ltb s.conn.next_cycle_time current

  -- The body of the loop up to the write.
  abbrev pub created : ℕ → System P M T → System P M T
  created now s =
      let (m, c) = man.create_request now (s.manager, s.conn) in record s { conn = c; manager = m }

  abbrev pub written : System P M T → Bool × System P M T
  written s =
      let (fails, t, p) = out.write s.outside s.conn.m_protocol in
      (fails, record s { conn = record s.conn { m_protocol = p }; outside = t })

  -- The body of the loop behind the write: the next time to send, and the clock.
  unfoldable pub scheduled : System P M T → ℕ × ℕ × System P M T
  scheduled s =
      let (step, t1) = out.interval s.outside in
      let (changed, t2) = out.set_lambda t1 in
      let (base, t3) = out.rdtsc t2 in
      let (again, t4) = out.interval t3 in
      let next = s.conn.next_cycle_time + step in
      let t5 = if changed then t4 else t2 in
      let (current, t6) = out.rdtsc t5 in
      let (now, t7) = out.gettimeofday t6 in
      (
        current,
        now,
        record s {
          conn = record s.conn { next_cycle_time = if changed then base + again else next };
          outside = t7;
        },
      )

  unfoldable pub fill_loop : ℕ → ℕ → ℕ → System P M T → Filled × System P M T
  unfolding scheduled
  fill_loop zero current now s = (out_of_fuel, s)
  fill_loop (suc f) current now s = elim (has_room current s) [
    | false ↦ (filled, s)
    | true ↦
        let (fails, s1) = written (created now s) in
        let (current', now', s2) = scheduled s1 in
        elim fails [
          | true ↦ (write_failed, record s1 { conn = disconnect protocol config s1.conn })
          | false ↦ fill_loop f current' now' s2
        ]
  ]

  abbrev pub with_setup : ℕ → System P M T → System P M T
  with_setup now s =
      if is_conn_setup_done s.conn
      then s
      else record s { conn = send_conn_setup_commands protocol config now s.conn }

  -- shard_connection::fill_pipeline, for `fuel` rounds of its loop at most
  unfoldable pub fill_pipeline : ℕ → System P M T → Filled × System P M T
  unfolding fill_loop
  fill_pipeline fuel s =
      let (current, t1) = out.rdtsc s.outside in
      let (now, t2) = out.gettimeofday t1 in
      let s1 = record s { outside = t2 } in
      if man.hold_pipeline s.manager
      then (filled, s1)
      else fill_loop fuel current now (with_setup now s1)
