-- ===== src/ShardConnection/Event/Drops.antt =====
-- handle_event where the connection breaks.
use memtier_skewsyn.Prelude.{
  ℕ, zero, suc, ◌≡◌, refl, inl, inr, true, false, not, ◌&&◌, ◌||◌, some, Bool-cases,
}
use mathlib.Core.Path.{subst}
use memtier_skewsyn.ShardConnection.{Config, Protocol, Manager, disconnect}
use memtier_skewsyn.ShardConnection.Fill.{
  Outside, System, Filled, filled, write_failed, out_of_fuel, has_room, created, written, fill_loop,
  fill_pipeline,
}
use memtier_skewsyn.ShardConnection.Event.{
  EventType, EventIo, aborts, first_request, with_connection, handle_event,
}

module _ {P M T : Type 0} (protocol : Protocol P) (config : Config) (man : Manager P M)
    (out : Outside P T) (io : EventIo P M T) (fuel now : ℕ) where
  -- A failed write leaves no connection.
  abbrev Drops : Filled × System P M T → Type 0
  Drops (filled, s) = Unit
  Drops (write_failed, s) = s.conn.m_connected ≡ false
  Drops (out_of_fuel, s) = Unit

  fill_loop-Drops :
      (f current t : ℕ) (s : System P M T) → Drops (fill_loop protocol config man out f current t s)
  unfolding fill_loop disconnect
  fill_loop-Drops zero current t s = tt
  fill_loop-Drops (suc f) current t s =
      elim (Bool-cases (has_room protocol config man out current s)) [
        | inl e ↦
            elim (Bool-cases
              (written protocol config man out (created protocol config man out t s)).0) [
                | inl g ↦ rw (e, g, fill_loop) refl
                | inr g ↦ rw (e, g, fill_loop) (fill_loop-Drops f _ _ _)
              ]
        | inr e ↦ rw (e, fill_loop) tt
      ]

  fill_pipeline-Drops : (s : System P M T) → Drops (fill_pipeline protocol config man out fuel s)
  unfolding fill_pipeline
  fill_pipeline-Drops s = elim (Bool-cases (man.hold_pipeline s.manager)) [
    | inl e ↦ rw e tt
    | inr e ↦ rw e (fill_loop-Drops fuel _ _ _)
  ]

  first_request-Drops :
      (s : System P M T) → Drops (first_request protocol config man out io fuel now s)
  unfolding first_request
  first_request-Drops s = fill_pipeline-Drops _

  -- The event with which the connection is made
  abbrev made : System P M T → System P M T
  made s = record s {
    conn = record s.conn { m_connected = true };
    outside = (io.so_error s.outside).1;
  }

  -- Where a connection comes to be, and the write of its first requests fails, handle_event aborts: fill_pipeline
  -- disconnects, and the assertion that the connection is there follows.
  pub handle_event-aborts :
      (e : EventType) (s d : System P M T)
      → s.conn.m_connected ≡ false
      → ((e.is_write && not e.is_read) || io.unix_socket) ≡ true
      → (io.so_error s.outside).0 ≡ some 0
      → first_request protocol config man out io fuel now (made s) ≡ (write_failed, d)
      → handle_event protocol config man out io fuel now e s ≡ aborts
  unfolding handle_event with_connection
  handle_event-aborts e s d off due fine fails =
      let down : d.conn.m_connected ≡ false = subst Drops fails (first_request-Drops (made s)) in
      let test : (not s.conn.m_connected && ((e.is_write && not e.is_read) || io.unix_socket))
          ≡ true =
        rw (off, due) refl in
      rw (test, fine, fails, down) refl
