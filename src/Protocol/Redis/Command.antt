-- ===== src/Protocol/Redis/Command.antt =====
-- class redis_protocol of protocol.cpp: the commands it writes. A key or value stands for a pointer and
-- its length. A refused assertion is `none`.
pub mod Wire
use memtier_skewsyn.Prelude.{
  ℕ, ◌+◌, Bool, not, true, false, ◌&&◌, ◌||◌, List, [], ◌∷◌, ◌++◌, Option, none, some, Bytes, codes,
  ltb, ◌==◌, if◌then◌else◌, length,
}
use memtier_skewsyn.CLib.{print_u, print_d, c_str}
use memtier_skewsyn.Evbuffer.{Evbuffer}

-- get_number_length
unfoldable pub get_number_length : ℕ → ℕ
get_number_length num =
    if ltb num 10
    then 1
    else if ltb num 100
    then 2
    else if ltb num 1000
    then 3
    else if ltb num 10000
    then 4
    else if ltb num 100000
    then 5
    else if ltb num 1000000
    then 6
    else if ltb num 10000000
    then 7
    else if ltb num 100000000
    then 8
    else if ltb num 1000000000
    then 9
    else 10

module _ (ev : Evbuffer) where
  -- redis_protocol::select_db: the write buffer afterwards, and the size returned.
  pub select_db : ℕ → Bytes → Bytes × ℕ
  select_db db write_buf =
      let db_str = print_d db in
      ev.add_printf write_buf (
        codes "*2\r\n$6\r\nSELECT\r\n$"
        ++ (print_u (length db_str) ++ (codes "\r\n" ++ (db_str ++ codes "\r\n"))))

  -- redis_protocol::authenticate
  pub authenticate : Bytes → Bytes → Bytes × ℕ
  authenticate credentials write_buf =
      let text = c_str credentials in
      ev.add_printf write_buf (
        codes "*2\r\n$4\r\nAUTH\r\n$"
        ++ (print_u (length text) ++ (codes "\r\n" ++ (text ++ codes "\r\n"))))

  -- redis_protocol::write_command_cluster_slots; evbuffer_add returns 0.
  pub write_command_cluster_slots : Bytes → Bytes × ℕ
  write_command_cluster_slots write_buf =
      (ev.add write_buf (codes "*2\r\n$7\r\nCLUSTER\r\n$5\r\nSLOTS\r\n"), 0)

  -- The three heads of a set command, up to the value: a printf, the key, a printf.
  set_head : Bytes → Bytes → Bytes → Bytes → Bytes × ℕ
  set_head head key tail write_buf =
      let (b, size) = ev.add_printf write_buf head in
      let (b', size') = ev.add_printf (ev.add b key) tail in (b', size + length key + size')

  -- What redis_protocol::write_command_set writes in front of the value.
  set_prefix : Bytes → Bytes → ℕ → ℕ → Bytes → Bytes × ℕ
  set_prefix key value expiry offset write_buf =
      let key_len = print_u (length key) in
      let value_len = print_u (length value) in
      let offset_str = print_u offset in
      let expiry_str = print_u expiry in
      if expiry == 0 && offset == 0
      then set_head (codes "*3\r\n$3\r\nSET\r\n$" ++ (key_len ++ codes "\r\n")) key
          (codes "\r\n$" ++ (value_len ++ codes "\r\n")) write_buf
      else if not (offset == 0)
      then set_head (codes "*4\r\n$8\r\nSETRANGE\r\n$" ++ (key_len ++ codes "\r\n")) key
          (codes "\r\n$"
            ++ (print_u (length offset_str)
                ++ (codes "\r\n"
                    ++ (offset_str ++ (codes "\r\n$" ++ (value_len ++ codes "\r\n"))))))
          write_buf
      else set_head (codes "*4\r\n$5\r\nSETEX\r\n$" ++ (key_len ++ codes "\r\n")) key
          (codes "\r\n$"
            ++ (print_u (length expiry_str)
                ++ (codes "\r\n"
                    ++ (expiry_str ++ (codes "\r\n$" ++ (value_len ++ codes "\r\n"))))))
          write_buf

  set_value_after : Bytes → Bytes × ℕ → Bytes × ℕ
  set_value_after value (b, size) =
      (ev.add (ev.add b value) (codes "\r\n"), size + (length value + 2))

  -- redis_protocol::write_command_set
  pub write_command_set : Bytes → Bytes → ℕ → ℕ → Bytes → Option (Bytes × ℕ)
  unfolding set_value_after
  write_command_set key value expiry offset write_buf =
      if length key == 0 || length value == 0
      then none
      else some (set_value_after value (set_prefix key value expiry offset write_buf))

  -- redis_protocol::write_command_get
  pub write_command_get : Bytes → ℕ → Bytes → Option (Bytes × ℕ)
  write_command_get key offset write_buf =
      let key_len = print_u (length key) in
      let offset_str = print_u offset in
      if length key == 0
      then none
      else if offset == 0
      then some (
          set_value_after key
            (ev.add_printf write_buf (codes "*2\r\n$3\r\nGET\r\n$" ++ (key_len ++ codes "\r\n"))))
      else some (
          set_head (codes "*4\r\n$8\r\nGETRANGE\r\n$" ++ (key_len ++ codes "\r\n")) key
            (codes "\r\n$"
              ++ (print_u (length offset_str)
                  ++ (codes "\r\n" ++ (offset_str ++ codes "\r\n$2\r\n-1\r\n"))))
            write_buf)

  -- redis_protocol::write_command_wait
  pub write_command_wait : ℕ → ℕ → Bytes → Bytes × ℕ
  write_command_wait num_slaves timeout write_buf = ev.add_printf write_buf (
      codes "*3\r\n$4\r\nWAIT\r\n$"
      ++ (print_u (get_number_length num_slaves)
          ++ (codes "\r\n"
              ++ (print_u num_slaves
                  ++ (codes "\r\n$"
                      ++ (print_u (get_number_length timeout)
                          ++ (codes "\r\n" ++ (print_u timeout ++ codes "\r\n"))))))))
