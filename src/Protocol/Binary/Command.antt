-- ===== src/Protocol/Binary/Command.antt =====
-- The commands of class memcache_binary_protocol; select_db, write_command_cluster_slots,
-- write_command_multi_get and write_command_wait refuse with an assertion.
use memtier_skewsyn.Prelude.{
  ℕ, ◌+◌, ◌-◌, ◌||◌, [], ◌∷◌, ◌++◌, Option, none, some, Bytes, codes, ◌==◌, if◌then◌else◌, length,
  replicate,
}
use memtier_skewsyn.CLib.{c_str}
use memtier_skewsyn.Evbuffer.{Evbuffer}
use memtier_skewsyn.Protocol.Binary.{htons, htonl, magic_req, cmd_get, cmd_set, cmd_sasl_auth}

-- protocol_binary_request_header with the fields that the commands fill in; the others are 0.
unfoldable pub request_header : ℕ → ℕ → ℕ → ℕ → Bytes
unfolding htons htonl
request_header opcode keylen extlen bodylen =
    magic_req ∷ opcode ∷ (htons keylen ++ (extlen ∷ 0 ∷ 0 ∷ 0 ∷ (htonl bodylen ++ replicate 12 0)))

-- strchr of ':': what is before it, and what is behind it
unfoldable pub split_colon : Bytes → Option (Bytes × Bytes)
split_colon [] = none
split_colon (c ∷ cs) =
    let more = split_colon cs in
    if c == b':'
    then some ([], cs)
    else elim more [ none ↦ none | some (user, passwd) ↦ some (c ∷ user, passwd) ]

module _ (ev : Evbuffer) where
  abbrev plain_auth : Bytes → Option (Bytes × Bytes) → Option (Bytes × ℕ)
  plain_auth write_buf none = none
  plain_auth write_buf (some (user, passwd)) =
      let n = 5 + length user + length passwd + 2 in
      let b = ev.add (ev.add write_buf (request_header cmd_sasl_auth 5 0 n)) (codes "PLAIN") in
      some (
        ev.add (ev.add (ev.add (ev.add b (0 ∷ [])) user) (0 ∷ [])) passwd,
        24 + length user + length passwd + 2 + 6 - 1,
      )

  -- memcache_binary_protocol::authenticate; without a colon the assertion fails.
  unfoldable pub authenticate : Bytes → Bytes → Option (Bytes × ℕ)
  unfolding request_header split_colon
  authenticate credentials write_buf = plain_auth write_buf (split_colon (c_str credentials))

  -- memcache_binary_protocol::write_command_set, with the flags and the expiration as the extras
  unfoldable pub write_command_set : Bytes → Bytes → ℕ → Bytes → Option (Bytes × ℕ)
  unfolding request_header
  write_command_set key value expiry write_buf =
      let req =
        request_header cmd_set (length key) 8 (8 + length value + length key)
        ++ (htonl 0 ++ htonl expiry) in
      if length key == 0 || length value == 0
      then none
      else some (ev.add (ev.add (ev.add write_buf req) key) value, 32 + length key + length value)

  -- memcache_binary_protocol::write_command_get
  unfoldable pub write_command_get : Bytes → Bytes → Option (Bytes × ℕ)
  unfolding request_header
  write_command_get key write_buf =
      if length key == 0
      then none
      else some (
        ev.add (ev.add write_buf (request_header cmd_get (length key) 0 (length key))) key,
        24 + length key,
      )
