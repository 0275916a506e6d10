-- ===== src/Protocol/Binary/Frames.antt =====
-- The requests of class memcache_binary_protocol as a server reads them: the header says how long the rest is.
use memtier_skewsyn.Prelude.{
  ℕ, ◌+◌, ◌<◌, ◌≡◌, ◌≢◌, refl, false, [], ◌∷◌, ◌++◌, Option, some, arith, Bytes, ◌==◌, length,
  length-append, append_assoc, drop, get_or,
}
use memtier_skewsyn.CLib.{u32_mod}
use memtier_skewsyn.Evbuffer.{Evbuffer, IsEvbuffer}
use memtier_skewsyn.Protocol.Binary.{htons, htonl, ntohs, ntohl, magic_req, cmd_get, cmd_set}
use memtier_skewsyn.Protocol.Binary.Command.{request_header, write_command_set, write_command_get}

-- What a server finds in the header at the front of a text: the command, and the lengths of the key, the extras
-- and all that follows the header, which is there in full.
pub record IsFrame (text : Bytes) (opcode keylen extlen bodylen : ℕ) : Type 0 where
  pub magic : get_or text 0 0 ≡ magic_req
  pub command : get_or text 1 0 ≡ opcode
  pub key : ntohs 2 text ≡ keylen
  pub extras : get_or text 4 0 ≡ extlen
  pub body : ntohl 8 text ≡ bodylen
  pub follows : length text ≡ 24 + bodylen

header_lem :
    (opcode keylen extlen bodylen : ℕ) (rest : Bytes)
    → keylen < 65536
    → bodylen < u32_mod
    → length rest ≡ bodylen
    → IsFrame (request_header opcode keylen extlen bodylen ++ rest) opcode keylen extlen bodylen
unfolding request_header htons htonl ntohs ntohl
header_lem opcode keylen extlen bodylen rest k b l = record {
  magic = refl;
  command = refl;
  key = omega arith;
  extras = refl;
  body = omega arith;
  follows = omega (arith, l);
}

header-length :
    (opcode keylen extlen bodylen : ℕ) → length (request_header opcode keylen extlen bodylen) ≡ 24
unfolding request_header htons htonl
header-length opcode keylen extlen bodylen = refl

length_pos : (key : Bytes) → key ≢ [] → (length key == 0) ≡ false
length_pos [] h = absurd (h refl)
length_pos (c ∷ key) h = ground arith

-- What a command writes: a frame is appended, its length returned, and this is what follows the header.
pub record Sends (b : Bytes) (r : Option (Bytes × ℕ)) (opcode keylen extlen : ℕ) (body : Bytes)
    : Type 0 where
  pub text : Bytes
  pub sent : r ≡ some (b ++ text, length text)
  pub frame : IsFrame text opcode keylen extlen (length body)
  pub rest : drop 24 text ≡ body

module _ (ev : Evbuffer) (laws : IsEvbuffer ev) (b : Bytes) where
  pair :
      {c d : Bytes} {m n : ℕ}
      → c ≡ d
      → m ≡ n
      → ◌≡◌ {A = Option (Bytes × ℕ)} (some (c, m)) (some (d, n))
  pair e h i = some (e i, h i)

  -- A get of a key of less than 2^16 bytes that is not empty sends the GET frame with the key as its body.
  pub binary_get-Sends :
      (key : Bytes)
      → key ≢ []
      → length key < 65536
      → Sends b (write_command_get ev key b) cmd_get (length key) 0 key
  unfolding write_command_get
  binary_get-Sends key ne short =
      let head = request_header cmd_get (length key) 0 (length key) in
      record {
        text = head ++ key;
        sent = rw (length_pos key ne) (
            pair (simp (laws.add_lem, append_assoc)) (
              omega (
                arith,
                length-append head key,
                header-length cmd_get (length key) 0 (length key),
              )));
        frame = header_lem cmd_get (length key) 0 (length key) key short (omega arith) refl;
        rest = unfold request_header in refl;
      }

  -- A set of a key of less than 2^16 bytes and a value, neither of them empty, sends the SET frame: flags 0,
  -- the expiry, the key and the value are its body, of which the header counts the first 8 bytes as extras.
  pub binary_set-Sends :
      (key value : Bytes) (expiry : ℕ)
      → key ≢ []
      → value ≢ []
      → length key < 65536
      → 8 + length value + length key < u32_mod
      → Sends b
          (write_command_set ev key value expiry b)
          cmd_set
          (length key)
          8
          ((htonl 0 ++ htonl expiry) ++ (key ++ value))
  unfolding write_command_set
  binary_set-Sends key value expiry ne nv short fits =
      let n = 8 + length value + length key in
      let head = request_header cmd_set (length key) 8 n in
      let body = (htonl 0 ++ htonl expiry) ++ (key ++ value) in
      let size : length body ≡ n = (unfold htonl in omega (arith, length-append key value)) in
      record {
        text = head ++ body;
        sent =
            rw (length_pos key ne, length_pos value nv)
              (pair (simp (laws.add_lem, append_assoc)) (
                omega
                  (arith, size, length-append head body, header-length cmd_set (length key) 8 n)));
        frame = rw size (header_lem cmd_set (length key) 8 n body short fits size);
        rest = unfold request_header in refl;
      }
