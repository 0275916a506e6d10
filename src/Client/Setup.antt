-- ===== src/Client/Setup.antt =====
-- client::setup_client and client::prepare of client.cpp: the seed and the keys of a client, and the server thread that
-- its connection is for.
pub mod KeyRanges
pub mod Skew
use memtier_skewsyn.Prelude.{
  ℕ, zero, suc, ◌+◌, ◌-◌, ◌*◌, ◌/◌, ◌%◌, ◌^◌, Bool, true, false, not, ◌&&◌, List, [], ◌∷◌, Option,
  none, some, ltb, ◌==◌, if◌then◌else◌,
}
use memtier_skewsyn.CLib.{u32_mod, u64_mod, to_u32}

-- What benchmark_config says of setup_client; `key_pattern` is its first character.
pub record SetupConfig : Type 0 where
  pub distinct_client_seed : Bool
  pub randomize : ℕ
  pub key_pattern : ℕ
  pub key_minimum : ℕ
  pub key_maximum : ℕ
  pub clients : ℕ
  pub threads : ℕ

-- An int as an unsigned long long
abbrev pub widened : ℕ → ℕ
widened n = if ltb n (2 ^ 31) then n else n + u64_mod - u32_mod

-- The seed that is set, if one is
unfoldable pub client_seed : SetupConfig → ℕ → Option ℕ
client_seed c next_client_idx =
    if c.distinct_client_seed && not (c.randomize == 0)
    then some (to_u32 (c.randomize + next_client_idx))
    else if not (c.randomize == 0)
    then some c.randomize
    else if c.distinct_client_seed
    then some next_client_idx
    else none

-- int range
unfoldable pub range_size : SetupConfig → ℕ
range_size c =
    to_u32
      ((c.key_maximum + u64_mod - c.key_minimum) % u64_mod / (c.clients * c.threads % u32_mod) + 1)

-- The keys of a client with the key pattern P: the arguments of set_key_range. The ints are their bit patterns.
unfoldable pub key_range : SetupConfig → ℕ → ℕ × ℕ
unfolding range_size
key_range c next_client_idx =
    let range = range_size c in
    let min = to_u32 (c.key_minimum + widened (to_u32 (range * next_client_idx))) in
    let max =
      if next_client_idx == (c.clients * c.threads % u32_mod + u32_mod - 1) % u32_mod
      then to_u32 c.key_maximum
      else to_u32 (min + range) in
    (widened min, widened max)

-- What setup_client does with the object generator, and the index of the next client
unfoldable pub setup_client : SetupConfig → ℕ → Option ℕ × Option (ℕ × ℕ) × ℕ
unfolding client_seed key_range
setup_client c next_client_idx = (
  client_seed c next_client_idx,
  if c.key_pattern == b'P' then some (key_range c next_client_idx) else none,
  to_u32 (next_client_idx + 1),
)

-- client::skew_count, total_conns and real_conns
pub record Conns : Type 0 where
  pub skew_count : ℕ
  pub total_conns : ℕ
  pub real_conns : ℕ

-- How prepare ends: with the server thread and what the list of connects has left; with a connection that fails; or
-- still at its connects.
pub data Prepared : Type 0 where
  prepared : ℕ → Conns → List Bool → Prepared
  connect_failed : Conns → List Bool → Prepared
  connecting : Prepared

-- The loop that piles up thread 0, for the results of the connects that come
unfoldable pub pile_up : ℕ → List Bool → Conns → Option (Conns × List Bool)
pile_up server_threads [] s = if s.total_conns % server_threads == 0 then some (s, []) else none
pile_up server_threads (true ∷ connects) s =
    let rest = pile_up server_threads connects (record s { total_conns = s.total_conns + 1 }) in
    if s.total_conns % server_threads == 0 then some (s, true ∷ connects) else rest
pile_up server_threads (false ∷ connects) s =
    let rest = pile_up server_threads connects s in
    if s.total_conns % server_threads == 0 then some (s, false ∷ connects) else rest

-- The real connection
abbrev pub real_connection : ℕ → List Bool → Conns → Prepared
real_connection server_threads [] s = connecting
real_connection server_threads (false ∷ connects) s = connect_failed s connects
real_connection server_threads (true ∷ connects) s =
    prepared (s.total_conns % server_threads)
      (record {
        skew_count = if (s.real_conns + 1) % server_threads == 0 then 0 else s.skew_count;
        total_conns = s.total_conns + 1;
        real_conns = s.real_conns + 1;
      })
      connects

abbrev piled : ℕ → Option (Conns × List Bool) → Prepared
piled server_threads none = connecting
piled server_threads (some (s, connects)) =
    real_connection server_threads connects (record s { skew_count = s.skew_count + 1 })

-- client::prepare, but the interval generator, for the results of the connects that come. The counts are not reduced to
-- ints.
unfoldable pub prepare : ℕ → ℕ → List Bool → Conns → Prepared
unfolding pile_up
prepare skew_level server_threads connects s =
    if ltb s.skew_count skew_level
    then piled server_threads (pile_up server_threads connects s)
    else real_connection server_threads connects s
