-- ===== src/Client.antt =====
-- client.h and client.cpp: the choice of the next request of a client, and when it holds back.
pub mod Ratio
pub mod Stats
pub mod Merge
pub mod Totals
pub mod Merged
pub mod Verify
pub mod Responses
pub mod Setup
use memtier_skewsyn.Prelude.{
  ℕ, zero, suc, ◌+◌, ◌-◌, ◌/◌, ◌%◌, Bool, true, false, not, ◌&&◌, ◌||◌, List, [], ◌∷◌, Option, none,
  some, Bytes, ltb, leb, ◌==◌, if◌then◌else◌, length,
}
use memtier_skewsyn.CLib.{u32_mod, to_u32}
use memtier_skewsyn.ObjGen.{DataObject, Iter}
use memtier_skewsyn.Config.{ConfigRatio}
use memtier_skewsyn.Protocol.Keylist.{Keylist, Added, added, full, stale, add_key, clear}

-- What benchmark_config says of a client; the iterators are those of obj_iter_type for set and get.
pub record ClientConfig : Type 0 where
  pub ratio : ConfigRatio
  pub wait_ratio : ConfigRatio
  pub multi_key_get : ℕ
  pub requests : ℕ
  pub reconnect_interval : ℕ
  pub set_iter : Iter
  pub get_iter : Iter

-- The object generator, as a client uses it; `wait_args` draws the number of slaves and the timeout. A refused
-- assertion is `none`.
pub record ObjectSource (G : Type 0) : Type 0 where
  pub get_object : Iter → G → Option (DataObject × G)
  pub get_key : Iter → G → Option (Bytes × ℕ × G)
  pub wait_args : G → Option (ℕ × ℕ × G)

-- class client, but the statistics and the connections. The totals of operations are not reduced to a word.
pub record Client (G : Type 0) : Type 0 where
  pub m_obj_gen : G
  pub m_keylist : Keylist
  pub m_reqs_processed : ℕ
  pub m_reqs_generated : ℕ
  pub m_set_ratio_count : ℕ
  pub m_get_ratio_count : ℕ
  pub m_tot_set_ops : ℕ
  pub m_tot_wait_ops : ℕ

-- The call of the connection that create_request makes.
pub data Command : Type 0 where
  send_wait : ℕ → ℕ → Command
  send_set : DataObject → Command
  send_mget : Keylist → Command
  send_get : Bytes → Command
  send_nothing : Command

module _ {G : Type 0} (config : ClientConfig) (source : ObjectSource G) where
  -- The condition of a WAIT
  unfoldable pub wait_due : Client G → Bool
  wait_due c =
      not (config.wait_ratio.b == 0)
      && (c.m_tot_wait_ops == 0
          || ltb (config.wait_ratio.a / config.wait_ratio.b) (c.m_tot_set_ops / c.m_tot_wait_ops))

  -- Overlap counters
  unfoldable pub overlap : Client G → Client G
  overlap c =
      if c.m_set_ratio_count == config.ratio.a && c.m_get_ratio_count == config.ratio.b
      then record c { m_set_ratio_count = 0; m_get_ratio_count = 0 }
      else c

  abbrev waited : Client G → Option (ℕ × ℕ × G) → Option (Command × Client G)
  waited c none = none
  waited c (some (num_slaves, timeout, g)) = some (
    send_wait num_slaves timeout,
    record c {
      m_obj_gen = g;
      m_tot_wait_ops = c.m_tot_wait_ops + 1;
      m_reqs_generated = c.m_reqs_generated + 1;
    },
  )

  abbrev pub was_set : Client G → Option (DataObject × G) → Option (Command × Client G)
  was_set c none = none
  was_set c (some (obj, g)) = some (
    send_set obj,
    record c {
      m_obj_gen = g;
      m_reqs_generated = c.m_reqs_generated + 1;
      m_set_ratio_count = c.m_set_ratio_count + 1;
      m_tot_set_ops = c.m_tot_set_ops + 1;
    },
  )

  abbrev pub got : Client G → Option (Bytes × ℕ × G) → Option (Command × Client G)
  got c none = none
  got c (some (key, keylen, g)) =
      if keylen == 0
      then none
      else some (
        send_get key,
        record c {
          m_obj_gen = g;
          m_reqs_generated = c.m_reqs_generated + 1;
          m_get_ratio_count = c.m_get_ratio_count + 1;
        },
      )

  -- The loop that fills the key list, for the keys that are left. A list that is full would make it endless;
  -- that and a stale buffer are `none`.
  abbrev listed : Added → Option Keylist
  listed (added k) = some k
  listed full = none
  listed stale = none

  fetch_keys : ℕ → Keylist → G → Option (Keylist × G)
  fetch_keys zero k g = some (k, g)
  fetch_keys (suc left) k g = elim (source.get_key config.get_iter g) [
    | none ↦ none
    | some (key, keylen, g') ↦ elim (listed (add_key key k)) [
      | none ↦ none
      | some k' ↦ if keylen == 0 then none else fetch_keys left k' g'
    ]
  ]

  abbrev multi_got : ℕ → Client G → Option (Keylist × G) → Option (Command × Client G)
  multi_got keys_count c none = none
  multi_got keys_count c (some (k, g)) = some (
    send_mget k,
    record c {
      m_obj_gen = g;
      m_keylist = k;
      m_reqs_generated = c.m_reqs_generated + 1;
      m_get_ratio_count = c.m_get_ratio_count + keys_count;
    },
  )

  get_command : Client G → Option (Command × Client G)
  unfolding fetch_keys
  get_command c =
      let left = config.ratio.b - c.m_get_ratio_count in
      let keys_count = if ltb config.multi_key_get left then config.multi_key_get else left in
      if ltb 0 config.multi_key_get
      then multi_got keys_count c (fetch_keys keys_count (clear c.m_keylist) c.m_obj_gen)
      else got c (source.get_key config.get_iter c.m_obj_gen)

  choose : Client G → Option (Command × Client G)
  unfolding wait_due get_command
  choose c =
      if wait_due c
      then waited c (source.wait_args c.m_obj_gen)
      else if ltb c.m_set_ratio_count config.ratio.a
      then was_set c (source.get_object config.set_iter c.m_obj_gen)
      else if ltb c.m_get_ratio_count config.ratio.b
      then get_command c
      else some (send_nothing, c)

  abbrev overlapped : Option (Command × Client G) → Option (Command × Client G)
  overlapped none = none
  overlapped (some (command, c)) = some (command, overlap c)

  -- client::create_request, with the call of the connection that it makes
  unfoldable pub create_request : Client G → Option (Command × Client G)
  unfolding choose overlap
  create_request c = overlapped (choose c)

  -- client::hold_pipeline; the difference of the counts is unsigned.
  unfoldable pub hold_pipeline : Client G → Bool
  hold_pipeline c =
      (not (config.requests == 0) && leb config.requests c.m_reqs_generated)
      || (not (config.reconnect_interval == 0)
          && leb config.reconnect_interval (
              to_u32 (
                c.m_reqs_processed % config.reconnect_interval
                + (c.m_reqs_generated + u32_mod - c.m_reqs_processed) % u32_mod)))
