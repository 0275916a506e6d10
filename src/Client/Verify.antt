-- ===== src/Client/Verify.antt =====
-- verify_client of client.cpp, and the struct verify_request of shard_connection.h.
pub mod Turn
pub mod InStep
pub mod Judges
use memtier_skewsyn.Prelude.{
  ℕ, ◌+◌, ◌-◌, ◌%◌, Bool, true, false, not, ◌&&◌, ◌||◌, List, [], ◌∷◌, Option, none, some, Bytes,
  bytes_eq, ltb, leb, ◌==◌, if◌then◌else◌, take,
}
use memtier_skewsyn.CLib.{u32_mod}
use memtier_skewsyn.ObjGen.{DataObject}
use memtier_skewsyn.Protocol.Base.{ProtocolResponse}
use memtier_skewsyn.Protocol.Keylist.{Keylist, clear}
use memtier_skewsyn.ShardConnection.{
  Request, RequestType, rt_unknown, rt_set, rt_get, rt_wait, rt_auth, rt_select_db,
  rt_cluster_slots,
}
use memtier_skewsyn.Client.{ClientConfig, ObjectSource, Client, fetch_keys}

-- class verify_client. The counts of keys are not reduced to their words.
pub record VerifyClient (G : Type 0) : Type 0 where
  pub base : Client G
  pub m_finished : Bool
  pub m_verified_keys : ℕ
  pub m_errors : ℕ

-- struct verify_request
pub record VerifyRequest : Type 0 where
  pub request : Request
  pub m_key : Bytes
  pub m_value : Bytes
  pub m_value_len : ℕ

-- The request that send_verify_get_command of the connection queues, for the size of the command
abbrev pub new_verify_request : ℕ → ℕ → DataObject → VerifyRequest
new_verify_request cmd_size sent_time obj = record {
  request = record { m_type = rt_get; m_sent_time = sent_time; m_size = cmd_size; m_keys = 1 };
  m_key = take obj.m_key_len obj.m_key;
  m_value = take obj.m_value_len obj.m_value;
  m_value_len = obj.m_value_len;
}

module _ {G : Type 0} where
  -- verify_client::verify_client, but the protocol that is to keep the values
  abbrev pub new_verify_client : Client G → VerifyClient G
  new_verify_client c = record { base = c; m_finished = false; m_verified_keys = 0; m_errors = 0 }

  -- m_reqs_processed++
  abbrev pub skipped : ℕ → G → Keylist → VerifyClient G → VerifyClient G
  skipped keys_count g k v = record v {
    base = record v.base {
      m_obj_gen = g;
      m_keylist = k;
      m_get_ratio_count = v.base.m_get_ratio_count + keys_count;
      m_reqs_processed = (v.base.m_reqs_processed + 1) % u32_mod;
    };
  }

  abbrev verified :
      VerifyClient G → Option (DataObject × G) → Option (Option DataObject × VerifyClient G)
  verified v none = none
  verified v (some (obj, g)) = some (
    some obj,
    record v {
      base = record v.base { m_obj_gen = g; m_set_ratio_count = v.base.m_set_ratio_count + 1 };
    },
  )

  abbrev skipped_keys :
      ℕ → VerifyClient G → Option (Keylist × G) → Option (Option DataObject × VerifyClient G)
  skipped_keys keys_count v none = none
  skipped_keys keys_count v (some (k, g)) = some (none, skipped keys_count g k v)

  abbrev skipped_key :
      VerifyClient G → Option (Bytes × ℕ × G) → Option (Option DataObject × VerifyClient G)
  skipped_key v none = none
  skipped_key v (some (key, keylen, g)) = some (none, skipped 1 g v.base.m_keylist v)

module _ {G : Type 0} (config : ClientConfig) (source : ObjectSource G) where
  skip_command : VerifyClient G → Option (Option DataObject × VerifyClient G)
  unfolding fetch_keys
  skip_command v =
      let left = config.ratio.b - v.base.m_get_ratio_count in
      let keys_count = if ltb config.multi_key_get left then config.multi_key_get else left in
      if ltb 0 config.multi_key_get
      then skipped_keys keys_count v
          (fetch_keys config source keys_count (clear v.base.m_keylist) v.base.m_obj_gen)
      else skipped_key v (source.get_key config.get_iter v.base.m_obj_gen)

  -- verify_client::create_request, with the object of send_verify_get_command where it calls that
  unfoldable pub verify_create_request :
      VerifyClient G → Option (Option DataObject × VerifyClient G)
  unfolding skip_command
  verify_create_request v =
      if ltb v.base.m_set_ratio_count config.ratio.a
      then verified v (source.get_object config.set_iter v.base.m_obj_gen)
      else if ltb v.base.m_get_ratio_count config.ratio.b
      then skip_command v
      else some
          (none, record v { base = record v.base { m_set_ratio_count = 0; m_get_ratio_count = 0 } })

  -- verify_client::finished
  unfoldable pub verify_finished : VerifyClient G → Bool
  verify_finished v =
      v.m_finished || (ltb 0 config.requests && leb config.requests v.base.m_reqs_processed)

abbrev pub value_matches : Option Bytes → ℕ → VerifyRequest → Bool
value_matches none len vr = false
value_matches (some value) len vr =
    len == vr.m_value_len && bytes_eq (take len value) (take len vr.m_value)

abbrev pub is_get_type : RequestType → Bool
is_get_type rt_get = true
is_get_type _ = false

module _ {G : Type 0} where
  -- verify_client::handle_response; the assertion on the type is `none`.
  unfoldable pub verify_handle_response :
      VerifyRequest → ProtocolResponse → VerifyClient G → Option (VerifyClient G)
  verify_handle_response vr r v =
      if not (is_get_type vr.request.m_type)
      then none
      else if r.m_error
      then some (record v { m_errors = v.m_errors + 1 })
      else if not (value_matches r.m_value r.m_value_len vr)
      then some (record v { m_errors = v.m_errors + 1 })
      else some (record v { m_verified_keys = v.m_verified_keys + 1 })
