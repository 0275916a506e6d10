-- ===== src/Tests/Stats.antt =====
-- Statistics of responses, the arrays of latencies, and a verify_client beside its client.
use memtier_skewsyn.Prelude.{
  ℕ, ◌+◌, ◌*◌, ◌-◌, ◌^◌, ◌≤◌, ◌<◌, ◌≡◌, ◌⊎◌, inl, refl, List, [], ◌∷◌, some, arith, codes, length,
  take,
}
use memtier_skewsyn.ObjGen.{no_object}
use memtier_skewsyn.Protocol.Base.{ProtocolResponse, cleared}
use memtier_skewsyn.Client.{Client, create_request}
use memtier_skewsyn.Client.Stats.{OneSecond, RunStats, new_stats, set_start_time, set_end_time}
use memtier_skewsyn.Client.Merge.{summarize, average, merge_stats}
use memtier_skewsyn.Client.Totals.{
  Op, get_op, set_op, wait_op, counted_ops, sum_of, op_bytes, op_latency, Ascending, IsAdditive,
  total, summarize-totals,
}
use memtier_skewsyn.Client.Merged.{merge_stats-merges}
use memtier_skewsyn.Client.Responses.{recorded, overrun}
use memtier_skewsyn.Client.Responses.Counts.{record_all, array_at, record_all-fills}
use memtier_skewsyn.Client.Verify.{
  VerifyClient, VerifyRequest, new_verify_client, new_verify_request, verify_handle_response,
}
use memtier_skewsyn.Client.Verify.Turn.{Synced}
use memtier_skewsyn.Client.Verify.InStep.{client_sets, verify_gets, verify_gets-InStep}
use memtier_skewsyn.Client.Verify.Judges.{Confirms, verify_handle_response-Judges}
use memtier_skewsyn.Tests.Client.{counter, client, options}

abbrev ops : List Op
ops = wait_op 3000010 9 ∷ get_op 2000005 8 5 1 0 ∷ set_op 1000003 20 7 ∷ []

abbrev bucket : ℕ → ℕ
bucket latency = latency

abbrev stats : RunStats
stats = counted_ops bucket ops (set_start_time 1000000 new_stats)

summarize-totals_example :
    ((summarize (set_end_time 4000000 stats)).ops ≡ length ops)
    × ((set_end_time 4000000 stats).m_ops ≡ length ops)
    × ((summarize (set_end_time 4000000 stats)).bytes ≡ sum_of op_bytes ops)
    × ((set_end_time 4000000 stats).m_bytes ≡ sum_of op_bytes ops)
    × ((summarize (set_end_time 4000000 stats)).latency
        ≡ average (sum_of op_latency ops) (length ops))
    × ((set_end_time 4000000 stats).m_latency ≡ sum_of op_latency ops)
    × Ascending (set_end_time 4000000 stats).m_stats
summarize-totals_example = summarize-totals bucket 1000000 4000000 ops

-- Seconds 0 and 2 of one client, and seconds 2 and 1 of another
abbrev at_second : ℕ → OneSecond
at_second n = record {
  m_second = n;
  m_bytes_get = 10;
  m_bytes_set = 0;
  m_ops_get = 1;
  m_ops_set = 0;
  m_ops_wait = 0;
  m_get_hits = 1;
  m_get_misses = 0;
  m_total_get_latency = 5;
  m_total_set_latency = 0;
  m_total_wait_latency = 0;
}

abbrev one : RunStats
one = record new_stats { m_stats = at_second 0 ∷ at_second 2 ∷ []; m_ops = 2 }

abbrev other : RunStats
other = record new_stats { m_stats = at_second 2 ∷ at_second 1 ∷ []; m_ops = 2 }

merge_stats-merges_example :
    Ascending (merge_stats 1 9 other one).m_stats
    × ((f : OneSecond → ℕ)
        → IsAdditive f
        → total f (merge_stats 1 9 other one).m_stats ≡ total f one.m_stats + total f other.m_stats)
    × ((merge_stats 1 9 other one).m_ops ≡ one.m_ops + other.m_ops)
    × ((merge_stats 1 9 other one).m_bytes ≡ one.m_bytes + other.m_bytes)
merge_stats-merges_example = merge_stats-merges 1 9 other one ((omega arith, tt), (tt, tt))

abbrev array : List ℕ
array = 0 ∷ 0 ∷ []

abbrev two : List ℕ
two = 7 ∷ 8 ∷ []

two-small : 2 < 2 ^ 32 - 1
two-small = omega arith

record_all-fills_example :
    (length two ≤ 2
      → (stored : List ℕ) × (record_all 2 two-small two (array_at 2 two-small array 0)
          ≡ recorded (array_at 2 two-small stored (length two)))
        × (take (length two) stored ≡ two))
    × (2 < length two → record_all 2 two-small two (array_at 2 two-small array 0) ≡ overrun)
record_all-fills_example = record_all-fills 2 two-small array two refl

abbrev verifier : VerifyClient ℕ
verifier = new_verify_client client

verifier-Synced : Synced options client verifier.base
verifier-Synced = record {
  generator = refl;
  keys = refl;
  counts = inl (refl, refl);
  sets = omega arith;
  gets = omega arith;
}

abbrev after_five : Client ℕ
after_five = record client {
  m_obj_gen = 5;
  m_reqs_generated = 5;
  m_set_ratio_count = 1;
  m_get_ratio_count = 1;
  m_tot_set_ops = 2;
}

five_requests : client_sets options counter 5 client ≡ some (no_object ∷ no_object ∷ [], after_five)
unfolding client_sets create_request
five_requests = refl

verify_gets-InStep_example :
    (m : ℕ) × (w : VerifyClient ℕ) × (m ≤ 2 * 5)
    × (verify_gets options counter m verifier ≡ some (no_object ∷ no_object ∷ [], w))
    × Synced options after_five w.base
verify_gets-InStep_example =
    verify_gets-InStep options counter 5 client verifier (no_object ∷ no_object ∷ []) after_five
      refl verifier-Synced five_requests

abbrev asked : VerifyRequest
asked = new_verify_request 20 1000 (record no_object { m_value = codes "abc"; m_value_len = 3 })

abbrev answer : ProtocolResponse
answer = record cleared { m_value = some (codes "abd"); m_value_len = 3 }

verify_handle_response-Judges_example :
    (w : VerifyClient ℕ) × (verify_handle_response asked answer verifier ≡ some w)
    × ((Confirms answer asked × (w.m_verified_keys ≡ 0 + 1) × (w.m_errors ≡ 0))
        ⊎ ((Confirms answer asked → ⊥) × (w.m_verified_keys ≡ 0) × (w.m_errors ≡ 0 + 1)))
verify_handle_response-Judges_example =
    verify_handle_response-Judges asked answer verifier refl refl refl
