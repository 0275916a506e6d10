-- ===== src/ShardConnection/Order.antt =====
-- shard_connection::process_response matches the responses with the requests in the order of the queue.
use memtier_skewsyn.Prelude.{
  ℕ, zero, suc, ◌-◌, ◌<◌, ◌≡◌, ◌≢◌, refl, ap, ◌∙◌, Bool, true, false, List, [], ◌∷◌, ◌++◌, arith,
  ◌==◌, if◌then◌else◌, length, All,
}
use memtier_skewsyn.Protocol.Base.{
  ProtocolResponse, Outcome, complete, incomplete, failed, aborted, overrun, exhausted,
}
use memtier_skewsyn.ShardConnection.{
  Config, Protocol, Manager, Request, RequestType, rt_unknown, rt_set, rt_get, rt_wait, rt_auth,
  rt_select_db, rt_cluster_slots, pop_req,
}
use memtier_skewsyn.ShardConnection.Fill.{Outside, System}
use memtier_skewsyn.ShardConnection.Handle.{
  handled, handle_request, handle_popped, handle_one, parsed, processed, after_parse, after_handle,
  process_loop,
}

-- A request that is no setup command.
abbrev pub IsBenchmark : RequestType → Type 0
IsBenchmark rt_auth = ¬ Unit
IsBenchmark rt_select_db = ¬ Unit
IsBenchmark rt_cluster_slots = ¬ Unit
IsBenchmark _ = Unit

abbrev BenchmarkRequest : Request → Type 0
BenchmarkRequest req = IsBenchmark req.m_type

module _ {P M T : Type 0} (protocol : Protocol P) (config : Config) (man : Manager P M)
    (out : Outside P T) (now : ℕ) where
  -- The protocol gives these responses one by one, and then stops with o in state p'.
  abbrev pub Answers : List ProtocolResponse → P → Outcome → P → Type 0
  Answers [] p o p' = (protocol.parse_response p ≡ (o, p')) × (o ≢ complete)
  Answers (r ∷ rs) p o p' =
      (p1 : P) × (protocol.parse_response p ≡ (complete, p1))
      × (protocol.get_response p1 ≡ r)
      × Answers rs p1 o p'

  -- The manager is given each response with its request, in order.
  abbrev pub handled_all : List Request → List ProtocolResponse → M → M
  handled_all (req ∷ reqs) (r ∷ rs) m =
      handled_all reqs rs (man.inc_reqs_processed (man.handle_response now req r m))
  handled_all _ _ m = m

  abbrev pub any_handled : List ProtocolResponse → Bool → Bool
  any_handled [] b = b
  any_handled (r ∷ rs) b = true

  any_true : (rs : List ProtocolResponse) → any_handled rs true ≡ true
  any_true [] = refl
  any_true (r ∷ rs) = refl

  benchmark_handled :
      (t : RequestType) (req : Request) (s : System P M T)
      → IsBenchmark t
      → handle_request protocol config man out now t req s
        ≡ handled true (record s {
          manager =
              man.inc_reqs_processed
                (man.handle_response now req (protocol.get_response s.conn.m_protocol) s.manager);
        })
  unfolding handle_request
  benchmark_handled rt_unknown req s h = refl
  benchmark_handled rt_set req s h = refl
  benchmark_handled rt_get req s h = refl
  benchmark_handled rt_wait req s h = refl
  benchmark_handled rt_auth req s h = absurd (h tt)
  benchmark_handled rt_select_db req s h = absurd (h tt)
  benchmark_handled rt_cluster_slots req s h = absurd (h tt)

  -- The system with the protocol at p, these requests waiting, and manager m.
  abbrev pub at : System P M T → P → List Request → M → System P M T
  at s p reqs m = record s {
    conn = record s.conn { m_protocol = p; m_pipeline = reqs; m_pending_resp = length reqs };
    manager = m;
  }

  one_handled :
      (s : System P M T) (p : P) (req : Request) (reqs : List Request) (m : M)
      → BenchmarkRequest req
      → handle_one protocol config man out now (at s p (req ∷ reqs) m)
        ≡ handled true (
            at s p reqs
              (man.inc_reqs_processed (man.handle_response now req (protocol.get_response p) m)))
  unfolding handle_one handle_popped pop_req
  one_handled s p req reqs m h =
      rw
        (
          let z : (suc (length reqs) == 0) ≡ false = ground arith in z,
          let z : suc (length reqs) - 1 ≡ length reqs = omega arith in z,
        )
        (benchmark_handled req.m_type req (at s p reqs m) h)

  parsed-at :
      (s : System P M T) (p p1 : P) (reqs : List Request) (m : M) {o : Outcome}
      → protocol.parse_response p ≡ (o, p1)
      → parsed protocol config man out (at s p reqs m) ≡ (o, at s p1 reqs m)
  unfolding parsed
  parsed-at s p p1 reqs m {o} parse =
      ap {B = Outcome × System P M T} (λ (t : Outcome × P). (t.0, at s t.1 reqs m)) parse

  loop_step :
      (f : ℕ) (b : Bool) (s s' : System P M T) (p p1 : P) (reqs : List Request) (m : M)
      → protocol.parse_response p ≡ (complete, p1)
      → handle_one protocol config man out now (at s p1 reqs m) ≡ handled true s'
      → process_loop protocol config man out (suc f) now b (at s p reqs m)
        ≡ process_loop protocol config man out f now true s'
  unfolding process_loop
  loop_step f b s s' p p1 reqs m parse one =
      ap (after_parse protocol config man out b _) (parsed-at s p p1 reqs m parse)
      ∙ ap
          (after_handle protocol config man out (λ is_benchmark s2.
            process_loop protocol config man out f now (if is_benchmark then true else b) s2))
          one

  loop_end :
      (f : ℕ) (b : Bool) (s : System P M T) (p p1 : P) (reqs : List Request) (m : M) (o : Outcome)
      → protocol.parse_response p ≡ (o, p1)
      → o ≢ complete
      → process_loop protocol config man out (suc f) now b (at s p reqs m)
        ≡ processed o b (at s p1 reqs m)
  unfolding process_loop
  loop_end f b s p p1 reqs m complete parse ne = absurd (ne refl)
  loop_end f b s p p1 reqs m incomplete parse ne =
      ap (after_parse protocol config man out b _) (parsed-at s p p1 reqs m parse)
  loop_end f b s p p1 reqs m failed parse ne =
      ap (after_parse protocol config man out b _) (parsed-at s p p1 reqs m parse)
  loop_end f b s p p1 reqs m aborted parse ne =
      ap (after_parse protocol config man out b _) (parsed-at s p p1 reqs m parse)
  loop_end f b s p p1 reqs m overrun parse ne =
      ap (after_parse protocol config man out b _) (parsed-at s p p1 reqs m parse)
  loop_end f b s p p1 reqs m exhausted parse ne =
      ap (after_parse protocol config man out b _) (parsed-at s p p1 reqs m parse)

  -- When the protocol gives responses to the requests at the front of the queue, none of them a setup command, the
  -- loop hands each response to the manager with the request that it answers, first in first out; the
  -- requests behind stay, the count of pending responses is their number, and the loop needs one round
  -- more than there are responses.
  pub process_loop-order :
      (reqs back : List Request) (rs : List ProtocolResponse) (f : ℕ) (b : Bool) (s : System P M T)
      (p p' : P) (m : M) (o : Outcome)
      → length reqs ≡ length rs
      → All BenchmarkRequest reqs
      → Answers rs p o p'
      → length rs < f
      → process_loop protocol config man out f now b (at s p (reqs ++ back) m)
        ≡ processed o (any_handled rs b) (at s p' back (handled_all reqs rs m))
  process_loop-order reqs back rs zero b s p p' m o e h a lt = elim lt [ ]
  process_loop-order [] back [] (suc f) b s p p' m o e h (parse, ne) lt =
      loop_end f b s p p' back m o parse ne
  process_loop-order [] back (r ∷ rs) f b s p p' m o e h a lt = absurd (omega (arith, e))
  process_loop-order (req ∷ reqs) back [] f b s p p' m o e h a lt = absurd (omega (arith, e))
  process_loop-order (req ∷ reqs) back (r ∷ rs) (suc f) b s p p' m o e (h, hs) (p1, parse, same, a)
        lt =
      let m1 = man.inc_reqs_processed (man.handle_response now req r m) in
      loop_step f b s _ p p1 (req ∷ (reqs ++ back)) m parse
        (one_handled s p1 req (reqs ++ back) m h)
      ∙ ap
          (λ r.
            process_loop protocol config man out f now true
              (at s p1 (reqs ++ back) (man.inc_reqs_processed (man.handle_response now req r m))))
          same
      ∙ process_loop-order reqs back rs f true s p1 p' m1 o (omega (arith, e)) hs a
          (omega (arith, lt))
      ∙ ap (λ b. processed o b (at s p' back (handled_all reqs rs m1))) (any_true rs)
