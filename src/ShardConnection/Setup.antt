-- ===== src/ShardConnection/Setup.antt =====
-- The setup commands of a connection, and the count of its pending responses.
use memtier_skewsyn.Prelude.{
  ℕ, ◌-◌, ◌≡◌, ◌≢◌, refl, sym, ap, ◌∙◌, false, List, [], ◌∷◌, ◌++◌, some, arith, ◌==◌, length,
  length-append, append_assoc, append-nil,
}
use mathlib.Core.Path.{subst}
use memtier_skewsyn.ShardConnection.{
  Config, Protocol, Connection, Request, RequestType, rt_auth, rt_select_db, rt_cluster_slots,
  SetupState, setup_none, setup_sent, setup_done, push_req, pop_req, pop_from, send_authentication,
  send_db_selection, send_slots, send_conn_setup_commands,
}

-- The count of pending responses is the number of requests in the queue.
abbrev pub Counted : {P : Type 0} → Connection P → Type 0
Counted c = c.m_pending_resp ≡ length c.m_pipeline

-- The request of a setup command that is still to be sent.
abbrev pub request_of : RequestType → ℕ → SetupState → List Request
request_of type now setup_none =
    record { m_type = type; m_sent_time = now; m_size = 0; m_keys = 0 } ∷ []
request_of type now _ = []

abbrev pub sent_of : SetupState → SetupState
sent_of setup_none = setup_sent
sent_of st = st

module _ {P : Type 0} where
  -- The queue grows by these requests, and the count with it.
  record Queues (c : Connection P) (reqs : List Request) (d : Connection P) : Type 0 where
    queue : d.m_pipeline ≡ c.m_pipeline ++ reqs
    count : Counted c → Counted d

  Queues-none : (c : Connection P) → Queues c [] c
  Queues-none c = record { queue = sym (append-nil c.m_pipeline); count = λ h. h }

  Queues-trans :
      {c d e : Connection P} {xs ys : List Request}
      → Queues c xs d
      → Queues d ys e
      → Queues c (xs ++ ys) e
  Queues-trans {c} {d} {e} {xs} {ys} q r = record {
    queue = r.queue ∙ ap (λ l. l ++ ys) q.queue ∙ append_assoc c.m_pipeline xs ys;
    count = λ h. r.count (q.count h);
  }

  pub push_req-Counted : (req : Request) (c : Connection P) → Counted c → Counted (push_req req c)
  unfolding push_req
  push_req-Counted req c h = omega (arith, h, length-append c.m_pipeline (req ∷ []))

  -- pop_req takes the oldest request of a queue that is not empty, and the count of pending responses stays the
  -- number of requests in the queue.
  pub pop_req-Counted :
      (c : Connection P)
      → Counted c
      → c.m_pipeline ≢ []
      → (req : Request) × (d : Connection P) × (pop_req c ≡ some (req, d))
        × (c.m_pipeline ≡ req ∷ d.m_pipeline)
        × Counted d
  unfolding pop_req
  pop_req-Counted c h ne = go c.m_pipeline refl
    where
      go :
          (reqs : List Request)
          → c.m_pipeline ≡ reqs
          → (req : Request) × (d : Connection P) × (pop_from c.m_pipeline c ≡ some (req, d))
            × (c.m_pipeline ≡ req ∷ d.m_pipeline)
            × Counted d
      go [] e = absurd (ne e)
      go (req ∷ reqs) e = (
        req,
        record c { m_pipeline = reqs; m_pending_resp = c.m_pending_resp - 1 },
        ap (λ l. pop_from l c) e
            ∙ rw (let z : (c.m_pending_resp == 0) ≡ false = ground (arith, h, ap length e) in z)
                refl,
        e,
        omega (arith, h, ap length e),
      )

module _ {P : Type 0} (protocol : Protocol P) (config : Config) (now : ℕ) where
  authentication_Queues :
      (st : SetupState) (c : Connection P)
      → Queues c (request_of rt_auth now st) (send_authentication protocol config now st c)
  unfolding send_authentication push_req
  authentication_Queues setup_none c = record {
    queue = refl;
    count = λ h. omega (arith, h, length-append c.m_pipeline (request_of rt_auth now setup_none));
  }
  authentication_Queues setup_sent c = Queues-none c
  authentication_Queues setup_done c = Queues-none c

  selection_Queues :
      (st : SetupState) (c : Connection P)
      → Queues c (request_of rt_select_db now st) (send_db_selection protocol config now st c)
  unfolding send_db_selection push_req
  selection_Queues setup_none c = record {
    queue = refl;
    count =
        λ h. omega (arith, h, length-append c.m_pipeline (request_of rt_select_db now setup_none));
  }
  selection_Queues setup_sent c = Queues-none c
  selection_Queues setup_done c = Queues-none c

  slots_Queues :
      (st : SetupState) (c : Connection P)
      → Queues c (request_of rt_cluster_slots now st) (send_slots protocol config now st c)
  unfolding send_slots push_req
  slots_Queues setup_none c = record {
    queue = refl;
    count = λ h.
        omega (arith, h, length-append c.m_pipeline (request_of rt_cluster_slots now setup_none));
  }
  slots_Queues setup_sent c = Queues-none c
  slots_Queues setup_done c = Queues-none c

  -- The three states of a connection.
  abbrev States : Connection P → SetupState → SetupState → SetupState → Type 0
  States c x y z = (c.m_authentication ≡ x) × (c.m_db_selection ≡ y) × (c.m_cluster_slots ≡ z)

  module _ (c : Connection P) (x y z : SetupState) (h : States c x y z) where
    authentication_States : States (send_authentication protocol config now x c) (sent_of x) y z
    unfolding send_authentication push_req
    authentication_States =
        elim x
            as (λ x.
              States c x y z
              → States (send_authentication protocol config now x c) (sent_of x) y z) [
                | setup_none ↦ λ h. (refl, h.1, h.2)
                | setup_sent ↦ λ h. h
                | setup_done ↦ λ h. h
              ]
          h

    selection_States : States (send_db_selection protocol config now y c) x (sent_of y) z
    unfolding send_db_selection push_req
    selection_States =
        elim y
            as (λ y.
              States c x y z → States (send_db_selection protocol config now y c) x (sent_of y) z) [
                | setup_none ↦ λ h. (h.0, refl, h.2)
                | setup_sent ↦ λ h. h
                | setup_done ↦ λ h. h
              ]
          h

    slots_States : States (send_slots protocol config now z c) x y (sent_of z)
    unfolding send_slots push_req
    slots_States =
        elim z
            as (λ z. States c x y z → States (send_slots protocol config now z c) x y (sent_of z)) [
              | setup_none ↦ λ h. (h.0, h.1, refl)
              | setup_sent ↦ λ h. h
              | setup_done ↦ λ h. h
            ]
          h

  -- The commands of the setup for connection c, in order.
  abbrev pub setup_requests : Connection P → List Request
  setup_requests c =
      request_of rt_auth now c.m_authentication
      ++ (request_of rt_select_db now c.m_db_selection
          ++ request_of rt_cluster_slots now c.m_cluster_slots)

  setup_lem :
      (c : Connection P)
      → Queues c (setup_requests c) (send_conn_setup_commands protocol config now c)
        × States
            (send_conn_setup_commands protocol config now c)
            (sent_of c.m_authentication)
            (sent_of c.m_db_selection)
            (sent_of c.m_cluster_slots)
  unfolding send_conn_setup_commands
  setup_lem c =
      let x = c.m_authentication in
      let y = c.m_db_selection in
      let z = c.m_cluster_slots in
      let c1 = send_authentication protocol config now x c in
      let s1 = authentication_States c x y z (refl, refl, refl) in
      let c2 = send_db_selection protocol config now y c1 in
      let s2 = selection_States c1 (sent_of x) y z s1 in
      let q =
        Queues-trans (authentication_Queues x c)
          (Queues-trans (selection_Queues y c1) (slots_Queues z c2)) in
      let s3 = slots_States c2 (sent_of x) (sent_of y) z s2 in
      let same =
        ap
          (λ st.
            let d = send_db_selection protocol config now st c1 in
            send_slots protocol config now d.m_cluster_slots d)
          s1.1
        ∙ ap (λ st. send_slots protocol config now st c2) s2.2 in
      subst (λ d. Queues c (setup_requests c) d × States d (sent_of x) (sent_of y) (sent_of z))
        (sym same) (q, s3)

  -- With nothing left to send, nothing is sent.
  setup_again :
      (x y z : SetupState) (d : Connection P)
      → States d (sent_of x) (sent_of y) (sent_of z)
      → send_conn_setup_commands protocol config now d ≡ d
  unfolding send_conn_setup_commands send_authentication send_db_selection send_slots
  setup_again x y z d (a, b, e) =
      let after2 = (λ (c : Connection P). send_slots protocol config now c.m_cluster_slots c) in
      let after1 =
        (λ (c : Connection P). after2 (send_db_selection protocol config now c.m_db_selection c)) in
      ap (λ st. after1 (send_authentication protocol config now st d)) a
      ∙ ap after1 (auth_again x)
      ∙ ap (λ st. after2 (send_db_selection protocol config now st d)) b
      ∙ ap after2 (db_again y)
      ∙ ap (λ st. send_slots protocol config now st d) e
      ∙ slots_again z
    where
      auth_again : (x : SetupState) → send_authentication protocol config now (sent_of x) d ≡ d
      auth_again setup_none = refl
      auth_again setup_sent = refl
      auth_again setup_done = refl

      db_again : (y : SetupState) → send_db_selection protocol config now (sent_of y) d ≡ d
      db_again setup_none = refl
      db_again setup_sent = refl
      db_again setup_done = refl

      slots_again : (z : SetupState) → send_slots protocol config now (sent_of z) d ≡ d
      slots_again setup_none = refl
      slots_again setup_sent = refl
      slots_again setup_done = refl

-- send_conn_setup_commands queues a request for each setup command that is not sent yet, authentication first,
-- then the database, then the cluster slots; it keeps the count of pending responses; and a second call, at
-- any time, sends nothing more.
pub send_conn_setup_commands-once :
    {P : Type 0} (protocol : Protocol P) (config : Config) (now later : ℕ) (c : Connection P)
    → let d = send_conn_setup_commands protocol config now c in
      (d.m_pipeline ≡ c.m_pipeline ++ setup_requests protocol config now c)
      × (Counted c → Counted d)
      × (send_conn_setup_commands protocol config later d ≡ d)
send_conn_setup_commands-once protocol config now later c =
    let (q, st) = setup_lem protocol config now c in
    (
      q.queue,
      q.count,
      setup_again protocol config later c.m_authentication c.m_db_selection c.m_cluster_slots _ st,
    )
