-- ===== src/Client/Ratio.antt =====
-- The ratio of sets and gets in the requests of client::create_request.
use memtier_skewsyn.Prelude.{
  ℕ, zero, suc, ◌+◌, ◌-◌, ◌%◌, ◌<◌, ◌≡◌, refl, sym, ap, ◌∙◌, inl, inr, Bool, true, false, not, ◌&&◌,
  Option, none, some, arith, Bytes, ltb, ◌==◌, if◌then◌else◌, Bool-cases, turn_mod, mod-lt,
}
use mathlib.Core.Path.{subst}
use memtier_skewsyn.ObjGen.{DataObject, Iter}
use memtier_skewsyn.Client.{
  ClientConfig, ObjectSource, Client, Command, send_set, send_get, wait_due, overlap, get_command,
  choose, create_request,
}

abbrev pub is_set : Command → Bool
is_set (send_set obj) = true
is_set _ = false

abbrev pub is_get : Command → Bool
is_get (send_get key) = true
is_get _ = false

-- The generator refuses nothing, and no key is empty.
pub record IsSure {G : Type 0} (source : ObjectSource G) : Type 0 where
  pub object :
      (i : Iter) (g : G) → (o : DataObject) × (g' : G) × (source.get_object i g ≡ some (o, g'))
  pub key :
      (i : Iter) (g : G)
      → (k : Bytes) × (n : ℕ) × (g' : G) × (source.get_key i g ≡ some (k, suc n, g'))

-- Single gets, and no waits.
pub record IsPlain (config : ClientConfig) : Type 0 where
  pub no_wait : config.wait_ratio.b ≡ 0
  pub single : config.multi_key_get ≡ 0
  pub some_request : 0 < config.ratio.a + config.ratio.b

module _ {G : Type 0} (config : ClientConfig) (source : ObjectSource G) (plain : IsPlain config)
    (sure : IsSure source) where
  abbrev a : ℕ
  a = config.ratio.a

  abbrev b : ℕ
  b = config.ratio.b

  -- The counters at place r of the turn.
  record IsAt (r : ℕ) (c : Client G) : Type 0 where
    sets : c.m_set_ratio_count ≡ (if ltb r a then r else a)
    gets : c.m_get_ratio_count ≡ r - a

  after : ℕ → ℕ
  after r = if suc r == a + b then 0 else suc r

  no_wait_due : (c : Client G) → wait_due config source c ≡ false
  unfolding wait_due
  no_wait_due c = rw plain.no_wait refl

  set_overlap :
      (r : ℕ) (c : Client G)
      → ltb r a ≡ true
      → c.m_set_ratio_count ≡ suc r
      → c.m_get_ratio_count ≡ 0
      → IsAt (after r) (overlap config source c)
  unfolding overlap after
  set_overlap r c lt s g =
      elim (Bool-cases (c.m_set_ratio_count == a && c.m_get_ratio_count == b)) [
        | inl e ↦ rw e (record { sets = ground arith; gets = ground arith })
        | inr e ↦ rw e (record { sets = ground arith; gets = ground arith })
      ]

  get_overlap :
      (r : ℕ) (c : Client G)
      → ltb r a ≡ false
      → r < a + b
      → c.m_set_ratio_count ≡ a
      → c.m_get_ratio_count ≡ r - a + 1
      → IsAt (after r) (overlap config source c)
  unfolding overlap after
  get_overlap r c ge lt s g =
      elim (Bool-cases (c.m_set_ratio_count == a && c.m_get_ratio_count == b)) [
        | inl e ↦ rw e (record { sets = ground arith; gets = ground arith })
        | inr e ↦ rw e (record { sets = ground arith; gets = ground arith })
      ]

  -- The request at place r of the turn, and the place after it.
  Steps : ℕ → Client G → Type 0
  Steps r c =
      (cmd : Command) × (c' : Client G) × (create_request config source c ≡ some (cmd, c'))
      × (is_set cmd ≡ ltb r a)
      × (is_get cmd ≡ not (ltb r a))
      × IsAt (after r) c'

  set_step : (r : ℕ) (c : Client G) → IsAt r c → ltb r a ≡ true → Steps r c
  unfolding Steps create_request choose
  set_step r c at lt =
      let (o, g, e) = sure.object config.set_iter c.m_obj_gen in
      let c1 : Client G = record c {
        m_obj_gen = g;
        m_reqs_generated = c.m_reqs_generated + 1;
        m_set_ratio_count = c.m_set_ratio_count + 1;
        m_tot_set_ops = c.m_tot_set_ops + 1;
      } in
      (
        send_set o,
        overlap config source c1,
        rw
            (
              no_wait_due c,
              let z : ltb c.m_set_ratio_count a ≡ true = ground (arith, at.sets) in z,
              e,
            )
            refl,
        sym lt,
        rw lt refl,
        set_overlap r c1 lt (ground (arith, at.sets)) (ground (arith, at.gets)),
      )

  get_step : (r : ℕ) (c : Client G) → IsAt r c → ltb r a ≡ false → r < a + b → Steps r c
  unfolding Steps create_request choose get_command
  get_step r c at ge lt =
      let (k, n, g, e) = sure.key config.get_iter c.m_obj_gen in
      let c1 : Client G = record c {
        m_obj_gen = g;
        m_reqs_generated = c.m_reqs_generated + 1;
        m_get_ratio_count = c.m_get_ratio_count + 1;
      } in
      (
        send_get k,
        overlap config source c1,
        rw
            (
              no_wait_due c,
              let z : ltb c.m_set_ratio_count a ≡ false = ground (arith, at.sets) in z,
              let z : ltb c.m_get_ratio_count b ≡ true = ground (arith, at.gets) in z,
              let z : ltb 0 config.multi_key_get ≡ false = ground (arith, plain.single) in z,
              e,
              let z : (suc n == 0) ≡ false = ground arith in z,
            )
            refl,
        sym ge,
        rw ge refl,
        get_overlap r c1 ge lt (ground (arith, at.sets)) (ground (arith, at.gets)),
      )

  step : (r : ℕ) (c : Client G) → r < a + b → IsAt r c → Steps r c
  step r c lt at = elim (Bool-cases (ltb r a)) [
    | inl e ↦ set_step r c at e
    | inr e ↦ get_step r c at e lt
  ]

  abbrev client_of : Option (Command × Client G) → Option (Client G)
  client_of none = none
  client_of (some (cmd, c)) = some c

  abbrev next_of : Option (Client G) → Option (Client G)
  next_of none = none
  next_of (some c) = client_of (create_request config source c)

  -- The client after n calls of create_request.
  unfoldable pub requested : ℕ → Client G → Option (Client G)
  requested zero c = some c
  requested (suc n) c = next_of (requested n c)

  place-lt : (n : ℕ) → n % (a + b) < a + b
  place-lt n = mod-lt n plain.some_request

  requested_lem :
      (n : ℕ) (c : Client G)
      → c.m_set_ratio_count ≡ 0
      → c.m_get_ratio_count ≡ 0
      → (h : Client G) × (requested n c ≡ some h) × IsAt (n % (a + b)) h
  unfolding requested after Steps
  requested_lem zero c s g = (
    c,
    refl,
    record {
      sets =
          (let z : 0 % (a + b) ≡ 0 = omega (arith, plain.some_request) in rw (z, s) (ground arith));
      gets = omega (arith, g, plain.some_request);
    },
  )
  requested_lem (suc n) c s g =
      let (h, e, at) = requested_lem n c s g in
      let (cmd, h', made, _, _, at') = step (n % (a + b)) h (place-lt n) at in
      (
        h',
        ap next_of e ∙ ap client_of made,
        subst (λ r. IsAt r h') (turn_mod n (a + b) plain.some_request) at',
      )

  -- With single gets and no waits, and a generator that refuses nothing, no call of create_request fails, and of
  -- each turn of a + b requests, for the ratio a:b, the first a are sets and the others are gets.
  pub create_request-ratio :
      (n : ℕ) (c : Client G)
      → c.m_set_ratio_count ≡ 0
      → c.m_get_ratio_count ≡ 0
      → (h : Client G) × (cmd : Command) × (h' : Client G) × (requested n c ≡ some h)
        × (create_request config source h ≡ some (cmd, h'))
        × (is_set cmd ≡ ltb (n % (config.ratio.a + config.ratio.b)) config.ratio.a)
        × (is_get cmd ≡ not (ltb (n % (config.ratio.a + config.ratio.b)) config.ratio.a))
  unfolding Steps
  create_request-ratio n c s g =
      let (h, e, at) = requested_lem n c s g in
      let (cmd, h', made, set, get, _) = step (n % (a + b)) h (place-lt n) at in
      (h, cmd, h', e, made, set, get)
