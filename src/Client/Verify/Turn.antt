-- ===== src/Client/Verify/Turn.antt =====
-- One call of a verify_client beside one request of the client that wrote the keys.
use memtier_skewsyn.Prelude.{
  ℕ, ◌+◌, ◌-◌, ◌≤◌, ◌≡◌, refl, ◌⊎◌, inl, inr, true, false, ◌&&◌, Option, none, some, arith, Bytes,
  ltb, ◌==◌, if◌then◌else◌, Bool-cases,
}
use mathlib.Core.Path.{subst}
use memtier_skewsyn.ObjGen.{DataObject}
use memtier_skewsyn.Protocol.Keylist.{Keylist, clear}
use memtier_skewsyn.Client.{
  ClientConfig, ObjectSource, Client, Command, send_set, send_nothing, wait_due, overlap,
  get_command, fetch_keys, choose, create_request, multi_got, got, was_set, overlapped,
}
use memtier_skewsyn.Client.Verify.{
  VerifyClient, verified, skipped_key, skipped_keys, verify_create_request, skip_command,
}

-- The object that a command of the client sets
abbrev pub set_of : Command → Option DataObject
set_of (send_set obj) = some obj
set_of _ = none

module _ {G : Type 0} (config : ClientConfig) where
  abbrev pub InTurn : Client G → Client G → Type 0
  InTurn c v =
      (c.m_set_ratio_count ≡ v.m_set_ratio_count) × (c.m_get_ratio_count ≡ v.m_get_ratio_count)

  -- The client starts the counts over at once, the verify_client with the next call.
  abbrev pub AtEnd : Client G → Client G → Type 0
  AtEnd c v =
      (c.m_set_ratio_count ≡ 0)
      × (c.m_get_ratio_count ≡ 0)
      × (v.m_set_ratio_count ≡ config.ratio.a)
      × (v.m_get_ratio_count ≡ config.ratio.b)

  -- Both are at the same place of the same sequence of keys.
  pub record Synced (c : Client G) (v : Client G) : Type 0 where
    pub generator : c.m_obj_gen ≡ v.m_obj_gen
    pub keys : clear c.m_keylist ≡ clear v.m_keylist
    pub counts : InTurn c v ⊎ AtEnd c v
    pub sets : v.m_set_ratio_count ≤ config.ratio.a
    pub gets : v.m_get_ratio_count ≤ config.ratio.b

  overlap-Synced :
      (source : ObjectSource G) (c v : Client G)
      → c.m_obj_gen ≡ v.m_obj_gen
      → clear c.m_keylist ≡ clear v.m_keylist
      → InTurn c v
      → v.m_set_ratio_count ≤ config.ratio.a
      → v.m_get_ratio_count ≤ config.ratio.b
      → Synced (overlap config source c) v
  unfolding overlap
  overlap-Synced source c v g k t s l =
      elim (Bool-cases
        (c.m_set_ratio_count == config.ratio.a && c.m_get_ratio_count == config.ratio.b)) [
          | inl e ↦ rw e (record {
            generator = g;
            keys = k;
            counts = inr (refl, refl, ground (arith, t.0), ground (arith, t.1));
            sets = s;
            gets = l;
          })
          | inr e ↦ rw e (record { generator = g; keys = k; counts = inl t; sets = s; gets = l })
        ]

module _ {G : Type 0} (config : ClientConfig) (source : ObjectSource G) where
  -- The call of the verify_client does what the request of the client asks for.
  Matches : Option (Command × Client G) → Option (Option DataObject × VerifyClient G) → Type 0
  Matches none r = Unit
  Matches (some (cmd, c)) r =
      (v : VerifyClient G) × (r ≡ some (set_of cmd, v)) × Synced config c v.base

  module _ (c : Client G) (v : VerifyClient G) (s : Synced config c v.base)
      (t : InTurn config c v.base) where
    set_Matches :
        (r : Option (DataObject × G))
        → ltb v.base.m_set_ratio_count config.ratio.a ≡ true
        → Matches (overlapped config source (was_set config source c r)) (verified v r)
    unfolding Matches
    set_Matches none lt = tt
    set_Matches (some (obj, g)) lt = (
      _,
      refl,
      overlap-Synced config source _ _ refl s.keys (omega (arith, t.0), t.1) (ground arith) s.gets,
    )

    get_Matches :
        (r : Option (Bytes × ℕ × G))
        → ltb v.base.m_get_ratio_count config.ratio.b ≡ true
        → Matches (overlapped config source (got config source c r)) (skipped_key v r)
    unfolding Matches
    get_Matches none lt = tt
    get_Matches (some (key, keylen, g)) lt = elim (Bool-cases (keylen == 0)) [
      | inl e ↦ rw e tt
      | inr e ↦ rw e (
        _,
        refl,
        overlap-Synced config source _ _ refl s.keys (t.0, omega (arith, t.1)) s.sets
            (ground arith),
      )
    ]

    keys_Matches :
        (n : ℕ) (r : Option (Keylist × G))
        → v.base.m_get_ratio_count + n ≤ config.ratio.b
        → Matches (overlapped config source (multi_got config source n c r)) (skipped_keys n v r)
    unfolding Matches
    keys_Matches n none le = tt
    keys_Matches n (some (k, g)) le =
        (_, refl, overlap-Synced config source _ _ refl refl (t.0, omega (arith, t.1)) s.sets le)

    abbrev count_of : ℕ → ℕ
    count_of got =
        if ltb config.multi_key_get (config.ratio.b - got)
        then config.multi_key_get
        else config.ratio.b - got

    command_Matches :
        ltb v.base.m_get_ratio_count config.ratio.b ≡ true
        → Matches
            (overlapped config source (get_command config source c))
            (skip_command config source v)
    unfolding get_command skip_command
    command_Matches lt = elim (Bool-cases (ltb 0 config.multi_key_get)) [
      | inl e ↦
          let n = count_of c.m_get_ratio_count in
          rw e (
            subst
              (λ r.
                Matches
                  (overlapped config source (
                    multi_got config source n c
                      (fetch_keys config source n (clear c.m_keylist) c.m_obj_gen)))
                  r)
              (λ i.
                skipped_keys (count_of (t.1 i)) v
                  (fetch_keys config source (count_of (t.1 i)) (s.keys i) (s.generator i)))
              (keys_Matches n (fetch_keys config source n (clear c.m_keylist) c.m_obj_gen)
                (ground (arith, t.1))))
      | inr e ↦ rw e (
          subst
            (λ r.
              Matches
                (overlapped config source
                  (got config source c (source.get_key config.get_iter c.m_obj_gen)))
                r)
            (λ i. skipped_key v (source.get_key config.get_iter (s.generator i)))
            (get_Matches (source.get_key config.get_iter c.m_obj_gen) lt))
    ]

    no_wait_due : config.wait_ratio.b ≡ 0 → wait_due config source c ≡ false
    unfolding wait_due
    no_wait_due h = rw h refl

    -- Both have come to the end of a turn.
    none-Matches :
        ltb v.base.m_set_ratio_count config.ratio.a ≡ false
        → ltb v.base.m_get_ratio_count config.ratio.b ≡ false
        → Matches (overlapped config source (some (send_nothing, c))) (
            some (
              none,
              record v { base = record v.base { m_set_ratio_count = 0; m_get_ratio_count = 0 } },
            ))
    unfolding Matches overlap
    none-Matches f g =
        let z : (c.m_set_ratio_count == config.ratio.a && c.m_get_ratio_count == config.ratio.b)
            ≡ true =
          (let x = s.sets in let y = s.gets in let tt0 = t.0 in let tt1 = t.1 in ground arith) in
        rw z (
          _,
          refl,
          record {
            generator = s.generator;
            keys = s.keys;
            counts = inl (refl, refl);
            sets = omega arith;
            gets = omega arith;
          },
        )

    turn_Matches :
        config.wait_ratio.b ≡ 0
        → Matches (create_request config source c) (verify_create_request config source v)
    unfolding create_request choose verify_create_request
    turn_Matches h = elim (Bool-cases (ltb v.base.m_set_ratio_count config.ratio.a)) [
      | inl e ↦
          let z : ltb c.m_set_ratio_count config.ratio.a ≡ true = rw t.0 e in
          rw (no_wait_due h, z, e)
            (subst
              (λ r.
                Matches
                  (overlapped config source
                    (was_set config source c (source.get_object config.set_iter c.m_obj_gen)))
                  r)
              (λ i. verified v (source.get_object config.set_iter (s.generator i)))
              (set_Matches (source.get_object config.set_iter c.m_obj_gen) e))
      | inr e ↦
          let z : ltb c.m_set_ratio_count config.ratio.a ≡ false = rw t.0 e in
          elim (Bool-cases (ltb v.base.m_get_ratio_count config.ratio.b)) [
            | inl f ↦
                let y : ltb c.m_get_ratio_count config.ratio.b ≡ true = rw t.1 f in
                rw (no_wait_due h, z, y, e, f) (command_Matches f)
            | inr f ↦
                let y : ltb c.m_get_ratio_count config.ratio.b ≡ false = rw t.1 f in
                rw (no_wait_due h, z, y, e, f) (none-Matches e f)
          ]
    ]

  -- The call of the verify_client with which it starts the counts over.
  pub idle :
      (c : Client G) (v : VerifyClient G)
      → Synced config c v.base
      → AtEnd config c v.base
      → (v' : VerifyClient G) × (verify_create_request config source v ≡ some (none, v'))
        × Synced config c v'.base
        × InTurn config c v'.base
  unfolding verify_create_request
  idle c v s (p, q, x, y) = (
    record v { base = record v.base { m_set_ratio_count = 0; m_get_ratio_count = 0 } },
    rw
        (
          let z : ltb v.base.m_set_ratio_count config.ratio.a ≡ false = ground arith in z,
          let z : ltb v.base.m_get_ratio_count config.ratio.b ≡ false = ground arith in z,
        )
        refl,
    record {
      generator = s.generator;
      keys = s.keys;
      counts = inl (p, q);
      sets = omega arith;
      gets = omega arith;
    },
    (p, q),
  )

  pub turn :
      (c : Client G) (v : VerifyClient G) (cmd : Command) (c' : Client G)
      → config.wait_ratio.b ≡ 0
      → Synced config c v.base
      → InTurn config c v.base
      → create_request config source c ≡ some (cmd, c')
      → (v' : VerifyClient G) × (verify_create_request config source v ≡ some (set_of cmd, v'))
        × Synced config c' v'.base
  unfolding Matches
  turn c v cmd c' h s t e =
      subst (λ r. Matches r (verify_create_request config source v)) e (turn_Matches c v s t h)
