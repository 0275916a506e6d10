-- ===== src/Client/Verify/InStep.antt =====
-- The requests of a verify_client beside those of the client that wrote the keys.
use memtier_skewsyn.Prelude.{
  ℕ, zero, suc, ◌+◌, ◌*◌, ◌≤◌, ◌≡◌, refl, sym, ◌∙◌, inl, inr, List, [], ◌∷◌, Option, none, some,
  arith, Option-cases,
}
use mathlib.Core.Path.{subst}
use mathlib.Core.Option.{some-injective}
use memtier_skewsyn.ObjGen.{DataObject}
use memtier_skewsyn.Client.{ClientConfig, ObjectSource, Client, Command, create_request, got}
use memtier_skewsyn.Client.Verify.{VerifyClient, verify_create_request}
use memtier_skewsyn.Client.Verify.Turn.{set_of, InTurn, Synced, idle, turn}

module _ {G : Type 0} (config : ClientConfig) (source : ObjectSource G) where
  abbrev cons_some : Option DataObject → List DataObject → List DataObject
  cons_some none objs = objs
  cons_some (some obj) objs = obj ∷ objs

  abbrev and_rest :
      {C : Type 0} → Option DataObject → Option (List DataObject × C) → Option (List DataObject × C)
  and_rest obj none = none
  and_rest obj (some (objs, d)) = some (cons_some obj objs, d)

  abbrev sets_after :
      (Client G → Option (List DataObject × Client G))
      → Option (Command × Client G)
      → Option (List DataObject × Client G)
  sets_after k none = none
  sets_after k (some (cmd, c)) = and_rest (set_of cmd) (k c)

  -- The objects that the client sets in n requests
  unfoldable pub client_sets : ℕ → Client G → Option (List DataObject × Client G)
  client_sets zero c = some ([], c)
  client_sets (suc n) c = sets_after (client_sets n) (create_request config source c)

  abbrev gets_after :
      (VerifyClient G → Option (List DataObject × VerifyClient G))
      → Option (Option DataObject × VerifyClient G)
      → Option (List DataObject × VerifyClient G)
  gets_after k none = none
  gets_after k (some (obj, v)) = and_rest obj (k v)

  -- The objects that the verify_client asks for in n calls
  unfoldable pub verify_gets : ℕ → VerifyClient G → Option (List DataObject × VerifyClient G)
  verify_gets zero v = some ([], v)
  verify_gets (suc n) v = gets_after (verify_gets n) (verify_create_request config source v)

  Gets : ℕ → List DataObject → Client G → VerifyClient G → Type 0
  Gets n objs d v =
      (m : ℕ) × (w : VerifyClient G) × (m ≤ 2 * n)
      × (verify_gets m v ≡ some (objs, w))
      × Synced config d w.base

  Splits : ℕ → Client G → List DataObject → Client G → Type 0
  Splits n c objs d =
      (cmd : Command) × (c' : Client G) × (rest : List DataObject) × (create_request config source c
        ≡ some (cmd, c'))
      × (client_sets n c' ≡ some (rest, d))
      × (objs ≡ cons_some (set_of cmd) rest)

  client_sets-Splits :
      (n : ℕ) (c : Client G) (objs : List DataObject) (d : Client G)
      → client_sets (suc n) c ≡ some (objs, d)
      → Splits n c objs d
  unfolding client_sets Splits
  client_sets-Splits n c objs d e = elim (Option-cases (create_request config source c)) [
    | inl f ↦ absurd (let z = rw f at e in cc)
    | inr ((cmd, c'), f) ↦ elim (Option-cases (client_sets n c')) [
      | inl g ↦ absurd (let z = rw (f, g) at e in cc)
      | inr ((rest, d'), g) ↦
          let z = some-injective _ _ (rw (f, g) at e) in
          (cmd, c', rest, f, g ∙ (λ i. some (rest, (z i).1)), sym (λ i. (z i).0))
    ]
  ]

  verify_gets_step :
      (m : ℕ) (v v' w : VerifyClient G) (obj : Option DataObject) (objs : List DataObject)
      → verify_create_request config source v ≡ some (obj, v')
      → verify_gets m v' ≡ some (objs, w)
      → verify_gets (suc m) v ≡ some (cons_some obj objs, w)
  unfolding verify_gets
  verify_gets_step m v v' w obj objs e f = rw (e, f) refl

  one_turn :
      (n : ℕ) (c : Client G) (v : VerifyClient G) (objs : List DataObject) (d : Client G)
      → config.wait_ratio.b ≡ 0
      → ((c' : Client G) (v' : VerifyClient G) (rest : List DataObject)
          → Synced config c' v'.base
          → client_sets n c' ≡ some (rest, d)
          → Gets n rest d v')
      → Synced config c v.base
      → InTurn config c v.base
      → client_sets (suc n) c ≡ some (objs, d)
      → (m : ℕ) × (w : VerifyClient G) × (m ≤ 2 * n + 1)
        × (verify_gets m v ≡ some (objs, w))
        × Synced config d w.base
  unfolding Gets Splits
  one_turn n c v objs d h ih s t e =
      let (cmd, c', rest, made, more, same) = client_sets-Splits n c objs d e in
      let (v', got, s') = turn config source c v cmd c' h s t made in
      let (m, w, le, gets, s'') = ih c' v' rest s' more in
      (
        suc m,
        w,
        omega (arith, le),
        verify_gets_step m v v' w _ rest got gets ∙ (λ i. some (sym same i, w)),
        s'',
      )

  -- A verify_client that starts where a client started, with the same generator and no waits, asks for exactly the
  -- objects that the client sets, in the same order: for n requests of the client in which the generator refuses
  -- nothing it takes at most 2 n calls, since it starts the counts of the ratio over in a call of its own, and none of
  -- its calls fails. Both are then at the same place again.
  pub verify_gets-InStep :
      (n : ℕ) (c : Client G) (v : VerifyClient G) (objs : List DataObject) (d : Client G)
      → config.wait_ratio.b ≡ 0
      → Synced config c v.base
      → client_sets n c ≡ some (objs, d)
      → (m : ℕ) × (w : VerifyClient G) × (m ≤ 2 * n)
        × (verify_gets m v ≡ some (objs, w))
        × Synced config d w.base
  unfolding Gets client_sets verify_gets
  verify_gets-InStep zero c v objs d h s e =
      let z = some-injective _ _ e in
      (
        0,
        v,
        omega arith,
        (λ i. some ((z i).0, v)),
        subst (λ x. Synced config x v.base) (λ i. (z i).1) s,
      )
  verify_gets-InStep (suc n) c v objs d h s e = elim s.counts [
    | inl t ↦
        let (m, w, le, gets, s') =
          one_turn n c v objs d h (λ c' v' rest s' f. verify_gets-InStep n c' v' rest d h s' f) s t
            e in
        (m, w, omega (arith, le), gets, s')
    | inr end ↦
        let (v1, none_got, s1, t) = idle config source c v s end in
        let (m, w, le, gets, s') =
          one_turn n c v1 objs d h (λ c' v' rest s' f. verify_gets-InStep n c' v' rest d h s' f) s1
            t e in
        (suc m, w, omega (arith, le), verify_gets_step m v v1 w none objs none_got gets, s')
  ]
