-- ===== src/Client/Setup/Skew.antt =====
-- The server threads that the connections of client::prepare are for, with a skew level.
use memtier_skewsyn.Prelude.{
  ℕ, zero, suc, ◌+◌, ◌-◌, ◌*◌, ◌%◌, ◌<◌, ◌≤◌, ◌≡◌, refl, sym, ap, ◌∙◌, inl, inr, Bool, true, false,
  List, [], ◌∷◌, Option, none, some, arith, ltb, ◌==◌, if◌then◌else◌, Bool-cases, mod-lt, turn_mod,
}
use mathlib.Core.Path.{subst}
use memtier_skewsyn.Client.Setup.{
  Conns, Prepared, prepared, connect_failed, connecting, pile_up, piled, prepare,
}

module _ (level threads : ℕ) (pos : 0 < threads) (skewed : 0 < level) where
  -- The connects after which the next one is for thread 0
  abbrev needed : ℕ → ℕ
  needed total = if total % threads == 0 then 0 else threads - total % threads

  pile_zero :
      (connects : List Bool) (s : Conns)
      → s.total_conns % threads ≡ 0
      → pile_up threads connects s ≡ some (s, connects)
  unfolding pile_up
  pile_zero [] s e =
      rw (let z : (s.total_conns % threads == 0) ≡ true = ground (arith, e) in z) refl
  pile_zero (true ∷ connects) s e =
      rw (let z : (s.total_conns % threads == 0) ≡ true = ground (arith, e) in z) refl
  pile_zero (false ∷ connects) s e =
      rw (let z : (s.total_conns % threads == 0) ≡ true = ground (arith, e) in z) refl

  -- So many connects that succeed, and then the others
  abbrev pub trues : ℕ → List Bool → List Bool
  trues zero connects = connects
  trues (suc n) connects = true ∷ trues n connects

  next_mod :
      (n : ℕ) → (n + 1) % threads ≡ (if suc (n % threads) == threads then 0 else suc (n % threads))
  next_mod n =
      ap (λ k. k % threads) (let z : n + 1 ≡ suc n = omega arith in z)
      ∙ sym (turn_mod n threads pos)

  Piles : ℕ → List Bool → Conns → Type 0
  Piles r connects s =
      (pile_up threads (trues r connects) s
        ≡ some (record s { total_conns = s.total_conns + r }, connects))
      × ((s.total_conns + r) % threads ≡ 0)

  less :
      (r t : ℕ)
      → suc r ≡ needed t
      → (t % threads == 0) ≡ false
      → (t + 1) % threads ≡ (if suc (t % threads) == threads then 0 else suc (t % threads))
      → r ≡ needed (t + 1)
  less r t e z next =
      let e' : suc r ≡ threads - t % threads = rw z at e in
      elim (Bool-cases (suc (t % threads) == threads)) [
        | inl f ↦ let x : (t + 1) % threads ≡ 0 = rw f at next in rw x (ground (arith, e'))
        | inr f ↦
            let x : (t + 1) % threads ≡ suc (t % threads) = rw f at next in
            rw x (ground (arith, e'))
      ]

  piles : (r : ℕ) (connects : List Bool) (s : Conns) → r ≡ needed s.total_conns → Piles r connects s
  unfolding Piles pile_up
  piles zero connects s e =
      let lt = mod-lt s.total_conns pos in
      let n : s.total_conns + 0 ≡ s.total_conns = omega arith in
      let z : s.total_conns % threads ≡ 0 = ground arith in (rw n (pile_zero connects s z), rw n z)
  piles (suc r) connects s e =
      let lt = mod-lt s.total_conns pos in
      let next = next_mod s.total_conns in
      let z : (s.total_conns % threads == 0) ≡ false = ground arith in
      let n : s.total_conns + 1 + r ≡ s.total_conns + suc r = omega arith in
      let (p, q) =
        piles r connects (record s { total_conns = s.total_conns + 1 })
          (less r s.total_conns e z next) in
      (
        rw z (p ∙ ap (λ k. some (record s { total_conns = k }, connects)) n),
        ap (λ k. k % threads) (sym n) ∙ q,
      )

  -- The state before the client k of a batch
  pub record At (k : ℕ) (s : Conns) : Type 0 where
    pub real : s.real_conns % threads ≡ k
    pub skew : s.skew_count ≡ (if ltb k level then k else level)
    pub total : 0 < k → s.total_conns % threads ≡ (if ltb k level then 1 else k - level + 1)

  -- The server thread of the client k of a batch
  abbrev pub place : ℕ → ℕ
  place k = if ltb k level then 0 else k - level + 1

  abbrev after : ℕ → ℕ
  after k = if suc k == threads then 0 else suc k

  Goes : ℕ → Conns → Type 0
  Goes k s =
      (v : ℕ) × (s' : Conns) × (v ≤ threads)
      × ((connects : List Bool)
          → prepare level threads (trues v connects) s ≡ prepared (place k) s' connects)
      × At (after k) s'

  trues-end : (r : ℕ) (connects : List Bool) → trues r (true ∷ connects) ≡ trues (suc r) connects
  trues-end zero connects = refl
  trues-end (suc r) connects = ap (◌∷◌ true) (trues-end r connects)

  -- The state behind the real connection
  connected : (k t skew : ℕ) (s : Conns) → Conns
  connected k t skew s = record {
    skew_count = if (s.real_conns + 1) % threads == 0 then 0 else skew;
    total_conns = t + 1;
    real_conns = s.real_conns + 1;
  }

  connected-At :
      (k t skew : ℕ) (s : Conns)
      → k < threads
      → s.real_conns % threads ≡ k
      → skew ≡ (if ltb (suc k) level then suc k else level)
      → (suc k < threads → (t + 1) % threads ≡ (if ltb (suc k) level then 1 else suc k - level + 1))
      → At (after k) (connected k t skew s)
  unfolding connected
  connected-At k t skew s lt real sk tot =
      let next : (s.real_conns + 1) % threads ≡ after k = next_mod s.real_conns ∙ ap after real in
      elim (Bool-cases (suc k == threads)) [
        | inl e ↦ record {
          real = next;
          skew = rw next (rw e (ground arith));
          total = λ h. absurd (let x = rw e at h in omega (arith, x));
        }
        | inr e ↦ record {
          real = next;
          skew = rw next (rw e (let z : (suc k == 0) ≡ false = ground arith in rw z sk));
          total = λ h. rw e (tot (ground arith));
        }
      ]

  needed-lt : (t : ℕ) → needed t < threads
  needed-lt t = elim (Bool-cases (t % threads == 0)) [
    | inl e ↦ rw e pos
    | inr e ↦ let lt = mod-lt t pos in rw e (ground arith)
  ]

  piles_up :
      (connects : List Bool) (s : Conns)
      → s.skew_count < level
      → prepare level threads connects s ≡ piled threads (pile_up threads connects s)
  unfolding prepare
  piles_up connects s lt = rw (let z : ltb s.skew_count level ≡ true = ground arith in z) refl

  goes : (k : ℕ) (s : Conns) → k < threads → At k s → Goes k s
  unfolding Goes Piles prepare connected
  goes k s lt at = elim (Bool-cases (ltb k level)) [
    | inl e ↦
        let r = needed s.total_conns in
        let q = (piles r [] s refl).1 in
        let skew : s.skew_count ≡ k = rw e at at.skew in
        (
          suc r,
          connected k (s.total_conns + r) (s.skew_count + 1) s,
          needed-lt s.total_conns,
          (λ connects.
              ap (λ l. prepare level threads l s) (sym (trues-end r connects))
              ∙ piles_up (trues r (true ∷ connects)) s (ground (arith, skew))
              ∙ ap (piled threads) (piles r (true ∷ connects) s refl).0
              ∙ rw (q, e) refl),
          connected-At k (s.total_conns + r) (s.skew_count + 1) s lt at.real (ground (arith, skew))
              (λ h. next_mod (s.total_conns + r) ∙ rw q (ground arith)),
        )
    | inr e ↦
        let skew : s.skew_count ≡ level = rw e at at.skew in
        let tot : s.total_conns % threads ≡ k - level + 1 = rw e at (at.total (ground arith)) in
        (
          1,
          connected k s.total_conns s.skew_count s,
          pos,
          (λ connects.
              rw (let z : ltb s.skew_count level ≡ false = ground (arith, skew) in z, tot, e) refl),
          connected-At k s.total_conns s.skew_count s lt at.real (ground (arith, skew))
              (λ h. next_mod s.total_conns ∙ rw tot (ground arith)),
        )
  ]

  abbrev conns_of : Prepared → Option (Conns × List Bool)
  conns_of (prepared tid s connects) = some (s, connects)
  conns_of (connect_failed s connects) = none
  conns_of connecting = none

  abbrev next_client : Option (Conns × List Bool) → Option (Conns × List Bool)
  next_client none = none
  next_client (some (s, connects)) = conns_of (prepare level threads connects s)

  -- The counts and the connects that are left, when n clients have been prepared
  unfoldable pub clients : ℕ → List Bool → Option (Conns × List Bool)
  clients zero connects =
      some (record { skew_count = 0; total_conns = 0; real_conns = 0 }, connects)
  clients (suc n) connects = next_client (clients n connects)

  Reaches : ℕ → Type 0
  Reaches n =
      (u : ℕ) × (s : Conns) × (u ≤ threads * n)
      × ((connects : List Bool) → clients n (trues u connects) ≡ some (s, connects))
      × At (n % threads) s

  trues-add : (u v : ℕ) (connects : List Bool) → trues u (trues v connects) ≡ trues (u + v) connects
  trues-add zero v connects = ap (λ k. trues k connects) (let z : v ≡ 0 + v = omega arith in z)
  trues-add (suc u) v connects =
      ap (◌∷◌ true) (trues-add u v connects)
      ∙ ap (λ k. trues k connects) (let z : suc (u + v) ≡ suc u + v = omega arith in z)

  reaches : (n : ℕ) → Reaches n
  unfolding Reaches clients Goes
  reaches zero =
      let z : 0 % threads ≡ 0 = omega (arith, pos) in
      (
        0,
        record { skew_count = 0; total_conns = 0; real_conns = 0 },
        omega arith,
        (λ connects. refl),
        record {
          real = refl;
          skew = rw z (ground arith);
          total = λ h. absurd (let x = rw z at h in omega (arith, x));
        },
      )
  reaches (suc n) =
      let (u, s, le, run, at) = reaches n in
      let (v, s', le', goes', at') = goes (n % threads) s (mod-lt n pos) at in
      (
        u + v,
        s',
        (let z : threads * suc n ≡ threads * n + threads = omega arith in
            omega (arith, le, le', z)),
        (λ connects.
            ap (clients (suc n)) (sym (trues-add u v connects))
            ∙ ap next_client (run (trues v connects))
            ∙ ap conns_of (goes' connects)),
        subst (λ k. At k s') (turn_mod n threads pos) at',
      )

  -- With a skew level, a number of server threads and connects that succeed: of every batch of as many clients as the
  -- server has threads, the first ones, up to the skew level, get the server thread 0,
  -- and the others the threads 1, 2 and so on; for each client at most as many connections are made as there
  -- are threads.
  pub prepare-places :
      (n : ℕ)
      → (u v : ℕ) × (s s' : Conns) × (u ≤ threads * n)
        × (v ≤ threads)
        × ((connects : List Bool) → clients n (trues u connects) ≡ some (s, connects))
        × ((connects : List Bool)
            → prepare level threads (trues v connects) s
              ≡ prepared
                  (if ltb (n % threads) level then 0 else n % threads - level + 1)
                  s'
                  connects)
  unfolding Reaches Goes
  prepare-places n =
      let (u, s, le, run, at) = reaches n in
      let (v, s', le', goes', at') = goes (n % threads) s (mod-lt n pos) at in
      (u, v, s, s', le, le', run, goes')
