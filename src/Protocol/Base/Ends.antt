-- ===== src/Protocol/Base/Ends.antt =====
-- When a loop of rounds returns: every round that goes on has less before it.
use memtier_skewsyn.Prelude.{
  ℕ, zero, suc, ◌+◌, ◌<◌, ◌≤◌, ◌≡◌, refl, sym, ap, ◌∙◌, ◌⊎◌, inl, inr, Bool, true, false, ◌&&◌, [],
  ◌∷◌, ◌++◌, none, some, arith, Bytes, ◌==◌, if◌then◌else◌, Bool-cases, length, length-append,
  length-drop,
}
use mathlib.Core.Path.{subst}
use memtier_skewsyn.CLib.{first}
use memtier_skewsyn.Evbuffer.{Evbuffer, IsEvbuffer, has_crlf}
use memtier_skewsyn.Protocol.Base.{
  Outcome, complete, incomplete, failed, aborted, overrun, exhausted, Round, returns, again, loop,
  loop_again, loop_returns,
}

-- The parser has an answer; the code has failed in none.
abbrev pub IsAnswer : Outcome → Type 0
IsAnswer complete = Unit
IsAnswer incomplete = Unit
IsAnswer failed = Unit
IsAnswer aborted = ⊥
IsAnswer overrun = ⊥
IsAnswer exhausted = ⊥

-- The parser ends, with an answer or by a failure.
abbrev pub IsEnd : Outcome → Type 0
IsEnd complete = Unit
IsEnd incomplete = Unit
IsEnd failed = Unit
IsEnd aborted = Unit
IsEnd overrun = Unit
IsEnd exhausted = ⊥

Round-cases :
    {S : Type 0} (r : Round S)
    → ((o : Outcome) × (s : S) × (r ≡ returns o s)) ⊎ ((s : S) × (r ≡ again s))
Round-cases (returns o s) = inl (o, s, refl)
Round-cases (again s) = inr (s, refl)

module _ {S : Type 0} (P : Outcome → Type 0) (measure : S → ℕ) where
  -- The round returns an outcome of these, or goes on with less than k before it.
  abbrev pub Below : ℕ → Round S → Type 0
  Below k (returns o s) = P o
  Below k (again s) = measure s < k

  pub if_Below :
      (k : ℕ) (b : Bool) (x y : Round S) → Below k x → Below k y → Below k (if b then x else y)
  if_Below k true x y p q = p
  if_Below k false x y p q = q

  pub loop_ends :
      (round : S → Round S)
      → ((s : S) → Below (measure s) (round s))
      → (fuel : ℕ) (s : S) → measure s < fuel
      → P (loop round fuel s).0
  unfolding loop
  loop_ends round falls zero s lt = absurd (omega arith)
  loop_ends round falls (suc fuel) s lt = elim (Round-cases (round s)) [
    | inl (o, s', e) ↦
        subst (λ r. P r.0) (sym (loop_returns round fuel s e))
          (subst (Below (measure s)) e (falls s))
    | inr (s', e) ↦
        let less = subst (Below (measure s)) e (falls s) in
        subst (λ r. P r.0) (sym (loop_again round fuel s e))
          (loop_ends round falls fuel s' (omega (arith, less, lt)))
  ]

-- The same for a loop whose states keep an invariant.
module _ {S : Type 0} (P : Outcome → Type 0) (I : S → Type 0) (measure : S → ℕ) where
  -- The round returns an outcome of these, or goes on with less than k before it; the invariant holds after it.
  abbrev pub KeptBelow : ℕ → Round S → Type 0
  KeptBelow k (returns o s) = P o × I s
  KeptBelow k (again s) = (measure s < k) × I s

  pub if_KeptBelow :
      (k : ℕ) (b : Bool) (x y : Round S)
      → KeptBelow k x
      → KeptBelow k y
      → KeptBelow k (if b then x else y)
  if_KeptBelow k true x y p q = p
  if_KeptBelow k false x y p q = q

  pub loop_keeps :
      (round : S → Round S)
      → ((s : S) → I s → KeptBelow (measure s) (round s))
      → (fuel : ℕ) (s : S) → measure s < fuel
      → I s
      → P (loop round fuel s).0 × I (loop round fuel s).1
  unfolding loop
  loop_keeps round falls zero s lt i = absurd (omega arith)
  loop_keeps round falls (suc fuel) s lt i = elim (Round-cases (round s)) [
    | inl (o, s', e) ↦
        subst (λ r. P r.0 × I r.1) (sym (loop_returns round fuel s e))
          (subst (KeptBelow (measure s)) e (falls s i))
    | inr (s', e) ↦
        let (less, i') = subst (KeptBelow (measure s)) e (falls s i) in
        subst (λ r. P r.0 × I r.1) (sym (loop_again round fuel s e))
          (loop_keeps round falls fuel s' (omega (arith, less, lt)) i')
  ]

first_append :
    (line rest : Bytes) → (first line == b'\n') ≡ true → (first (line ++ rest) == b'\n') ≡ true
first_append [] rest e = absurd (ground arith)
first_append (c ∷ line) rest e = e

-- A content with a line end is a line, the line end, and what is left.
has_crlf-line :
    (b : Bytes)
    → has_crlf b ≡ true
    → (line : Bytes) × (rest : Bytes) × (b ≡ line ++ (b'\r' ∷ b'\n' ∷ rest))
      × (has_crlf line ≡ false)
has_crlf-line [] e = absurd (cc)
has_crlf-line (c ∷ cs) e = elim (Bool-cases (c == b'\r' && first cs == b'\n')) [
  | inl now ↦ here c cs now
  | inr later ↦
      let (line, rest, same, none_in) = has_crlf-line cs (let z = rw later at e in z) in
      (c ∷ line, rest, ap (◌∷◌ c) same, no_end line rest same none_in later)
]
  where
    no_end :
        (line rest : Bytes)
        → cs ≡ line ++ (b'\r' ∷ b'\n' ∷ rest)
        → has_crlf line ≡ false
        → (c == b'\r' && first cs == b'\n') ≡ false
        → has_crlf (c ∷ line) ≡ false
    no_end line rest same none_in later = elim (Bool-cases (first line == b'\n')) [
      | inl e ↦
          let f : (first cs == b'\n') ≡ true =
            subst (λ l. (first l == b'\n') ≡ true) (sym same)
              (first_append line (b'\r' ∷ b'\n' ∷ rest) e) in
          ground arith
      | inr e ↦ ground arith
    ]

    here :
        (c : ℕ) (cs : Bytes)
        → (c == b'\r' && first cs == b'\n') ≡ true
        → (line : Bytes) × (rest : Bytes) × (c ∷ cs ≡ line ++ (b'\r' ∷ b'\n' ∷ rest))
          × (has_crlf line ≡ false)
    here c [] f = absurd (ground arith)
    here c (d ∷ cs) f = (
      [],
      cs,
      (let x : c ≡ b'\r' = ground arith in let y : d ≡ b'\n' = ground arith in rw (x, y) refl),
      refl,
    )

module _ (ev : Evbuffer) (h : IsEvbuffer ev) where
  -- evbuffer_readln takes a line with its end, or finds none.
  pub readln_cases :
      (b : Bytes)
      → (ev.readln b ≡ none)
        ⊎ ((line : Bytes) × (rest : Bytes) × (ev.readln b ≡ some (line, rest))
            × (length rest + 2 ≤ length b))
  readln_cases b = elim (Bool-cases (has_crlf b)) [
    | inr e ↦ inl (h.readln_none b e)
    | inl e ↦
        let (line, rest, same, none_in) = has_crlf-line b e in
        inr (
          line,
          rest,
          ap ev.readln same ∙ h.readln_line line rest none_in,
          omega (arith, ap length same, length-append line (b'\r' ∷ b'\n' ∷ rest)),
        )
  ]

  pub drain-le : (b : Bytes) (n : ℕ) → length (ev.drain b n) ≤ length b
  drain-le b n = omega (arith, ap length (h.drain_lem b n), length-drop n b)

  pub remove-le : (b : Bytes) (n : ℕ) → length (ev.remove b n).1 ≤ length b
  remove-le b n = rw (h.remove_lem b n) (omega (arith, length-drop n b))
