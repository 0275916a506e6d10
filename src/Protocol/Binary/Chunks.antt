-- ===== src/Protocol/Binary/Chunks.antt =====
-- memcache_binary_protocol::parse_response on a reply that comes in parts.
use memtier_skewsyn.Prelude.{
  ℕ, zero, suc, ◌≤◌, ◌≡◌, ◌≢◌, refl, sym, ap, ◌∙◌, inl, inr, Bool, true, false, not, ◌&&◌, [], ◌∷◌,
  ◌++◌, arith, Bytes, ltb, leb, ◌==◌, if◌then◌else◌, Bool-cases, length, length-append, length-take,
  take, drop,
}
use memtier_skewsyn.Evbuffer.{Evbuffer, IsEvbuffer}
use memtier_skewsyn.Protocol.Base.{
  Outcome, complete, incomplete, failed, aborted, exhausted, Round, returns, again, loop,
  loop_returns, loop_again,
}
use memtier_skewsyn.Protocol.Binary.{
  Binary, ResponseHdr, ResponseState, rs_initial, rs_read_body, read_hdr, header_response,
  header_read, round_initial, body_read, round_body, round_in, round, parse_response, header_size,
  magic_res,
}

take_longer : (n : ℕ) (b more : Bytes) → n ≤ length b → take n (b ++ more) ≡ take n b
take_longer zero b more h = refl
take_longer (suc n) [] more h = elim h [ ]
take_longer (suc n) (c ∷ b) more h = ap (◌∷◌ c) (take_longer n b more (omega arith))

drop_longer : (n : ℕ) (b more : Bytes) → n ≤ length b → drop n (b ++ more) ≡ drop n b ++ more
drop_longer zero b more h = refl
drop_longer (suc n) [] more h = elim h [ ]
drop_longer (suc n) (c ∷ b) more h = drop_longer n b more (omega arith)

-- More bytes come.
unfoldable pub received : Bytes → Binary → Binary
received more p = record p { m_read_buf = p.m_read_buf ++ more }

-- A round that neither goes on nor is incomplete.
abbrev Ends : Round Binary → Type 0
Ends r = (o : Outcome) × (s : Binary) × (r ≡ returns o s) × (o ≢ incomplete) × (o ≢ exhausted)

if-Ends : (b : Bool) {x y : Round Binary} → Ends x → Ends y → Ends (if b then x else y)
if-Ends true h k = h
if-Ends false h k = k

refused-Ends :
    (a b : Bool) (x y z : Round Binary)
    → (a && b) ≡ false
    → Ends x
    → Ends y
    → Ends (if not a then x else (if b then z else y))
refused-Ends false b x y z e h k = h
refused-Ends true false x y z e h k = k
refused-Ends true true x y z e h k = cc

module _ (ev : Evbuffer) (laws : IsEvbuffer ev) where
  body_read-Ends : (p : Binary) → Ends (body_read ev p)
  unfolding body_read
  body_read-Ends p =
      if-Ends _ (aborted, _, refl, λ e. cc, λ e. cc) (complete, _, refl, λ e. cc, λ e. cc)

  module _ (p : Binary) where
    has_body : Bool
    has_body = leb p.m_response_hdr.bodylen (ev.get_length p.m_read_buf)

    body_round : p.m_response_state ≡ rs_read_body → round ev p ≡ round_body ev p
    unfolding round round_in
    body_round e = ap (λ s. round_in ev s p) e

    -- Without the body, or with it.
    body_short :
        p.m_response_state ≡ rs_read_body → has_body ≡ false → round ev p ≡ returns incomplete p
    unfolding round_body has_body
    body_short e h = body_round e ∙ rw h refl

    body_whole : p.m_response_state ≡ rs_read_body → has_body ≡ true → Ends (round ev p)
    unfolding round_body has_body
    body_whole e h = let (o, s, r, n, m) = body_read-Ends p in (o, s, body_round e ∙ rw h r, n, m)

    -- The first round in this state is the last.
    body_once :
        (f : ℕ)
        → p.m_response_state ≡ rs_read_body
        → loop (round ev) (suc f) p ≡ loop (round ev) 1 p
    body_once f e = elim (Bool-cases has_body) [
      | inl h ↦
          let (o, s, r, _, _) = body_whole e h in
          loop_returns (round ev) f p r ∙ sym (loop_returns (round ev) 0 p r)
      | inr h ↦
          loop_returns (round ev) f p (body_short e h)
          ∙ sym (loop_returns (round ev) 0 p (body_short e h))
    ]

    -- A state that an incomplete round leaves is the state before it.
    body_incomplete :
        (f : ℕ) (q : Binary)
        → p.m_response_state ≡ rs_read_body
        → loop (round ev) (suc f) p ≡ (incomplete, q)
        → q ≡ p
    body_incomplete f q e h = elim (Bool-cases has_body) [
      | inl y ↦
          let (o, s, r, n, _) = body_whole e y in
          absurd (n (ap (λ t. t.0) (sym (loop_returns (round ev) f p r) ∙ h)))
      | inr y ↦ ap (λ t. t.1) (sym h ∙ loop_returns (round ev) f p (body_short e y))
    ]

  -- The parser behind a header that announces a body.
  abbrev behind : ResponseHdr → Bytes → Binary → Binary
  behind h left p = record p {
    m_read_buf = left;
    m_response_hdr = h;
    m_response_len = header_size;
    m_last_response = header_response h;
    m_response_state = rs_read_body;
  }

  abbrev announces : ResponseHdr → Bool
  announces h = (h.magic == magic_res) && ltb 0 h.bodylen

  header_again :
      (h : ResponseHdr) (left : Bytes) (p : Binary)
      → announces h ≡ true
      → header_read ev h left p ≡ again (behind h left p)
  unfolding header_read
  header_again h left p e = elim (Bool-cases (h.magic == magic_res)) [
    | inl m ↦ rw (m, let z : ltb 0 h.bodylen ≡ true = (rw m at e) in z) refl
    | inr m ↦
        absurd
          (let z : ¬ ((h.magic == magic_res) && ltb 0 h.bodylen ≡ true) = (rw m (λ x. cc)) in z e)
  ]

  header-Ends :
      (h : ResponseHdr) (left : Bytes) (p : Binary)
      → announces h ≡ false
      → Ends (header_read ev h left p)
  unfolding header_read
  header-Ends h left p e =
      refused-Ends (h.magic == magic_res) (ltb 0 h.bodylen) _ _ _ e
        (failed, _, refl, λ x. cc, λ x. cc) (complete, _, refl, λ x. cc, λ x. cc)

  abbrev hdr_of : Binary → ResponseHdr
  hdr_of p = read_hdr (take header_size p.m_read_buf)

  module _ (p : Binary) (e : p.m_response_state ≡ rs_initial) where
    initial_short : ltb (length p.m_read_buf) header_size ≡ true → round ev p ≡ returns incomplete p
    unfolding round round_in round_initial
    initial_short h = ap (λ s. round_in ev s p) e ∙ rw (laws.get_length_lem p.m_read_buf, h) refl

    initial_header :
        ltb (length p.m_read_buf) header_size ≡ false
        → round ev p ≡ header_read ev (hdr_of p) (drop header_size p.m_read_buf) p
    unfolding round round_in round_initial
    initial_header h =
        let size : (length (take header_size p.m_read_buf) == header_size) ≡ true =
          ground (arith, length-take header_size p.m_read_buf) in
        ap (λ s. round_in ev s p) e
        ∙ rw (laws.get_length_lem p.m_read_buf, h, laws.remove_lem p.m_read_buf header_size, size)
            refl

  -- Where p is left waiting as q, and more bytes come, then q goes on as p does that has them all.
  Continues : Binary → Binary → Bytes → Type 0
  Continues p q more = parse_response ev (received more q) ≡ parse_response ev (received more p)

  body-Continues :
      (p q : Binary) (more : Bytes)
      → p.m_response_state ≡ rs_read_body
      → parse_response ev p ≡ (incomplete, q)
      → Continues p q more
  unfolding parse_response Continues
  body-Continues p q more e h =
      ap (λ s. loop (round ev) 2 (received more s)) (body_incomplete p 1 q e h)

  header-Continues :
      (p q : Binary) (more : Bytes)
      → p.m_response_state ≡ rs_initial
      → parse_response ev p ≡ (incomplete, q)
      → ltb (length p.m_read_buf) header_size ≡ false
      → announces (hdr_of p) ≡ true
      → Continues p q more
  unfolding parse_response Continues received
  header-Continues p q more e h long some_body =
      let left = drop header_size p.m_read_buf in
      let p1 = behind (hdr_of p) left p in
      let first =
        loop_again (round ev) 1 p (initial_header p e long ∙ header_again _ left p some_body) in
      let same : q ≡ p1 = body_incomplete p1 0 q refl (sym first ∙ h) in
      let enough : header_size ≤ length p.m_read_buf = ground (arith, long) in
      let whole : Binary = received more p in
      let again_all =
        initial_header whole e (
          let z : ltb (length (p.m_read_buf ++ more)) header_size ≡ false =
            ground (arith, enough, length-append p.m_read_buf more) in
          z)
        ∙ (λ i.
            header_read ev (read_hdr (take_longer header_size p.m_read_buf more enough i))
              (drop_longer header_size p.m_read_buf more enough i) whole)
        ∙ header_again (hdr_of p) (left ++ more) whole some_body in
      ap (λ s. loop (round ev) 2 (received more s)) same
      ∙ body_once (received more p1) 1 refl
      ∙ sym (loop_again (round ev) 1 whole again_all)

  -- A reply may come in any parts: where parse_response is incomplete and leaves its state, and more bytes are
  -- received, the next call does what one call does that has all the bytes from the start.
  pub parse_response-received :
      (p q : Binary) (more : Bytes)
      → parse_response ev p ≡ (incomplete, q)
      → parse_response ev (received more q) ≡ parse_response ev (received more p)
  unfolding parse_response Continues
  parse_response-received p q more h = go p.m_response_state refl
    where
      go : (s : ResponseState) → p.m_response_state ≡ s → Continues p q more
      go rs_read_body e = body-Continues p q more e h
      go rs_initial e = elim (Bool-cases (ltb (length p.m_read_buf) header_size)) [
        | inl short ↦
            ap (λ s. loop (round ev) 2 (received more s))
              (ap (λ t. t.1) (sym h ∙ loop_returns (round ev) 1 p (initial_short p e short)))
        | inr long ↦ elim (Bool-cases (announces (hdr_of p))) [
          | inl y ↦ header-Continues p q more e h long y
          | inr n ↦
              let (o, s, r, ne, _) = header-Ends (hdr_of p) (drop header_size p.m_read_buf) p n in
              absurd (
                ne (
                  ap (λ t. t.0)
                    (sym (loop_returns (round ev) 1 p (initial_header p e long ∙ r)) ∙ h)))
        ]
      ]
