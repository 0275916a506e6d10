-- ===== src/Protocol/Redis/Elements.antt =====
-- redis_protocol::parse_response on the elements of an array reply.
use memtier_skewsyn.Prelude.{
  ℕ, suc, ◌+◌, ◌<◌, ◌≡◌, refl, sym, ap, ◌∙◌, false, List, [], ◌∷◌, ◌++◌, arith, Bytes, length,
  length-append, take_append, drop_append,
}
use memtier_skewsyn.CLib.{u32_mod}
use memtier_skewsyn.Evbuffer.{Evbuffer, IsEvbuffer, has_crlf}
use memtier_skewsyn.Protocol.Base.{
  set_status, MbulkLevel, Mbulk, new_array, add_mbulk_value, add_mbulk_array, Outcome, complete,
  returns, again, loop, loop_returns, loop_again,
}
use memtier_skewsyn.Protocol.Base.Levels.{level, add_mbulk_array-top}
use memtier_skewsyn.Protocol.Redis.{
  Redis, rs_initial, rs_read_mbulk, after_value, after_value_in, mbulk_bulk, mbulk_line,
  round_mbulk, round_in, round,
}
use memtier_skewsyn.Protocol.Redis.Single.{header, header-number_after, header-has_crlf}
use memtier_skewsyn.Protocol.Redis.Reply.{
  Item, int, bulk, arr, Items, one, more, count, encode, encode_all, IsSent, AreSent, build,
  build_all, rounds, rounds_all, build-levels, popped_count, count-more,
}

-- The parser inside an array reply.
abbrev pub inside : Bytes → Mbulk → Redis → Redis
inside buf m p = record p { m_read_buf = buf; m_response_state = rs_read_mbulk; mbulk = m }

-- What an element may change: the lengths last read, and the status line.
pub record Keeps (p q : Redis) : Type 0 where
  pub keep_value : q.m_keep_value ≡ p.m_keep_value
  pub write_buf : q.m_write_buf ≡ p.m_write_buf
  pub mbulk_value : q.m_last_response.m_mbulk_value ≡ p.m_last_response.m_mbulk_value
  pub no_error : q.m_last_response.m_error ≡ p.m_last_response.m_error

Keeps-trans : {p q r : Redis} → Keeps p q → Keeps q r → Keeps p r
Keeps-trans a b = record {
  keep_value = b.keep_value ∙ a.keep_value;
  write_buf = b.write_buf ∙ a.write_buf;
  mbulk_value = b.mbulk_value ∙ a.mbulk_value;
  no_error = b.no_error ∙ a.no_error;
}

module _ (ev : Evbuffer) (laws : IsEvbuffer ev) where
  -- With no open level the reply is complete, otherwise the loop goes on.
  pub finish_in : List MbulkLevel → ℕ → Redis → Outcome × Redis
  finish_in [] f q = (complete, record q { m_response_state = rs_initial })
  finish_in (_ ∷ _) f q = loop (round ev) f q

  pub finish : ℕ → Redis → Outcome × Redis
  unfolding finish_in
  finish f q = finish_in q.mbulk.levels f q

  module _ (q : Redis) where
    last_value :
        q.mbulk.levels ≡ []
        → after_value q ≡ returns complete (record q { m_response_state = rs_initial })
    unfolding after_value
    last_value e = ap (λ ls. after_value_in ls q) e

    pub finish_last :
        (f : ℕ)
        → q.mbulk.levels ≡ []
        → finish f q ≡ (complete, record q { m_response_state = rs_initial })
    unfolding finish finish_in
    finish_last f e = ap (λ ls. finish_in ls f q) e

    module _ (x : MbulkLevel) (xs : List MbulkLevel) (e : q.mbulk.levels ≡ x ∷ xs) where
      inner_value : after_value q ≡ again q
      unfolding after_value
      inner_value = ap (λ ls. after_value_in ls q) e

      finish_inner : (f : ℕ) → finish f q ≡ loop (round ev) f q
      unfolding finish finish_in
      finish_inner f = ap (λ ls. finish_in ls f q) e

  loop-after_value :
      (f : ℕ) (p q : Redis) → round ev p ≡ after_value q → loop (round ev) (suc f) p ≡ finish f q
  loop-after_value f p q e = go q.mbulk.levels refl
    where
      go : (ls : List MbulkLevel) → q.mbulk.levels ≡ ls → loop (round ev) (suc f) p ≡ finish f q
      go [] h = loop_returns (round ev) f p (e ∙ last_value q h) ∙ sym (finish_last q f h)
      go (x ∷ xs) h =
          loop_again (round ev) f p (e ∙ inner_value q x xs h) ∙ sym (finish_inner q x xs h f)

  pub line_round :
      (p : Redis) (m : Mbulk) (line rest : Bytes)
      → has_crlf line ≡ false
      → round ev (inside (line ++ (b'\r' ∷ b'\n' ∷ rest)) m p)
        ≡ mbulk_line ev line (inside rest m (record p { m_response_len = length line }))
  unfolding round round_in round_mbulk
  line_round p m line rest clean = rw (laws.readln_line line rest clean, round_mbulk)

  int_round :
      (p : Redis) (m : Mbulk) (v rest : Bytes) {l : MbulkLevel} {outer : List MbulkLevel}
      → m.levels ≡ l ∷ outer
      → IsSent (int v)
      → round ev (inside (encode (int v) rest) m p)
        ≡ after_value (inside rest (build (int v) m) (record p { m_response_len = suc (length v) }))
  unfolding mbulk_line encode build
  int_round p m v rest top (clean, text) =
      line_round p m (b':' ∷ v) rest clean ∙ rw (text, top) refl

  bulk_round :
      (p : Redis) (m : Mbulk) (v rest : Bytes) {l : MbulkLevel} {outer : List MbulkLevel}
      → m.levels ≡ l ∷ outer
      → IsSent (bulk v)
      → round ev (inside (encode (bulk v) rest) m p)
        ≡ after_value (
            inside rest (build (bulk v) m) (record p {
              m_response_len = length (header b'$' (length v));
              m_bulk_len = length v;
            }))
  unfolding mbulk_line mbulk_bulk encode build
  bulk_round p m v rest top short =
      let buf = v ++ (b'\r' ∷ b'\n' ∷ rest) in
      line_round p m (header b'$' (length v)) buf (header-has_crlf b'$' (length v) refl)
      ∙ ground (
        arith,
        top,
        header-number_after b'$' (length v) refl (omega arith),
        laws.get_length_lem buf,
        laws.remove_lem buf (length v),
        laws.drain_lem (b'\r' ∷ b'\n' ∷ rest) 2,
        length-append v (b'\r' ∷ b'\n' ∷ rest),
        take_append v (b'\r' ∷ b'\n' ∷ rest),
        drop_append v (b'\r' ∷ b'\n' ∷ rest),
      )

  arr_round :
      (p : Redis) (m : Mbulk) (xs : Items) (rest : Bytes) {l : MbulkLevel} {outer : List MbulkLevel}
      → m.levels ≡ l ∷ outer
      → IsSent (arr xs)
      → round ev (inside (encode (arr xs) rest) m p)
        ≡ again (
            inside (encode_all xs rest) (add_mbulk_array (count xs) m) (record p {
              m_response_len = length (header b'*' (count xs));
              m_last_response = set_status (header b'*' (count xs)) p.m_last_response;
            }))
  unfolding mbulk_line encode
  arr_round p m xs rest top (fits, sent) =
      line_round p m (header b'*' (count xs)) (encode_all xs rest)
        (header-has_crlf b'*' (count xs) refl)
      ∙ ground (arith, top, header-number_after b'*' (count xs) refl fits)

  -- The parser takes an element, or the elements of an array: it goes through their rounds, to a state
  -- with the rest of the content and with the calls made that they stand for.
  abbrev pub Takes : Redis → ℕ → Bytes → Bytes → Mbulk → Mbulk → Type 0
  Takes p n before after m m' =
      (f : ℕ)
      → (q : Redis) × Keeps p q
        × (loop (round ev) (n + f) (inside before m p) ≡ finish f (inside after m' q))

  same : (p : Redis) (a b : ℕ) → Keeps p (record p { m_response_len = a; m_bulk_len = b })
  same p a b = record { keep_value = refl; write_buf = refl; mbulk_value = refl; no_error = refl }

  open_array :
      (p : Redis) (a : ℕ) (s : Bytes)
      → Keeps p (record p { m_response_len = a; m_last_response = set_status s p.m_last_response })
  open_array p a s = record {
    keep_value = refl;
    write_buf = refl;
    mbulk_value = refl;
    no_error = refl;
  }

  mutual
    unfolding rounds rounds_all encode encode_all build build_all

    take_item :
        (x : Item) (p : Redis) (rest : Bytes) (m : Mbulk) {l : MbulkLevel} {outer : List MbulkLevel}
        → m.levels ≡ l ∷ outer
        → IsSent x
        → Takes p (rounds x) (encode x rest) rest m (build x m)
    take_item (int v) p rest m top sent f = (
      record p { m_response_len = suc (length v) },
      same p _ _,
      rw (let z : 1 + f ≡ suc f = omega arith in z)
          (loop-after_value f _ _ (int_round p m v rest top sent)),
    )
    take_item (bulk v) p rest m top sent f = (
      record p { m_response_len = length (header b'$' (length v)); m_bulk_len = length v },
      same p _ _,
      rw (let z : 1 + f ≡ suc f = omega arith in z)
          (loop-after_value f _ _ (bulk_round p m v rest top sent)),
    )
    take_item (arr xs) p rest m top (fits, sent) f =
        let p' : Redis = record p {
          m_response_len = length (header b'*' (count xs));
          m_last_response = set_status (header b'*' (count xs)) p.m_last_response;
        } in
        let (q, keeps, e) =
          take_items xs p' rest (add_mbulk_array (count xs) m) (length m.store)
            ((add_mbulk_value new_array m).levels) fits sent (add_mbulk_array-top m (count xs)) f in
        (
          q,
          Keeps-trans {p = p} {q = p'} (open_array p _ _) keeps,
          rw (let z : suc (rounds_all xs) + f ≡ suc (rounds_all xs + f) = omega arith in z)
              (loop_again (round ev) _ _ (arr_round p m xs rest top (fits, sent)) ∙ e),
        )

    pub take_items :
        (xs : Items) (p : Redis) (rest : Bytes) (m : Mbulk) (id : ℕ) (outer : List MbulkLevel)
        → count xs < u32_mod
        → AreSent xs
        → m.levels ≡ level (count xs) id ∷ outer
        → Takes p (rounds_all xs) (encode_all xs rest) rest m (build_all xs m)
    take_items (one x) p rest m id outer fits sent top f = take_item x p rest m top sent f
    take_items (more x xs) p rest m id outer fits (sx, sent) top f =
        let (q, keeps, e) = take_item x p (encode_all xs rest) m top sx (rounds_all xs + f) in
        let top' =
          build-levels x m (count xs) id outer sx
            (top ∙ ap (λ c. level c id ∷ outer) (count-more x xs)) (rw (count-more x xs) at fits)
          ∙ popped_count xs id outer in
        let (r, keeps', e') =
          take_items xs q rest (build x m) id outer (omega (arith, count-more x xs)) sent top' f in
        (
          r,
          Keeps-trans keeps keeps',
          rw
              (let z : rounds x + rounds_all xs + f ≡ rounds x + (rounds_all xs + f) =
                  omega arith in
                z)
              (e ∙ finish_inner _ _ _ top' _ ∙ e'),
        )
