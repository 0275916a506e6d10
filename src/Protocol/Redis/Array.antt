-- ===== src/Protocol/Redis/Array.antt =====
-- redis_protocol::parse_response on an array reply.
use memtier_skewsyn.Prelude.{
  ℕ, suc, ◌+◌, ◌-◌, ◌<◌, ◌≡◌, refl, ap, ◌∙◌, false, [], ◌∷◌, ◌++◌, some, arith, Bytes, length,
  length-append, List, none, get_elem?, get_elem?_lt,
}
use memtier_skewsyn.CLib.{u32_mod, minus_one}
use memtier_skewsyn.Evbuffer.{Evbuffer, IsEvbuffer}
use memtier_skewsyn.Protocol.Base.{
  cleared, Mbulk, MbulkElement, new_array, complete, incomplete, again, loop, loop_returns,
  loop_again,
}
use memtier_skewsyn.Protocol.Base.Levels.{level}
use memtier_skewsyn.Protocol.Redis.{
  Redis, rs_initial, mbulk_bulk, mbulk_line, round, initial_line, parse_response,
}
use memtier_skewsyn.Protocol.Redis.Single.{
  waiting, round_line, header, header-number_after, header-has_crlf,
}
use memtier_skewsyn.Protocol.Redis.Reply.{
  Items, count, encode_all, AreSent, build_all, rounds_all, rounds_all-le, build_all-levels,
}
use memtier_skewsyn.Protocol.Redis.Holds.{
  HoldsAll, HoldsAll-least, build_all-Holds, get_elem?-end, get_elem?-kept,
}
use memtier_skewsyn.Protocol.Redis.Elements.{inside, take_items, line_round, finish_last}

module _ (ev : Evbuffer) (laws : IsEvbuffer ev) where
  -- The levels and the store when an array reply begins.
  abbrev pub opened : ℕ → Mbulk → Mbulk
  opened n m = record {
    store = m.store ++ (new_array ∷ []);
    levels = level n (length m.store) ∷ [];
  }

  array_header :
      (p : Redis) (n : ℕ) (buf : Bytes)
      → n < minus_one
      → round ev (waiting (header b'*' n ++ (b'\r' ∷ b'\n' ∷ buf)) p)
        ≡ again (
            inside buf (opened n p.mbulk) (record p {
              m_response_len = length (header b'*' n) + 2;
              m_last_response = record cleared {
                m_status = some (header b'*' n);
                m_mbulk_value = some (length p.mbulk.store);
              };
            }))
  unfolding initial_line
  array_header p n buf small =
      round_line ev laws p (header b'*' n) buf (header-has_crlf b'*' n refl)
      ∙ ground (arith, header-number_after b'*' n refl (omega arith))

  -- An array reply, with elements nested to any depth and no empty array in it, is complete when all of
  -- it has come: the content behind it stays, no level is left open, and the parser waits for the next reply. The
  -- response names a new element of the store, whose array holds the places of the elements of the reply, in
  -- their order: each is an element with the bytes of its integer or bulk, or an array that holds its own
  -- elements in the same way. The elements that were in the store before are kept.
  pub parse_array :
      (p : Redis) (xs : Items) (rest : Bytes)
      → count xs < minus_one
      → AreSent xs
      → (q : Redis) × (parse_response ev
            (waiting (header b'*' (count xs) ++ (b'\r' ∷ b'\n' ∷ encode_all xs rest)) p)
          ≡ (complete, q))
        × (q.m_read_buf ≡ rest)
        × (q.m_response_state ≡ rs_initial)
        × (q.mbulk.levels ≡ [])
        × ((ids : List ℕ) × (get_elem? q.mbulk.store (length p.mbulk.store)
              ≡ some (record { value = none; value_len = 0; mbulk_array = ids }))
            × HoldsAll q.mbulk.store (suc (length p.mbulk.store)) ids xs)
        × ((i : ℕ) (e : MbulkElement)
            → get_elem? p.mbulk.store i ≡ some e
            → get_elem? q.mbulk.store i ≡ some e)
        × (q.m_last_response.m_mbulk_value ≡ some (length p.mbulk.store))
        × (q.m_last_response.m_error ≡ false)
  unfolding parse_response
  parse_array p xs rest small sent =
      let head = header b'*' (count xs) in
      let buf = encode_all xs rest in
      let m = opened (count xs) p.mbulk in
      let spare = suc (length (head ++ (b'\r' ∷ b'\n' ∷ buf))) - rounds_all xs in
      let p' : Redis = record p {
        m_response_len = length head + 2;
        m_last_response = record cleared {
          m_status = some head;
          m_mbulk_value = some (length p.mbulk.store);
        };
      } in
      let (q, keeps, e) =
        take_items ev laws xs p' rest m (length p.mbulk.store) [] (omega arith) sent refl spare in
      let closed = build_all-levels xs m (length p.mbulk.store) [] (omega arith) sent refl in
      let (ids, grows, all) =
        build_all-Holds xs m (length p.mbulk.store) [] new_array (omega arith) sent refl
          (get_elem?-end p.mbulk.store new_array) in
      let deep =
        HoldsAll-least xs ids (build_all xs m).store (suc (length p.mbulk.store)) (length m.store)
          (omega (arith, length-append p.mbulk.store (new_array ∷ []))) all in
      let fuel : suc (length (head ++ (b'\r' ∷ b'\n' ∷ buf))) ≡ rounds_all xs + spare =
        omega (arith, rounds_all-le xs rest, length-append head (b'\r' ∷ b'\n' ∷ buf)) in
      (
        record (inside rest (build_all xs m) q) { m_response_state = rs_initial },
        loop_again (round ev) _ _ (array_header p (count xs) buf small)
            ∙ ap (λ f. loop (round ev) f (inside buf m p')) fuel
            ∙ e
            ∙ finish_last ev laws (inside rest (build_all xs m) q) spare closed,
        refl,
        refl,
        closed,
        (ids, grows.linked, deep),
        (λ i e at.
            let lt = get_elem?_lt p.mbulk.store i e at in
            grows.others i e (λ q. absurd (omega (arith, q, lt)))
              (get_elem?-kept p.mbulk.store (new_array ∷ []) i e at)),
        keeps.mbulk_value,
        keeps.no_error,
      )

  -- A bulk inside an array whose value has not come in full is lost. The call returns 0
  -- with the header line taken off the buffer and the state unchanged, so that the next call reads the
  -- value as a line of the reply.
  pub parse_array_bulk_lost :
      (p : Redis) (m : Mbulk) (n : ℕ) (now : Bytes)
      → n + 2 < u32_mod
      → length now < n + 2
      → parse_response ev (inside (header b'$' n ++ (b'\r' ∷ b'\n' ∷ now)) m p) ≡ (
        incomplete,
        inside now m (record p { m_bulk_len = n; m_response_len = length (header b'$' n) }),
      )
  unfolding parse_response mbulk_line mbulk_bulk
  parse_array_bulk_lost p m n now small short = loop_returns (round ev) _ _ (
      line_round ev laws p m (header b'$' n) now (header-has_crlf b'$' n refl)
      ∙ ground (arith, header-number_after b'$' n refl (omega arith), laws.get_length_lem now))
