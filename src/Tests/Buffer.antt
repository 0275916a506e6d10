-- ===== src/Tests/Buffer.antt =====
-- An evbuffer over lists of bytes, which has the laws that the protocol modules ask for.
use memtier_skewsyn.Prelude.{
  ℕ, false, ◌&&◌, [], ◌∷◌, ◌++◌, ◌≡◌, refl, Option, none, some, arith, Bytes, ◌==◌, if◌then◌else◌,
  length, take, drop,
}
use memtier_skewsyn.CLib.{first, rest_of}
use memtier_skewsyn.Evbuffer.{Evbuffer, IsEvbuffer, has_crlf}

abbrev put : ℕ → Option (Bytes × Bytes) → Option (Bytes × Bytes)
put c none = none
put c (some (line, rest)) = some (c ∷ line, rest)

unfoldable pub split : Bytes → Option (Bytes × Bytes)
split [] = none
split (c ∷ cs) =
    let more = put c (split cs) in
    if c == b'\r' && first cs == b'\n' then some ([], rest_of cs) else more

split_line :
    (line rest : Bytes)
    → has_crlf line ≡ false
    → split (line ++ (b'\r' ∷ b'\n' ∷ rest)) ≡ some (line, rest)
unfolding split
split_line [] rest h = refl
split_line (c ∷ []) rest h = ground arith
split_line (c ∷ d ∷ cs) rest h = ground (arith, split_line (d ∷ cs) rest)

split-none : (b : Bytes) → has_crlf b ≡ false → split b ≡ none
unfolding split
split-none [] h = refl
split-none (c ∷ cs) h = ground (arith, split-none cs)

abbrev pub list_evbuffer : Evbuffer
list_evbuffer = record {
  add = λ b s. b ++ s;
  add_printf = λ b s. (b ++ s, length s);
  readln = split;
  remove = λ b n. (take n b, drop n b, length (take n b));
  drain = λ b n. drop n b;
  get_length = length;
}

pub list_laws : IsEvbuffer list_evbuffer
list_laws = record {
  add_lem = λ b s. refl;
  add_printf_lem = λ b s. refl;
  readln_line = split_line;
  readln_none = split-none;
  remove_lem = λ b n. refl;
  drain_lem = λ b n. refl;
  get_length_lem = λ b. refl;
}
