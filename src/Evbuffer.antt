-- ===== src/Evbuffer.antt =====
-- The evbuffer of libevent, which the program links and does not hold: a parameter of the protocol
-- modules. An evbuffer is represented by its content, and an operation gives the content that it leaves.
use memtier_skewsyn.Prelude.{
  ℕ, Bool, false, ◌&&◌, ◌||◌, [], ◌∷◌, ◌++◌, ◌≡◌, Option, none, some, Bytes, ◌==◌, length, take,
  drop,
}
use memtier_skewsyn.CLib.{first}

pub record Evbuffer : Type 0 where
  -- evbuffer_add
  pub add : Bytes → Bytes → Bytes
  -- evbuffer_add_printf of the formatted text, and the number that it returns
  pub add_printf : Bytes → Bytes → Bytes × ℕ
  -- evbuffer_readln with EVBUFFER_EOL_CRLF_STRICT: the line, and what is left
  pub readln : Bytes → Option (Bytes × Bytes)
  -- evbuffer_remove: the bytes, what is left, and the number that it returns
  pub remove : Bytes → ℕ → Bytes × Bytes × ℕ
  -- evbuffer_drain
  pub drain : Bytes → ℕ → Bytes
  -- evbuffer_get_length
  pub get_length : Bytes → ℕ

abbrev pub crlf : Bytes
crlf = b'\r' ∷ b'\n' ∷ []

abbrev pub has_crlf : Bytes → Bool
has_crlf [] = false
has_crlf (c ∷ cs) = (c == b'\r' && first cs == b'\n') || has_crlf cs

-- What the documentation of libevent says of these functions.
pub record IsEvbuffer (ev : Evbuffer) : Type 0 where
  pub add_lem : (b s : Bytes) → ev.add b s ≡ b ++ s
  pub add_printf_lem : (b s : Bytes) → ev.add_printf b s ≡ (b ++ s, length s)
  pub readln_line :
      (line rest : Bytes)
      → has_crlf line ≡ false
      → ev.readln (line ++ (b'\r' ∷ b'\n' ∷ rest)) ≡ some (line, rest)
  pub readln_none : (b : Bytes) → has_crlf b ≡ false → ev.readln b ≡ none
  pub remove_lem : (b : Bytes) (n : ℕ) → ev.remove b n ≡ (take n b, drop n b, length (take n b))
  pub drain_lem : (b : Bytes) (n : ℕ) → ev.drain b n ≡ drop n b
  pub get_length_lem : (b : Bytes) → ev.get_length b ≡ length b
