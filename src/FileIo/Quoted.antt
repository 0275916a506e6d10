-- ===== src/FileIo/Quoted.antt =====
-- file_reader::read_string reads back what file_writer::get_quoted_str quotes.
use memtier_skewsyn.Prelude.{
  ℕ, zero, suc, ◌≤◌, ◌≡◌, refl, ap, ◌∙◌, inl, inr, Bool, true, false, [], ◌∷◌, ◌++◌, arith, Bytes,
  ◌==◌, Bool-cases, ==_iff, length,
}
use memtier_skewsyn.FileIo.{
  Quoting, stopped, copied, copies, act, read_loop, read_some, to_string, end_quote, start_quoting,
  read_string, quoted,
}

abbrev inside : Bool → Quoting
inside skip = record { skip_quote = skip; first_byte = false; dequote = true }

-- The second quote of a pair that is yet to be read
abbrev lead : Bool → Bytes → Bytes
lead true file = b'"' ∷ file
lead false file = file

-- Whether the string ends in a quote
abbrev ends_quoted : Bool → Bytes → Bool
ends_quoted skip [] = skip
ends_quoted skip (c ∷ cs) = ends_quoted (c == b'"') cs

second_lem :
    (skip : Bool) (n room : ℕ) (file : Bytes)
    → read_loop (inside skip) (suc n) room (lead skip file)
      ≡ read_loop (inside false) (suc n) room file
unfolding read_loop act
second_lem true n room file = refl
second_lem false n room file = refl

act_plain : (c : ℕ) → (c == b'"') ≡ false → act (inside false) c ≡ copies
unfolding act
act_plain c e = rw e refl

copy_lem :
    (c n room : ℕ) (s rest : Bytes)
    → read_loop (inside false) (suc n) (suc room) (quoted (c ∷ s) ++ rest)
      ≡ copied c (read_loop (inside (c == b'"')) n room (lead (c == b'"') (quoted s ++ rest)))
unfolding read_loop quoted
copy_lem c n room s rest = elim (Bool-cases (c == b'"')) [
  | inl e ↦ rw ((==_iff c b'"').0 e) (unfold act in refl)
  | inr e ↦ rw (e, act_plain c e, read_loop, e) refl
]

open_lem :
    (n room : ℕ) (file : Bytes)
    → read_loop start_quoting (suc n) room (b'"' ∷ file)
      ≡ read_loop (inside false) (suc n) room file
unfolding read_loop act
open_lem n room file = refl

loop_lem :
    (s rest : Bytes) (skip : Bool) (room : ℕ)
    → length s ≤ room
    → read_loop (inside skip) (length s) room (lead skip (quoted s ++ rest))
      ≡ stopped s 0 (inside (ends_quoted skip s)) (lead (ends_quoted skip s) rest)
unfolding read_loop quoted
loop_lem [] rest true room h = refl
loop_lem [] rest false room h = refl
loop_lem (c ∷ s) rest skip zero h = elim h [ ]
loop_lem (c ∷ s) rest skip (suc room) h =
    second_lem skip (length s) (suc room) (quoted (c ∷ s) ++ rest)
    ∙ copy_lem c (length s) room s rest
    ∙ ap (copied c) (loop_lem s rest (c == b'"') room (omega arith))

close_lem :
    (skip : Bool) (rest : Bytes)
    → end_quote 0 (inside skip) (record { left = lead skip (b'"' ∷ rest); at_eof = false })
      ≡ record { left = rest; at_eof = false }
close_lem true rest = refl
close_lem false rest = refl

-- A quoted string that is not empty
pub read_string-quoted :
    (c : ℕ) (s rest : Bytes) (room : ℕ)
    → length (c ∷ s) ≤ room
    → read_string
        (length (c ∷ s))
        room
        (record { left = b'"' ∷ (quoted (c ∷ s) ++ (b'"' ∷ rest)); at_eof = false })
      ≡ read_some (c ∷ s) (record { left = rest; at_eof = false })
unfolding read_string
read_string-quoted c s rest room h =
    ap (to_string false) (
      open_lem (length s) room (quoted (c ∷ s) ++ (b'"' ∷ rest))
      ∙ loop_lem (c ∷ s) (b'"' ∷ rest) false room h)
    ∙ ap (read_some (c ∷ s)) (close_lem (ends_quoted (c == b'"') s) rest)
