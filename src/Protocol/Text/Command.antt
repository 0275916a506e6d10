-- ===== src/Protocol/Text/Command.antt =====
-- The commands of class memcache_text_protocol: what they write, and the sizes that they return.
use memtier_skewsyn.Prelude.{
  ℕ, suc, ◌+◌, ◌≡◌, ◌≢◌, refl, sym, ap, ◌∙◌, false, List, [], ◌∷◌, ◌++◌, Option, some, arith, Bytes,
  codes, ◌==◌, length, get_elem?, take, append-nil, length-append, append_assoc,
}
use memtier_skewsyn.CLib.{print_u, print_s, c_str}
use memtier_skewsyn.Evbuffer.{Evbuffer, IsEvbuffer, crlf}
use memtier_skewsyn.Protocol.Keylist.{Keylist, get_key}
use memtier_skewsyn.Protocol.Keylist.Reads.{IsBuilt, get_key-IsBuilt}
use memtier_skewsyn.Protocol.Text.{
  write_command_set, write_command_get, multi_keys, end_keys, write_command_multi_get,
}

-- The text is appended, and its length returned.
abbrev pub Appends : Bytes → Bytes → Option (Bytes × ℕ) → Type 0
Appends b text r = r ≡ some (b ++ text, length text)

abbrev set_line : Bytes → Bytes → ℕ → Bytes
set_line key value expiry =
    codes "set "
    ++ (key
        ++ (codes " 0 "
            ++ (print_u expiry ++ (codes " " ++ (print_u (length value) ++ codes "\r\n")))))

abbrev pub set_wire : Bytes → Bytes → ℕ → Bytes
set_wire key value expiry = set_line key value expiry ++ (value ++ crlf)

abbrev pub spaced : List Bytes → Bytes
spaced [] = []
spaced (key ∷ keys) = b' ' ∷ (key ++ spaced keys)

abbrev pub multi_get_wire : List Bytes → Bytes
multi_get_wire keys = codes "get" ++ (spaced keys ++ crlf)

length_pos : (key : Bytes) → key ≢ [] → (length key == 0) ≡ false
length_pos [] h = absurd (h refl)
length_pos (c ∷ key) h = ground arith

take_whole : (s : Bytes) → take (length s) s ≡ s
take_whole [] = refl
take_whole (c ∷ cs) = ap (◌∷◌ c) (take_whole cs)

-- A key that holds no zero byte is printed whole.
whole_key : (s : Bytes) → c_str s ≡ s → print_s (length s) s ≡ s
whole_key s h = ap (take (length s)) h ∙ take_whole s

module _ (ev : Evbuffer) (laws : IsEvbuffer ev) (b : Bytes) where
  pair : {c d : Bytes} {m n : ℕ} → c ≡ d → m ≡ n → ◌≡◌ {A = Bytes × ℕ} (c, m) (d, n)
  pair e h i = (e i, h i)

  value_added :
      (line value : Bytes) (r : Bytes × ℕ)
      → r ≡ (b ++ line, length line)
      → ◌≡◌ {A = Bytes × ℕ}
          (ev.add (ev.add r.0 value) (codes "\r\n"), r.1 + (length value + 2))
          (b ++ (line ++ (value ++ crlf)), length (line ++ (value ++ crlf)))
  value_added line value r e =
      ap {B = Bytes × ℕ}
        (λ (r : Bytes × ℕ). (ev.add (ev.add r.0 value) (codes "\r\n"), r.1 + (length value + 2))) e
      ∙ pair (simp (laws.add_lem, append_assoc))
          (omega (arith, length-append line (value ++ crlf), length-append value crlf))

  -- A set of a key without zero bytes and a value, neither of them empty, writes the command line, the value
  -- and CR LF, and returns the number of bytes that it wrote.
  pub text_set-Appends :
      (key value : Bytes) (expiry : ℕ)
      → key ≢ []
      → value ≢ []
      → c_str key ≡ key
      → Appends b (set_wire key value expiry) (write_command_set ev key value expiry b)
  unfolding write_command_set
  text_set-Appends key value expiry hk hv clean =
      rw (length_pos key hk, length_pos value hv, whole_key key clean)
        (ap some (value_added (set_line key value expiry) value _ (laws.add_printf_lem b _)))

  -- A get of a key without zero bytes that is not empty writes the command line and returns its length.
  pub text_get-Appends :
      (key : Bytes)
      → key ≢ []
      → c_str key ≡ key
      → Appends b (codes "get " ++ (key ++ crlf)) (write_command_get ev key b)
  unfolding write_command_get
  text_get-Appends key hk clean =
      rw (length_pos key hk, whole_key key clean) (ap some (laws.add_printf_lem b _))

  multi_keys_lem :
      (keys : List Bytes) (i : ℕ) (k : Keylist) (c : Bytes) (size : ℕ)
      → ((j : ℕ) → get_key (i + j) k ≡ get_elem? keys j)
      → multi_keys ev (length keys) i k (c, size)
        ≡ some (c ++ spaced keys, size + length (spaced keys))
  unfolding multi_keys
  multi_keys_lem [] i k c size h = ap some (pair (sym (append-nil c)) (omega arith))
  multi_keys_lem (key ∷ keys) i k c size h =
      rw
        (
          let z : get_key i k ≡ some key =
                (ap (λ n. get_key n k) (let y : i ≡ i + 0 = omega arith in y) ∙ h 0) in
              z,
          multi_keys,
        )
        (multi_keys_lem keys (suc i) k (ev.add (ev.add c (codes " ")) key) (size + 1 + length key)
            (λ j.
              ap (λ n. get_key n k) (let y : suc i + j ≡ i + suc j = omega arith in y) ∙ h (suc j))
          ∙ ap some (
              pair (simp (laws.add_lem, append_assoc))
                (omega (arith, length-append key (spaced keys)))))

  -- A multi get of the keys that were added to a keylist, at least one, writes "get", every key in order with
  -- a space in front, and CR LF, and returns the number of bytes that it wrote.
  pub multi_get-Appends :
      (max_keys : ℕ) (keys : List Bytes) (k : Keylist)
      → IsBuilt max_keys keys k
      → keys ≢ []
      → Appends b (multi_get_wire keys) (write_command_multi_get ev k b)
  unfolding write_command_multi_get end_keys
  multi_get-Appends max_keys [] k built ne = absurd (ne refl)
  multi_get-Appends max_keys (key ∷ more) k built ne =
      let keys = key ∷ more in
      let start : Bytes × ℕ = (ev.add b (codes "get"), 3) in
      let looped =
        ap (λ n. multi_keys ev n 0 k start) built.count
        ∙ multi_keys_lem keys 0 k start.0 3 (λ j.
          ap (λ n. get_key n k) (let y : 0 + j ≡ j = omega arith in y)
          ∙ get_key-IsBuilt max_keys keys k built j) in
      rw (let z : (k.m_keys_count == 0) ≡ false = ground (arith, built.count) in z, looped)
        (ap some (
          pair (simp (laws.add_lem, append_assoc))
            (omega (arith, length-append (spaced keys) crlf))))
