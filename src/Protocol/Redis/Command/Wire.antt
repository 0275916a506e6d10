-- ===== src/Protocol/Redis/Command/Wire.antt =====
-- The commands of class redis_protocol are arrays of bulks on the wire, and the sizes that the writers
-- return are the numbers of bytes written.
use memtier_skewsyn.Prelude.{
  ℕ, suc, ◌+◌, ◌<◌, ◌≤◌, ◌≡◌, refl, ap, ◌∙◌, zero, ◌/◌, ◌%◌, inl, inr, Bool-cases, Bool, not, ◌≢◌,
  true, false, ◌&&◌, ◌||◌, none, List, [], ◌∷◌, ◌++◌, some, arith, Bytes, codes, ltb, ◌==◌,
  if◌then◌else◌, length, length-append, append_assoc,
}
use memtier_skewsyn.CLib.{print_u, print_d, c_str, u32_mod}
use memtier_skewsyn.CLib.Decimal.{print_u_small, print_u_step}
use memtier_skewsyn.Evbuffer.{Evbuffer, IsEvbuffer, crlf}
use memtier_skewsyn.Protocol.Redis.Command.{
  get_number_length, select_db, authenticate, write_command_cluster_slots, set_head, set_prefix,
  set_value_after, write_command_set, write_command_get, write_command_wait,
}

-- The RESP form of a bulk and of an array of bulks, in front of what follows.
abbrev pub bulk_wire : Bytes → Bytes → Bytes
bulk_wire arg rest =
    b'$' ∷ (print_u (length arg) ++ (b'\r' ∷ b'\n' ∷ (arg ++ (b'\r' ∷ b'\n' ∷ rest))))

abbrev bulks_wire : List Bytes → Bytes
bulks_wire [] = []
bulks_wire (arg ∷ args) = bulk_wire arg (bulks_wire args)

abbrev pub command_wire : List Bytes → Bytes
command_wire args = b'*' ∷ (print_u (length args) ++ (b'\r' ∷ b'\n' ∷ bulks_wire args))

-- The text is appended, and its length returned.
abbrev pub Writes : Bytes → Bytes → Bytes × ℕ → Type 0
Writes b text r = r ≡ (b ++ text, length text)

number_length_step :
    (n : ℕ) → 10 ≤ n → n < 10000000000 → get_number_length n ≡ suc (get_number_length (n / 10))
unfolding get_number_length
number_length_step n h k = ground arith

number_length_fuel : (f n : ℕ) → n < f → n < 10000000000 → get_number_length n ≡ length (print_u n)
number_length_fuel zero n h k = elim h [ ]
number_length_fuel (suc f) n h k = elim (Bool-cases (ltb n 10)) [
  | inl small ↦ rw (print_u_small n (ground arith)) (unfold get_number_length in ground arith)
  | inr big ↦ omega (
    arith,
    number_length_step n (ground arith) k,
    ap length (print_u_step n (ground arith)),
    length-append (print_u (n / 10)) ((b'0' + n % 10) ∷ []),
    number_length_fuel f (n / 10) (ground arith) (omega arith),
  )
]

-- get_number_length is the number of decimal digits of every unsigned int.
pub get_number_length-print_u : (n : ℕ) → n < u32_mod → get_number_length n ≡ length (print_u n)
get_number_length-print_u n h = number_length_fuel (suc n) n (omega arith) (omega arith)

-- The arguments of the command that a set is sent as: an offset wins over an expiry.
abbrev pub set_args : Bytes → Bytes → ℕ → ℕ → List Bytes
set_args key value expiry offset =
    if not (offset == 0)
    then codes "SETRANGE" ∷ key ∷ print_u offset ∷ value ∷ []
    else if not (expiry == 0)
    then codes "SETEX" ∷ key ∷ print_u expiry ∷ value ∷ []
    else codes "SET" ∷ key ∷ value ∷ []

abbrev pub get_args : Bytes → ℕ → List Bytes
get_args key offset =
    if offset == 0
    then codes "GET" ∷ key ∷ []
    else codes "GETRANGE" ∷ key ∷ print_u offset ∷ codes "-1" ∷ []

abbrev pub is_nil : Bytes → Bool
is_nil [] = true
is_nil (_ ∷ _) = false

length_pos : (key : Bytes) → key ≢ [] → (length key == 0) ≡ false
length_pos [] h = absurd (h refl)
length_pos (c ∷ key) h = ground arith

&&-false : (x : Bool) → (x && false) ≡ false
&&-false true = refl
&&-false false = refl

text_2 : print_u 2 ≡ b'2' ∷ []
text_2 = print_u_small 2 (omega arith)

text_3 : print_u 3 ≡ b'3' ∷ []
text_3 = print_u_small 3 (omega arith)

text_4 : print_u 4 ≡ b'4' ∷ []
text_4 = print_u_small 4 (omega arith)

text_5 : print_u 5 ≡ b'5' ∷ []
text_5 = print_u_small 5 (omega arith)

text_6 : print_u 6 ≡ b'6' ∷ []
text_6 = print_u_small 6 (omega arith)

text_7 : print_u 7 ≡ b'7' ∷ []
text_7 = print_u_small 7 (omega arith)

text_8 : print_u 8 ≡ b'8' ∷ []
text_8 = print_u_small 8 (omega arith)

-- The counts and lengths of the fixed words.
ruleset digit_texts = (text_2, text_3, text_4, text_5, text_6, text_7, text_8)

module _ (ev : Evbuffer) (laws : IsEvbuffer ev) (b : Bytes) where
  -- SELECT, AUTH and CLUSTER SLOTS are appended as arrays of bulks; the first two return their length,
  -- the last one returns 0.
  pub setup_Writes :
      (db : ℕ) (credentials : Bytes)
      → Writes b (command_wire (codes "SELECT" ∷ print_d db ∷ [])) (select_db ev db b)
        × Writes b
            (command_wire (codes "AUTH" ∷ c_str credentials ∷ []))
            (authenticate ev credentials b)
        × (write_command_cluster_slots ev b
            ≡ (b ++ command_wire (codes "CLUSTER" ∷ codes "SLOTS" ∷ []), 0))
  unfolding select_db authenticate write_command_cluster_slots
  setup_Writes db credentials = (
    laws.add_printf_lem b _ ∙ simp digit_texts,
    laws.add_printf_lem b _ ∙ simp digit_texts,
    simp (digit_texts, laws.add_lem),
  )

  -- WAIT is appended as an array of bulks, and its length returned, for all unsigned arguments.
  pub write_command_wait-Writes :
      (num_slaves timeout : ℕ)
      → num_slaves < u32_mod
      → timeout < u32_mod
      → Writes b
          (command_wire (codes "WAIT" ∷ print_u num_slaves ∷ print_u timeout ∷ []))
          (write_command_wait ev num_slaves timeout b)
  unfolding write_command_wait
  write_command_wait-Writes num_slaves timeout h k =
      rw
        (
          get_number_length-print_u num_slaves h,
          get_number_length-print_u timeout k,
          write_command_wait,
        )
        (laws.add_printf_lem b _ ∙ simp digit_texts)

  set_head_lem :
      (head key tail : Bytes) → Writes b (head ++ (key ++ tail)) (set_head ev head key tail b)
  unfolding set_head
  set_head_lem head key tail =
      simp (laws.add_printf_lem, laws.add_lem, append_assoc)
        (λ i. (
          b ++ (head ++ (key ++ tail)),
          (let z : length head + length key + length tail ≡ length (head ++ (key ++ tail)) =
                  omega (arith, length-append head (key ++ tail), length-append key tail) in
                z)
              i,
        ))

  set_value_after_lem :
      (text value : Bytes)
      → Writes b (text ++ (value ++ crlf)) (set_value_after ev value (b ++ text, length text))
  unfolding set_value_after
  set_value_after_lem text value =
      simp (laws.add_lem, append_assoc)
        (λ i. (
          b ++ (text ++ (value ++ crlf)),
          (let z : length text + (length value + 2) ≡ length (text ++ (value ++ crlf)) =
                  omega (arith, length-append text (value ++ crlf), length-append value crlf) in
                z)
              i,
        ))

  -- A set whose value follows what was written.
  set_written :
      (text value : Bytes) (args : List Bytes) (r : Bytes × ℕ)
      → Writes b text r
      → text ++ (value ++ crlf) ≡ command_wire args
      → Writes b (command_wire args) (set_value_after ev value r)
  set_written text value args r w whole =
      ap (set_value_after ev value) w
      ∙ set_value_after_lem text value
      ∙ ap {B = Bytes × ℕ} (λ (s : Bytes). (b ++ s, length s)) whole

  set_prefix-Writes :
      (key value : Bytes) (expiry offset : ℕ)
      → Writes b
          (command_wire (set_args key value expiry offset))
          (set_value_after ev value (set_prefix ev key value expiry offset b))
  unfolding set_prefix
  set_prefix-Writes key value expiry offset = elim (Bool-cases (offset == 0)) [
    | inl no_offset ↦ elim (Bool-cases (expiry == 0)) [
      | inl no_expiry ↦
          rw (no_offset, no_expiry)
            (set_written _ value (codes "SET" ∷ key ∷ value ∷ []) _ (set_head_lem _ key _)
              (simp (append_assoc, digit_texts)))
      | inr expires ↦
          rw (no_offset, expires)
            (set_written _ value (codes "SETEX" ∷ key ∷ print_u expiry ∷ value ∷ []) _
              (set_head_lem _ key _) (simp (append_assoc, digit_texts)))
    ]
    | inr has_offset ↦
        rw (has_offset, &&-false (expiry == 0))
          (set_written _ value (codes "SETRANGE" ∷ key ∷ print_u offset ∷ value ∷ []) _
            (set_head_lem _ key _) (simp (append_assoc, digit_texts)))
  ]

  -- A set of a key and a value that are not empty is appended as SET, SETEX or SETRANGE, and its length
  -- returned; a set of an empty key or of an empty value fails its assertion.
  pub write_command_set-Writes :
      (key value : Bytes) (expiry offset : ℕ)
      → let text = command_wire (set_args key value expiry offset) in
        write_command_set ev key value expiry offset b
        ≡ (if is_nil key || is_nil value then none else some (b ++ text, length text))
  unfolding write_command_set
  write_command_set-Writes [] value expiry offset = refl
  write_command_set-Writes (c ∷ key) [] expiry offset = rw (length_pos (c ∷ key) (cc)) refl
  write_command_set-Writes (c ∷ key) (d ∷ value) expiry offset =
      rw (length_pos (c ∷ key) (cc), length_pos (d ∷ value) (cc))
        (ap some (set_prefix-Writes (c ∷ key) (d ∷ value) expiry offset))

  -- A get of a key that is not empty is appended as GET or GETRANGE, and its length returned.
  pub write_command_get-Writes :
      (key : Bytes) (offset : ℕ)
      → key ≢ []
      → let text = command_wire (get_args key offset) in
        write_command_get ev key offset b ≡ some (b ++ text, length text)
  unfolding write_command_get
  write_command_get-Writes key offset hk = rw (length_pos key hk) (elim (Bool-cases (offset == 0)) [
    | inl no_offset ↦ rw no_offset (
        ap some (
          set_written _ key (codes "GET" ∷ key ∷ []) _ (laws.add_printf_lem b _)
            (simp (append_assoc, digit_texts))))
    | inr has_offset ↦ rw has_offset (
        ap some (
          set_head_lem _ key _
          ∙ ap {B = Bytes × ℕ} (λ (s : Bytes). (b ++ s, length s))
              (simp (append_assoc, digit_texts))))
  ])
