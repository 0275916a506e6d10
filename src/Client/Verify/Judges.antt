-- ===== src/Client/Verify/Judges.antt =====
-- What a verify_client makes of a response.
use memtier_skewsyn.Prelude.{
  ℕ, ◌+◌, ◌≡◌, refl, sym, ap, ◌∙◌, ◌⊎◌, inl, inr, true, false, Option, none, some, arith, Bytes,
  bytes_eq, bytes_eq_iff, ◌==◌, Bool-cases, length, take, take-length,
}
use mathlib.Core.Option.{some-injective}
use memtier_skewsyn.Protocol.Base.{ProtocolResponse}
use memtier_skewsyn.ShardConnection.{rt_get}
use memtier_skewsyn.Client.Verify.{
  VerifyClient, VerifyRequest, value_matches, verify_handle_response,
}

-- The length of a value is that of its bytes.
abbrev pub Measured : Option Bytes → ℕ → Type 0
Measured none len = Unit
Measured (some value) len = len ≡ length value

-- The response brings the value that was set.
abbrev pub Confirms : ProtocolResponse → VerifyRequest → Type 0
Confirms r vr = (r.m_error ≡ false) × (r.m_value ≡ some vr.m_value)

value_matches-true :
    (value : Option Bytes) (len : ℕ) (vr : VerifyRequest)
    → Measured value len
    → vr.m_value_len ≡ length vr.m_value
    → value_matches value len vr ≡ true
    → value ≡ some vr.m_value
value_matches-true none len vr m l e = absurd (cc)
value_matches-true (some value) len vr m l e = elim (Bool-cases (len == vr.m_value_len)) [
  | inr f ↦ absurd (let z = rw f at e in cc)
  | inl f ↦
      let same : len ≡ vr.m_value_len = ground arith in
      let z : bytes_eq (take len value) (take len vr.m_value) ≡ true = rw f at e in
      let x : take len value ≡ take len vr.m_value = (bytes_eq_iff _ _).0 z in
      ap some (
        sym (take-length value)
        ∙ ap (λ n. take n value) (sym m)
        ∙ x
        ∙ ap (λ n. take n vr.m_value) (same ∙ l)
        ∙ take-length vr.m_value)
]

value_matches-same :
    (value : Option Bytes) (len : ℕ) (vr : VerifyRequest)
    → Measured value len
    → vr.m_value_len ≡ length vr.m_value
    → value ≡ some vr.m_value
    → value_matches value len vr ≡ true
value_matches-same none len vr m l e = absurd (cc)
value_matches-same (some value) len vr m l e =
    let p : value ≡ vr.m_value = some-injective _ _ e in
    rw (let z : (len == vr.m_value_len) ≡ true = ground (arith, ap length p) in z)
      ((bytes_eq_iff _ _).1 (ap (take len) p))

module _ {G : Type 0} where
  -- Where the lengths of both values are those of their bytes, the answer to a verifying get counts exactly one key:
  -- as verified where the response is no error and brings the value that was set, and as an error where it does not;
  -- the other count stays.
  pub verify_handle_response-Judges :
      (vr : VerifyRequest) (r : ProtocolResponse) (v : VerifyClient G)
      → vr.request.m_type ≡ rt_get
      → vr.m_value_len ≡ length vr.m_value
      → Measured r.m_value r.m_value_len
      → (w : VerifyClient G) × (verify_handle_response vr r v ≡ some w)
        × ((Confirms r vr × (w.m_verified_keys ≡ v.m_verified_keys + 1) × (w.m_errors ≡ v.m_errors))
            ⊎ ((Confirms r vr → ⊥)
                × (w.m_verified_keys ≡ v.m_verified_keys)
                × (w.m_errors ≡ v.m_errors + 1)))
  unfolding verify_handle_response
  verify_handle_response-Judges vr r v t l m = elim (Bool-cases r.m_error) [
    | inl e ↦ (
      record v { m_errors = v.m_errors + 1 },
      rw (e, t) refl,
      inr ((λ h. absurd (let z = h.0 in cc)), refl, refl),
    )
    | inr e ↦ elim (Bool-cases (value_matches r.m_value r.m_value_len vr)) [
      | inl f ↦ (
        record v { m_verified_keys = v.m_verified_keys + 1 },
        rw (e, f, t) refl,
        inl ((e, value_matches-true r.m_value r.m_value_len vr m l f), refl, refl),
      )
      | inr f ↦ (
        record v { m_errors = v.m_errors + 1 },
        rw (e, f, t) refl,
        inr (
          (λ h. (let z = value_matches-same r.m_value r.m_value_len vr m l h.1 in cc)),
          refl,
          refl,
        ),
      )
    ]
  ]
