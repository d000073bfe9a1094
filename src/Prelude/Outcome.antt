-- ===== src/Prelude/Outcome.antt =====
-- Go's `(value, error)` pair, with one constructor of `Error` for each kind of message of the
-- modelled code.
use mathlib.Core.Path.{◌≡◌, refl, ap, ◌∙◌}
use mathlib.Core.Logic.{◌⊎◌, inl, inr}

pub data Error : Type 0 where
  varint_too_large empty_varint eight_byte_varint short_varint non_minimal_varint : Error
  short_opaque short_read invalid_optional trailing_bytes : Error
  unsupported_credential missing_lifetime invalid_leaf_node_source : Error
  empty_node invalid_node_type empty_ratchet_tree trailing_blank : Error
  invalid_psk_type missing_body unknown_proposal_type unknown_proposal_or_ref : Error
  invalid_sender_type invalid_content_type unsupported_wire_format not_vni_group_id : Error
  leaf_out_of_range blank_leaf no_blank_slot : Error
  invalid_length unsupported_scheme unsupported_aead nonce_length : Error
  unknown_proposal invalid_presence no_group_context : Error
  membership_tag_failed signature_failed nonzero_padding not_a_member : Error
  content_too_short no_ratchet no_leaves : Error
  key_not_initialized salt_not_initialized spi_collision : Error
  no_candidates recovery_superseded : Error
  -- an error of a standard library function or of another parameter
  outside : Error
  -- no Go value: the source panics
  panics : Error
  -- no Go value: a loop of the model ran out of rounds
  out_of_fuel : Error

-- The error of the pair is nil exactly in `ok`.
pub data Result {ℓ} (T : Type ℓ) : Type ℓ where
  err : Error → Result T
  ok : T → Result T

-- `if err != nil { return ..., err }` and what follows it
infixl 5 ◌>>=◌
abbrev pub ◌>>=◌ {ℓ ℓ'} : {S : Type ℓ} {T : Type ℓ'} → Result S → (S → Result T) → Result T
err why >>= next = err why
ok s >>= next = next s

-- A chain that succeeds has succeeded at its first step, and then at the rest.
pub >>=-eq-ok {ℓ ℓ'} :
    {S : Type ℓ} {T : Type ℓ'} (r : Result S) (next : S → Result T) {t : T}
    → (r >>= next) ≡ ok t
    → (s : S) × (r ≡ ok s) × (next s ≡ ok t)
>>=-eq-ok (err why) next h = cc
>>=-eq-ok (ok s) next h = (s, refl, h)

-- A chain that fails has failed at its first step, or at the rest.
pub >>=-eq-err {ℓ ℓ'} :
    {S : Type ℓ} {T : Type ℓ'} (r : Result S) (next : S → Result T) {why : Error}
    → (r >>= next) ≡ err why
    → (r ≡ err why) ⊎ ((s : S) × (r ≡ ok s) × (next s ≡ err why))
>>=-eq-err (err reason) next h = inl (cc)
>>=-eq-err (ok s) next h = inr (s, refl, h)

-- Steps may be grouped either way.
pub >>=_assoc {ℓ} :
    {R S T : Type ℓ} (r : Result R) (f : R → Result S) (g : S → Result T)
    → ((r >>= f) >>= g) ≡ (r >>= λ s. f s >>= g)
>>=_assoc (err why) f g = refl
>>=_assoc (ok s) f g = refl

pub >>=_ok {ℓ} : {S : Type ℓ} (r : Result S) → (r >>= λ s. ok s) ≡ r
>>=_ok (err why) = refl
>>=_ok (ok s) = refl

-- A chain goes on from the value of its first step.
pub >>=_step {ℓ ℓ'} :
    {S : Type ℓ} {T : Type ℓ'} {r : Result S} {s : S} {t : Result T} (next : S → Result T)
    → r ≡ ok s
    → next s ≡ t
    → (r >>= next) ≡ t
>>=_step next e h = ap (λ r. r >>= next) e ∙ h
