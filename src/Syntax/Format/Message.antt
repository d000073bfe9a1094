-- ===== src/Syntax/Format/Message.antt =====
-- A message that stands alone: `MarshalMLS` and `UnmarshalMLS` of the source, which every wire type
-- repeats over its own `marshal` and decoder.
use mls_go.Prelude.{
  ◌≡◌, ◌≢◌, refl, sym, [], ◌∷◌, All, append-nil, if◌then◌else◌, Result, ok, err, ◌>>=◌, >>=-eq-ok,
  >>=-eq-err, trailing_bytes, out_of_fuel, arith, inl, inr, subst, ◌∙◌,
}
use mls_go.Syntax.Varint.{IsByte, Bytes}
use mls_go.Syntax.Builder.{new_builder}
use mls_go.Syntax.Cursor.{Cursor, new_cursor, empty}
use mls_go.Syntax.Format.{IsFormat, Encoder, Decoder}

module _ {T : Type 0} where
  abbrev pub marshal_mls : Encoder T → T → Result Bytes
  marshal_mls enc x = enc new_builder x

  unfoldable pub unmarshal_mls : Decoder T → Bytes → Result T
  unmarshal_mls dec wire = do
    (v, c) ← dec (new_cursor wire)
    if empty c then ok v else err trailing_bytes

module _ {T : Type 0} {P : T → Type 0} {e : Encoder T} {d : Decoder T} (F : IsFormat P e d) where
  -- UnmarshalMLS gives back the value that MarshalMLS encoded, over a decoder that undoes its
  -- encoder.
  pub unmarshal-marshal :
      (x : T) (wire : Bytes) → P x → marshal_mls e x ≡ ok wire → unmarshal_mls d wire ≡ ok x
  unfolding unmarshal_mls
  unmarshal-marshal x wire h q =
      let (s, w, k, r) = F.written new_builder x wire h q in
      let whole : d wire ≡ ok (x, []) =
        subst (λ t. d t ≡ ok (x, [])) (append-nil s ∙ sym w) (r []) in
      rw whole

  -- The bytes that UnmarshalMLS accepts, over a decoder that undoes its encoder, are the ones
  -- MarshalMLS writes for the result, which is in range.
  pub marshal-unmarshal :
      (wire : Bytes) (x : T)
      → All IsByte wire
      → unmarshal_mls d wire ≡ ok x
      → P x × (marshal_mls e x ≡ ok wire)
  unfolding unmarshal_mls
  marshal-unmarshal wire x k q =
      let ((v, c), h₁, h₂) = >>=-eq-ok (d wire) _ q in
      let (whole, same) = ends c v h₂ in
      let (s, pv, w, g) = F.canonical wire v c k h₁ in
      let sent : e new_builder x ≡ ok wire =
        subst (λ t. e new_builder t ≡ ok wire) same (cc (g new_builder, w, whole, append-nil s)) in
      (subst P same pv, sent)
    where
      ends :
          (c : Cursor) (v : T)
          → (if empty c then ok v else err trailing_bytes) ≡ ok x
          → (c ≡ []) × (v ≡ x)
      ends [] v h = (refl, cc)
      ends (b ∷ c) v h = absurd (ground arith)

  pub unmarshal-ne-out_of_fuel :
      (wire : Bytes) → All IsByte wire → unmarshal_mls d wire ≢ err out_of_fuel
  unfolding unmarshal_mls
  unmarshal-ne-out_of_fuel wire k q = elim (>>=-eq-err (d wire) _ q) [
    | inl stop ↦ F.total wire k stop
    | inr ((v, c), h₁, h₂) ↦ ground arith
  ]
