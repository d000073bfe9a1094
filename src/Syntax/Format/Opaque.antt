-- ===== src/Syntax/Format/Opaque.antt =====
-- The format of opaque<V>, a byte vector behind its length.
use mls_go.Prelude.{
  ℕ, ◌^◌, ◌<◌, ◌≡◌, refl, sym, ap, ◌∙◌, [], ◌∷◌, ◌++◌, All, All-append, All-append_left,
  All-append_right, ltb→lt, length, take, drop, length-take, length-append, take-append-drop,
  drop-append_length, Bool-cases, ltb, inl, inr, ok, err, out_of_fuel, ◌≢◌, >>=-eq-err, >>=-eq-ok,
  arith, append_assoc, subst,
}
use mls_go.Syntax.Varint
use mls_go.Syntax.Varint.{IsByte, Bytes}
use mls_go.Syntax.Varint.RoundTrip.{read_varint-write_varint, write_varint_refused}
use mls_go.Syntax.Varint.Canonical.{read_varint_canonical}
use mls_go.Syntax.Builder.{
  Builder, write_uint8, write_uint16, write_uint32, write_uint64, be16, be32, be64, write_opaque_v,
}
use mls_go.Syntax.Builder
use mls_go.Syntax.Cursor
use mls_go.Syntax.Cursor.{
  Cursor, take_bytes, from_be, read_uint8, read_uint16, read_uint32, read_uint64, read_opaque_v,
}
use mls_go.Syntax.Format.{IsFormat, IsStrict, Progress}
use mls_go.Syntax.Format.Taken.{take_bytes-append, take_bytes-ne-out_of_fuel, take_bytes-eq-ok}

ok_value : {a b : Bytes} → ok a ≡ ok b → a ≡ b
ok_value h = cc h

pub write_opaque_v-eq-ok :
    (b p b' : Bytes)
    → write_opaque_v b p ≡ ok b'
    → (hdr : Bytes) × (Varint.write_varint (length p) ≡ ok hdr) × (b' ≡ b ++ (hdr ++ p))
unfolding write_opaque_v
write_opaque_v-eq-ok b p b' e =
    let (b₁, e₁, e₂) = >>=-eq-ok (Builder.write_varint b (length p)) _ e in
    let (hdr, h₁, h₂) = >>=-eq-ok (Varint.write_varint (length p)) _ e₁ in
    (hdr, h₁, cc (h₂, e₂, append_assoc b hdr p))

pub write_opaque_v-ok :
    (b p hdr : Bytes)
    → Varint.write_varint (length p) ≡ ok hdr
    → write_opaque_v b p ≡ ok (b ++ (hdr ++ p))
unfolding write_opaque_v
write_opaque_v-ok b p hdr h = rw (h, append_assoc b hdr p)

-- A length that is written is below 2 ^ 30.
written_bound : (v : ℕ) (hdr : Bytes) → Varint.write_varint v ≡ ok hdr → v < 2 ^ 30
written_bound v hdr h = elim (Bool-cases (ltb v (2 ^ 30))) [
  | inl small ↦ ltb→lt v (2 ^ 30) small
  | inr large ↦ cc (h, write_varint_refused v (ground arith))
]

read_opaque_v-append :
    (hdr p more : Bytes)
    → Varint.write_varint (length p) ≡ ok hdr
    → read_opaque_v (hdr ++ (p ++ more)) ≡ ok (p, more)
unfolding read_opaque_v
read_opaque_v-append hdr p more h =
    let (bs, w, r, k, pos) =
      read_varint-write_varint (length p) (p ++ more) (written_bound (length p) hdr h) in
    let same : bs ≡ hdr = cc (w, h) in
    let read : Varint.read_varint (hdr ++ (p ++ more)) ≡ ok (length p, length hdr) =
      subst (λ t. Varint.read_varint (t ++ (p ++ more)) ≡ ok (length p, length t)) same r in
    rw (read, drop-append_length hdr (p ++ more)) (take_bytes-append p more (length p) refl)

-- What syntax.WriteOpaqueV returns is read back, whatever follows it.
pub write_opaque_v-read_opaque_v :
    (p s more : Bytes) → Varint.write_opaque_v p ≡ ok s → read_opaque_v (s ++ more) ≡ ok (p, more)
unfolding Varint.write_opaque_v
write_opaque_v-read_opaque_v p s more h =
    let (hdr, w, e) = >>=-eq-ok (Varint.write_varint (length p)) _ h in
    let whole : s ++ more ≡ hdr ++ (p ++ more) =
      ap (λ t. t ++ more) (sym (ok_value e)) ∙ append_assoc hdr p more in
    ap read_opaque_v whole ∙ read_opaque_v-append hdr p more w

read_opaque_v-eq-ok :
    (c p more : Bytes)
    → All IsByte c
    → read_opaque_v c ≡ ok (p, more)
    → (hdr : Bytes) × (Varint.write_varint (length p) ≡ ok hdr)
      × (c ≡ (hdr ++ p) ++ more)
      × (0 < length hdr)
unfolding read_opaque_v
read_opaque_v-eq-ok c p more h e =
    let ((v, c₁), e₁, e₂) = >>=-eq-ok (Cursor.read_varint c) _ e in
    let ((u, n), r, e₃) = >>=-eq-ok (Varint.read_varint c) _ e₁ in
    let (w, le, pos, small) = read_varint_canonical c u n h r in
    let (q, l) = take_bytes-eq-ok c₁ p more v e₂ in
    let len : u ≡ length p = cc (e₃, l) in
    let front : c₁ ≡ drop n c = cc e₃ in
    (
      take n c,
      subst (λ t. Varint.write_varint t ≡ ok (take n c)) len w,
      sym (take-append-drop n c)
          ∙ ap (λ t. take n c ++ t) (sym front ∙ q)
          ∙ sym (append_assoc (take n c) p more),
      omega (arith, length-take n c),
    )

read_varint-ne-out_of_fuel : (c : Bytes) → Varint.read_varint c ≢ err out_of_fuel
unfolding Varint.read_varint
read_varint-ne-out_of_fuel [] e = cc
read_varint-ne-out_of_fuel (b ∷ c) e = ground arith

pub read_opaque_v-ne-out_of_fuel : (c : Bytes) → read_opaque_v c ≢ err out_of_fuel
unfolding read_opaque_v
read_opaque_v-ne-out_of_fuel c e = elim (>>=-eq-err (Cursor.read_varint c) _ e) [
  | inl stop ↦ elim (>>=-eq-err (Varint.read_varint c) _ stop) [
    | inl stuck ↦ read_varint-ne-out_of_fuel c stuck
    | inr (vn, h, done) ↦ cc
  ]
  | inr ((n, c₁), h, stop) ↦ ground (arith, take_bytes-ne-out_of_fuel c₁ n)
]

pub opaque-IsFormat : IsFormat (All IsByte) write_opaque_v read_opaque_v
opaque-IsFormat = record {
  written = λ b p b' h e.
      let (hdr, w, q) = write_opaque_v-eq-ok b p b' e in
      (
        hdr ++ p,
        q,
        All-append IsByte hdr p (header-IsByte (length p) hdr w) h,
        λ more. rw (append_assoc hdr p more) (read_opaque_v-append hdr p more w),
      );
  canonical = λ c p more h e.
      let (hdr, w, q, pos) = read_opaque_v-eq-ok c p more h e in
      (
        hdr ++ p,
        All-append_right IsByte hdr p
            (All-append_left IsByte (hdr ++ p) more (subst (All IsByte) q h)),
        q,
        λ b. write_opaque_v-ok b p hdr w,
      );
  total = λ c h. read_opaque_v-ne-out_of_fuel c;
}
  where
    header-IsByte : (v : ℕ) (hdr : Bytes) → Varint.write_varint v ≡ ok hdr → All IsByte hdr
    header-IsByte v hdr w =
        let (bs, w', r, k, pos) = read_varint-write_varint v [] (written_bound v hdr w) in
        subst (All IsByte) (cc (w, w')) k

-- The length prefix takes a byte at least.
pub opaque-Progress : Progress read_opaque_v
opaque-Progress c p more h e =
    let (hdr, w, q, pos) = read_opaque_v-eq-ok c p more h e in
    omega (arith, ap length q, length-append (hdr ++ p) more, length-append hdr p)

pub opaque-IsStrict : IsStrict (All IsByte) write_opaque_v read_opaque_v
opaque-IsStrict = record { format = opaque-IsFormat; progress = opaque-Progress }
