-- ===== src/Cipher/Labels.antt =====
-- The labels keep the uses of the suite apart: what is hashed, expanded, signed or bound to an
-- encryption determines the label and the content.
use mls_go.Prelude.{
  ℕ, ◌^◌, ◌<◌, ◌≡◌, sym, ap, ◌∙◌, true, [], ◌++◌, append_assoc, append-nil, ok, >>=-eq-ok, length,
}
use mls_go.Syntax.Varint.{Bytes, write_opaque_v}
use mls_go.Syntax.Builder.{be16}
use mls_go.Syntax.Cursor.{read_opaque_v}
use mls_go.Syntax.Format.Opaque.{write_opaque_v-read_opaque_v}
use mls_go.Syntax.Format.Prefix.{be16_prefix}
use mls_go.Cipher.{
  Suite, Signer, mls_label_prefix, kdf_label, labeled_context, sign_classical, verify_classical,
  sign_with_label, verify_with_label,
}

-- Two opaque vectors that begin the same bytes are the same, and so is what follows.
opaque_prefix :
    (p q s t a b : Bytes)
    → write_opaque_v p ≡ ok s
    → write_opaque_v q ≡ ok t
    → s ++ a ≡ t ++ b
    → (p ≡ q) × (a ≡ b)
opaque_prefix p q s t a b hp hq e =
    let rp : read_opaque_v (s ++ a) ≡ ok (p, a) = write_opaque_v-read_opaque_v p s a hp in
    let rq : read_opaque_v (t ++ b) ≡ ok (q, b) = write_opaque_v-read_opaque_v q t b hq in
    let same = sym rp ∙ ap read_opaque_v e ∙ rq in (cc same, cc same)

prefix_cancel : (l m : Bytes) → mls_label_prefix ++ l ≡ mls_label_prefix ++ m → l ≡ m
prefix_cancel l m h = cc h

-- The bytes that are signed or bound to an encryption determine the label and the content.
pub labeled_context-injective :
    (label label' content content' bytes : Bytes)
    → labeled_context label content ≡ ok bytes
    → labeled_context label' content' ≡ ok bytes
    → (label ≡ label') × (content ≡ content')
unfolding labeled_context
labeled_context-injective label label' content content' bytes h h' =
    let (l, hl, r) = >>=-eq-ok (write_opaque_v (mls_label_prefix ++ label)) _ h in
    let (d, hd, w) = >>=-eq-ok (write_opaque_v content) _ r in
    let (l', hl', r') = >>=-eq-ok (write_opaque_v (mls_label_prefix ++ label')) _ h' in
    let (d', hd', w') = >>=-eq-ok (write_opaque_v content') _ r' in
    let (labels, rest) =
      opaque_prefix (mls_label_prefix ++ label) (mls_label_prefix ++ label') l l' d d' hl hl'
        (cc (w, w')) in
    let (datas, ends) =
      opaque_prefix content content' d d' [] [] hd hd'
        (append-nil d ∙ rest ∙ sym (append-nil d')) in
    (prefix_cancel label label' labels, datas)

-- The bytes that ExpandWithLabel expands determine the length, the label and the context, for
-- lengths of 16 bits.
pub kdf_label-injective :
    (label label' context context' : Bytes) (length length' : ℕ) (bytes : Bytes)
    → length < 2 ^ 16
    → length' < 2 ^ 16
    → kdf_label label context length ≡ ok bytes
    → kdf_label label' context' length' ≡ ok bytes
    → (length ≡ length') × (label ≡ label') × (context ≡ context')
unfolding kdf_label
kdf_label-injective label label' context context' length length' bytes small small' h h' =
    let (l, hl, r) = >>=-eq-ok (write_opaque_v (mls_label_prefix ++ label)) _ h in
    let (d, hd, w) = >>=-eq-ok (write_opaque_v context) _ r in
    let (l', hl', r') = >>=-eq-ok (write_opaque_v (mls_label_prefix ++ label')) _ h' in
    let (d', hd', w') = >>=-eq-ok (write_opaque_v context') _ r' in
    let (lengths, after) =
      be16_prefix length length' (l ++ d) (l' ++ d') small small'
        (sym (append_assoc (be16 length) l d) ∙ cc (w, w') ∙ append_assoc (be16 length') l' d') in
    let (labels, rest) =
      opaque_prefix (mls_label_prefix ++ label) (mls_label_prefix ++ label') l l' d d' hl hl'
        after in
    let (datas, ends) =
      opaque_prefix context context' d d' [] [] hd hd'
        (append-nil d ∙ rest ∙ sym (append-nil d')) in
    (lengths, prefix_cancel label label' labels, datas)

-- A signer and the key that checks its signatures, as the standard library's signature schemes
-- provide them.
abbrev pub IsKeyOf : Suite → Signer → Bytes → Type 0
IsKeyOf s priv pub_key =
    (message sig : Bytes)
    → sign_classical s priv message ≡ ok sig
    → verify_classical s pub_key message sig ≡ true

-- A labelled signature is accepted under the same label.
pub verify_with_label-sign_with_label :
    (s : Suite) (priv : Signer) (pub_key label content sig : Bytes)
    → IsKeyOf s priv pub_key
    → sign_with_label s priv label content ≡ ok sig
    → verify_with_label s pub_key label content sig ≡ true
unfolding sign_with_label verify_with_label
verify_with_label-sign_with_label s priv pub_key label content sig key h =
    let (tbs, e, signed) = >>=-eq-ok (labeled_context label content) _ h in
    rw (verify_with_label, e) (key tbs sig signed)
