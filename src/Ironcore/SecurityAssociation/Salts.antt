-- ===== src/Ironcore/SecurityAssociation/Salts.antt =====
-- The nonce salts of the senders.
use mls_go.Prelude.{ℕ, ◌^◌, ◌<◌, ◌≡◌, refl, sym, ap₂, ◌∙◌, [], ◌∷◌, length, ok, arith}
use mls_go.Prelude.Xor.{bit_xor_cancel, xor_bytes}
use mls_go.Syntax.Varint.{Bytes}
use mls_go.Syntax.Builder.{be32}
use mls_go.Syntax.Format.Scalars.{be32-injective}
use mls_go.Ironcore.SecurityAssociation.{Sa, sender_salt}
use Prim.Native.Nat.{bit_xor}

xor_bytes_cancel :
    (mask a b : Bytes)
    → length a ≡ length mask
    → length b ≡ length mask
    → xor_bytes mask a ≡ xor_bytes mask b
    → a ≡ b
unfolding xor_bytes
xor_bytes_cancel [] [] [] ha hb h = refl
xor_bytes_cancel [] (x ∷ a) b ha hb h = absurd (omega arith)
xor_bytes_cancel [] [] (y ∷ b) ha hb h = absurd (omega arith)
xor_bytes_cancel (m ∷ mask) [] b ha hb h = absurd (omega arith)
xor_bytes_cancel (m ∷ mask) (x ∷ a) [] ha hb h = absurd (omega arith)
xor_bytes_cancel (m ∷ mask) (x ∷ a) (y ∷ b) ha hb h =
    let first : bit_xor m x ≡ bit_xor m y = cc h in
    let rest : xor_bytes mask a ≡ xor_bytes mask b = cc h in
    ap₂ (λ u v. u ∷ v) (bit_xor_cancel m x y first)
      (xor_bytes_cancel mask a b (omega arith) (omega arith) rest)

masked :
    (sa : Sa) (leaf : ℕ) (salt : Bytes)
    → sender_salt sa leaf ≡ ok salt
    → (length sa.salt_mask ≡ 4) × (xor_bytes sa.salt_mask (be32 leaf) ≡ salt)
unfolding sender_salt
masked sa leaf salt h = ground arith

-- Two senders with 32-bit leaf indices have the same nonce salt only if they are the same leaf.
pub sender_salt-injective :
    (sa : Sa) (leaf leaf' : ℕ) (salt : Bytes)
    → leaf < 2 ^ 32
    → leaf' < 2 ^ 32
    → sender_salt sa leaf ≡ ok salt
    → sender_salt sa leaf' ≡ ok salt
    → leaf ≡ leaf'
unfolding be32
sender_salt-injective sa leaf leaf' salt small small' h h' =
    let (size, is) = masked sa leaf salt h in
    let (size', is') = masked sa leaf' salt h' in
    be32-injective leaf leaf' small small'
      (xor_bytes_cancel sa.salt_mask (be32 leaf) (be32 leaf') (sym size) (sym size) (is ∙ sym is'))
