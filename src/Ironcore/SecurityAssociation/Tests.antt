-- ===== src/Ironcore/SecurityAssociation/Tests.antt =====
-- The associations of two senders.
use mls_go.Prelude.{
  ℕ, zero, suc, subst, ◌%◌, ◌^◌, ◌<◌, ◌≡◌, refl, [], ◌∷◌, All, length, ok, arith, replicate,
}
use mls_go.Prelude.Dict
use mls_go.Syntax.Varint.{Bytes, IsByte, write_varint, write_opaque_v}
use mls_go.Syntax.Builder.{be32, be64}
use mls_go.Syntax.Cursor.{from_be}
use mls_go.Cipher.{kdf_expand, kdf_label, expand_with_label}
use mls_go.Cipher.Sample.{sample}
use mls_go.Ironcore.SecurityAssociation.{
  Sa, InboundSa, spi_context, derive_sender_spi, sender_spi, sender_salt, inbound_sas,
}
use mls_go.Ironcore.SecurityAssociation.Salts.{sender_salt-injective}
use mls_go.Ironcore.SecurityAssociation.Spis.{sender_spi_bounds}
use mls_go.Ironcore.SecurityAssociation.Inbound.{leaves_of, Distinct, IsOf, inbound_sas-Distinct}

abbrev sa : Sa
sa = record {
  vni = 7;
  epoch = 3;
  spi = 0;
  key = 1 ∷ [];
  own_leaf = 0;
  own_salt = [];
  own_spi = 0;
  salt_mask = 1 ∷ 2 ∷ 3 ∷ 4 ∷ [];
  suite = sample;
}

salt_of_leaf : sender_salt sa 5 ≡ ok (1 ∷ 2 ∷ 3 ∷ 1 ∷ [])
unfolding sender_salt be32
salt_of_leaf = refl

sender_salt-injective_example : ◌≡◌ {A = ℕ} 5 5
sender_salt-injective_example =
    sender_salt-injective sa 5 5 (1 ∷ 2 ∷ 3 ∷ 1 ∷ []) (omega arith) (omega arith) salt_of_leaf
      salt_of_leaf

-- 0x87070703: the bytes 7 with the top bit and the epoch
spi_of_leaf : sender_spi sa 5 ≡ ok 2265384707
unfolding sender_spi derive_sender_spi expand_with_label kdf_label write_opaque_v write_varint
    from_be spi_context be32 be64
spi_of_leaf = refl

abbrev sevens : ℕ → Bytes
sevens n = replicate n 7

sevens-IsByte : (n : ℕ) → (length (sevens n) ≡ n) × All IsByte (sevens n)
sevens-IsByte zero = (refl, tt)
sevens-IsByte (suc n) = let (long, bytes) = sevens-IsByte n in (omega arith, (omega arith, bytes))

sized :
    (secret info : Bytes) (n : ℕ) (out : Bytes)
    → kdf_expand sample secret info n ≡ ok out
    → (length out ≡ n) × All IsByte out
sized secret info n out h =
    let is : sevens n ≡ out = cc h in
    subst (λ (o : Bytes). (length o ≡ n) × All IsByte o) is (sevens-IsByte n)

sender_spi_bounds_example :
    (255 < 2265384707) × (2265384707 < 2 ^ 32) × (2265384707 % 2 ^ 8 ≡ sa.epoch % 2 ^ 8)
sender_spi_bounds_example = sender_spi_bounds sa 5 2265384707 sized spi_of_leaf

abbrev inbound : InboundSa
inbound = record { leaf = 5; spi = 2265384707; key = 1 ∷ []; salt = 1 ∷ 2 ∷ 3 ∷ 1 ∷ [] }

one_leaf : inbound_sas sa (5 ∷ []) ≡ ok (inbound ∷ [])
unfolding inbound_sas Dict.lookup sender_salt sender_spi derive_sender_spi expand_with_label
    kdf_label write_opaque_v write_varint from_be spi_context be32 be64
one_leaf = refl

inbound_sas-Distinct_example :
    (leaves_of (inbound ∷ []) ≡ 5 ∷ []) × Distinct (inbound ∷ []) × All (IsOf sa) (inbound ∷ [])
inbound_sas-Distinct_example = inbound_sas-Distinct sa (5 ∷ []) (inbound ∷ []) one_leaf
