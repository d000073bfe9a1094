-- ===== src/Cipher/Tests.antt =====
-- The label of a derived key.
use mls_go.Prelude.{ℕ, ◌≡◌, refl, [], ◌∷◌, ok, arith}
use mls_go.Prelude.Text.{codes}
use mls_go.Syntax.Varint.{Bytes, write_varint, write_opaque_v}
use mls_go.Syntax.Builder.{be16}
use mls_go.Cipher.{kdf_label}
use mls_go.Cipher.Labels.{kdf_label-injective}

abbrev bytes : Bytes
bytes = 0 ∷ 16 ∷ 11 ∷ 77 ∷ 76 ∷ 83 ∷ 32 ∷ 49 ∷ 46 ∷ 48 ∷ 32 ∷ 107 ∷ 101 ∷ 121 ∷ 1 ∷ 5 ∷ []

key_label : kdf_label (codes "key") (5 ∷ []) 16 ≡ ok bytes
unfolding kdf_label write_opaque_v write_varint be16
key_label = refl

kdf_label-injective_example :
    (◌≡◌ {A = ℕ} 16 16) × (codes "key" ≡ codes "key") × (◌≡◌ {A = Bytes} (5 ∷ []) (5 ∷ []))
kdf_label-injective_example =
    kdf_label-injective (codes "key") (codes "key") (5 ∷ []) (5 ∷ []) 16 16 bytes (omega arith)
      (omega arith) key_label key_label
