-- ===== src/Framing/PrivateMessage.antt =====
-- mls/framing/private.go, `PrivateMessage`: an encrypted message, and its wire form.
pub mod SenderData
pub mod Content
pub mod Protection
pub mod Opening
use mls_go.Prelude.{ℕ, ◌^◌, ◌<◌, refl, All, Result, ok, ◌>>=◌, arith}
use mls_go.Syntax.Varint.{IsByte, Bytes}
use mls_go.Syntax.Builder.{Builder, write_opaque_v, write_uint8, write_uint64}
use mls_go.Syntax.Cursor.{Cursor, read_opaque_v, read_uint8, read_uint64}
use mls_go.Syntax.Format.{IsStrict}
use mls_go.Syntax.Format.Opaque.{opaque-IsFormat, opaque-IsStrict}
use mls_go.Syntax.Format.Scalars.{uint8-IsFormat, uint64-IsFormat}
use mls_go.Syntax.Format.Struct.{first_field, field, done}

pub record PrivateMessage : Type 0 where
  pub group_id : Bytes
  pub epoch : ℕ
  pub content_type : ℕ
  pub authenticated_data : Bytes
  pub encrypted_sender_data : Bytes
  pub ciphertext : Bytes

unfoldable pub marshal : Builder → PrivateMessage → Result Builder
marshal b m = do
  b ← write_opaque_v b m.group_id
  let b = write_uint64 b m.epoch
  let b = write_uint8 b m.content_type
  b ← write_opaque_v b m.authenticated_data
  b ← write_opaque_v b m.encrypted_sender_data
  b ← write_opaque_v b m.ciphertext
  ok b

unfoldable pub decode_private_message : Cursor → Result (PrivateMessage × Cursor)
decode_private_message c = do
  (group_id, c) ← read_opaque_v c
  (epoch, c) ← read_uint64 c
  (content_type, c) ← read_uint8 c
  (authenticated_data, c) ← read_opaque_v c
  (encrypted_sender_data, c) ← read_opaque_v c
  (ciphertext, c) ← read_opaque_v c
  ok (
    record {
      group_id = group_id;
      epoch = epoch;
      content_type = content_type;
      authenticated_data = authenticated_data;
      encrypted_sender_data = encrypted_sender_data;
      ciphertext = ciphertext;
    },
    c,
  )

-- The fields hold what their Go types can hold.
pub record InRange (m : PrivateMessage) : Type 0 where
  pub group_id : All IsByte m.group_id
  pub epoch : m.epoch < 2 ^ 64
  pub content_type : m.content_type < 2 ^ 8
  pub authenticated_data : All IsByte m.authenticated_data
  pub encrypted_sender_data : All IsByte m.encrypted_sender_data
  pub ciphertext : All IsByte m.ciphertext

-- What `marshal` writes for a `PrivateMessage` in range is appended to the buffer, and is decoded to the same
-- value whatever follows it. Bytes that decode to a `PrivateMessage` are those that `marshal` writes for it,
-- at least one, and the value is in range. Decoding any bytes ends.
pub private_message-IsStrict : IsStrict InRange marshal decode_private_message
unfolding marshal decode_private_message
private_message-IsStrict =
    first_field (λ m. m.group_id) opaque-IsStrict (λ m fits. fits.group_id)
      λ group_id h0.
        field (λ m. m.epoch) uint64-IsFormat (λ m fits. fits.0.epoch)
          λ epoch h1.
            field (λ m. m.content_type) uint8-IsFormat (λ m fits. fits.0.0.content_type)
              λ content_type h2.
                field (λ m. m.authenticated_data) opaque-IsFormat
                  (λ m fits. fits.0.0.0.authenticated_data)
                  λ authenticated_data h3.
                    field (λ m. m.encrypted_sender_data) opaque-IsFormat
                      (λ m fits. fits.0.0.0.0.encrypted_sender_data)
                      λ encrypted_sender_data h4.
                        field (λ m. m.ciphertext) opaque-IsFormat
                          (λ m fits. fits.0.0.0.0.0.ciphertext)
                          λ ciphertext h5.
                            done
                              (record {
                                group_id = group_id;
                                epoch = epoch;
                                content_type = content_type;
                                authenticated_data = authenticated_data;
                                encrypted_sender_data = encrypted_sender_data;
                                ciphertext = ciphertext;
                              })
                              (
                                (
                                  (
                                    (
                                      (
                                        (
                                          record {
                                            group_id = h0;
                                            epoch = h1;
                                            content_type = h2;
                                            authenticated_data = h3;
                                            encrypted_sender_data = h4;
                                            ciphertext = h5;
                                          },
                                          refl,
                                        ),
                                        refl,
                                      ),
                                      refl,
                                    ),
                                    refl,
                                  ),
                                  refl,
                                ),
                                refl,
                              )
                              (λ m fits. ground arith)
