-- ===== src/Framing/Sender.antt =====
-- mls/framing/framing.go, `Sender`: who produced a message, and its wire form.
use mls_go.Prelude.{ℕ, ◌^◌, ◌<◌, ◌≡◌, refl, sym, Result, ok, err, ◌>>=◌, if◌then◌else◌, ◌==◌}
use mls_go.Syntax.Builder.{Builder, write_uint8, write_uint32}
use mls_go.Syntax.Cursor.{Cursor, read_uint8, read_uint32}
use mls_go.Syntax.Format.{IsFormat, IsStrict}
use mls_go.Syntax.Format.Scalars.{uint32-IsFormat, uint8-IsStrict}
use mls_go.Syntax.Format.Struct.{first_field, refused, restrict}
use mls_go.Syntax.Format.Union.{branch, case}
use mls_go.Syntax.Format.Union.{empty-IsFormat}
use mls_go.Prelude.{subst, invalid_sender_type}

pub record Sender : Type 0 where
  pub type : ℕ
  pub leaf_index : ℕ
  pub index : ℕ

abbrev of_member : ℕ → ℕ → Sender
of_member t a = record { type = t; leaf_index = a; index = 0 }

abbrev of_external : ℕ → ℕ → Sender
of_external t a = record { type = t; leaf_index = 0; index = a }

abbrev of_new_member_proposal : ℕ → Unit {0} → Sender
of_new_member_proposal t u = record { type = t; leaf_index = 0; index = 0 }

abbrev of_new_member_commit : ℕ → Unit {0} → Sender
of_new_member_commit t u = record { type = t; leaf_index = 0; index = 0 }

-- The `switch` on the tag.
marshal_body : Builder → Sender → Result Builder
marshal_body b s =
    if s.type == 1
    then ok (write_uint32 b s.leaf_index)
    else if s.type == 2
    then ok (write_uint32 b s.index)
    else if s.type == 3
    then ok b
    else if s.type == 4
    then ok b
    else err invalid_sender_type

decode_body : ℕ → Cursor → Result (Sender × Cursor)
decode_body t c =
    if t == 1
    then (do (a, c) ← read_uint32 c; ok (of_member t a, c))
    else if t == 2
    then (do (a, c) ← read_uint32 c; ok (of_external t a, c))
    else if t == 3
    then ok (of_new_member_proposal t tt, c)
    else if t == 4
    then ok (of_new_member_commit t tt, c)
    else err invalid_sender_type

unfoldable pub marshal : Builder → Sender → Result Builder
unfolding marshal_body
marshal b s = do let b = write_uint8 b s.type; marshal_body b s

unfoldable pub decode_sender : Cursor → Result (Sender × Cursor)
unfolding decode_body
decode_sender c = do (t, c) ← read_uint8 c; decode_body t c

-- What the tag says of the other fields; no value with an unknown tag is written.
abbrev Fits : Sender → ℕ → Type 0
Fits s k =
    if k == 1
    then ((a : ℕ) × a < 2 ^ 32 × (s ≡ of_member 1 a))
    else if k == 2
    then ((a : ℕ) × a < 2 ^ 32 × (s ≡ of_external 2 a))
    else if k == 3
    then ((a : Unit {0}) × Unit {0} × (s ≡ of_new_member_proposal 3 a))
    else if k == 4
    then ((a : Unit {0}) × Unit {0} × (s ≡ of_new_member_commit 4 a))
    else Unit

pub record InRange (s : Sender) : Type 0 where
  pub tag_fits : s.type < 2 ^ 8
  pub body : Fits s s.type

body-IsFormat : (t : ℕ) → IsFormat (λ s. Fits s s.type × (s.type ≡ t)) marshal_body (decode_body t)
unfolding marshal_body decode_body
body-IsFormat t =
    branch (λ s. s.type) t 1
      (case (λ s. s.type) Fits 1 of_member uint32-IsFormat (λ s h. h) (λ a q. (a, q, refl))
        (λ a. refl) (λ b a. refl) t)
      λ _.
        branch (λ s. s.type) t 2
          (case (λ s. s.type) Fits 2 of_external uint32-IsFormat (λ s h. h) (λ a q. (a, q, refl))
            (λ a. refl) (λ b a. refl) t)
          λ _.
            branch (λ s. s.type) t 3
              (case (λ s. s.type) Fits 3 of_new_member_proposal empty-IsFormat (λ s h. h)
                (λ a q. (a, q, refl)) (λ a. refl) (λ b a. refl) t)
              λ _.
                branch (λ s. s.type) t 4
                  (case (λ s. s.type) Fits 4 of_new_member_commit empty-IsFormat (λ s h. h)
                    (λ a q. (a, q, refl)) (λ a. refl) (λ b a. refl) t)
                  λ _. refused invalid_sender_type invalid_sender_type (λ q. cc)

-- What `marshal` writes for a `Sender` in range is appended to the buffer, and is decoded to the same
-- value whatever follows it. Bytes that decode to a `Sender` are those that `marshal` writes for it,
-- at least one, and the value is in range. Decoding any bytes ends.
pub sender-IsStrict : IsStrict InRange marshal decode_sender
unfolding marshal decode_sender
sender-IsStrict =
    first_field (λ s. s.type) uint8-IsStrict (λ s h. h.tag_fits)
      λ t small.
        restrict (body-IsFormat t) (λ s h. (h.0.body, h.1))
          (λ s h. (record { tag_fits = subst (λ u. u < 2 ^ 8) (sym h.1) small; body = h.0 }, h.1))
