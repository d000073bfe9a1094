-- ===== src/Framing/Skim.antt =====
-- mls/framing/framing.go, `skim` and its callees: they advance a cursor over a proposal or a commit
-- to find where it ends. A function returns the cursor that it leaves.
pub mod Rules
pub mod Spans
use mls_go.Prelude.{
  ◌-◌, length, take, if◌then◌else◌, ◌==◌, Result, ok, err, ◌>>=◌, unknown_proposal,
  invalid_presence, invalid_psk_type,
}
use mls_go.Syntax.Varint.{Bytes}
use mls_go.Syntax.Cursor.{
  Cursor, remaining, rest, read_uint8, read_uint16, read_uint32, read_uint64, read_opaque_v,
}
use mls_go.Syntax.Vector.{read_vector_v}
use mls_go.Tree.LeafNode.{decode_leaf_node}
use mls_go.Tree.Extension.{decode_extension}
use mls_go.Tree.UpdatePath.{decode_update_path}

-- The bytes that `f` has consumed.
unfoldable pub skim : (Cursor → Result Cursor) → Cursor → Result (Bytes × Cursor)
skim f c = do c' ← f c; ok (take (remaining c - remaining c') (rest c), c')

unfoldable pub skim_commit : Cursor → Result Cursor
skim_commit c = do
  (proposals, c) ← read_opaque_v c
  (present, c) ← read_uint8 c
  if present == 0
      then ok c
      else if present == 1
      then (do (path, c) ← decode_update_path c; ok c)
      else err invalid_presence

unfoldable pub skim_key_package : Cursor → Result Cursor
skim_key_package c = do
  (version, c) ← read_uint16 c
  (cipher_suite, c) ← read_uint16 c
  (init_key, c) ← read_opaque_v c
  (leaf_node, c) ← decode_leaf_node c
  (extensions, c) ← read_vector_v c decode_extension
  (signature, c) ← read_opaque_v c
  ok c

unfoldable pub skim_pre_shared_key_id : Cursor → Result Cursor
skim_pre_shared_key_id c = do
  (t, c) ← read_uint8 c
  c ←
      (if t == 1
        then (do (psk_id, c) ← read_opaque_v c; ok c)
        else if t == 2
        then (do
          (usage, c) ← read_uint8 c
          (psk_group_id, c) ← read_opaque_v c
          (psk_epoch, c) ← read_uint64 c
          ok c)
        else err invalid_psk_type)
  (psk_nonce, c) ← read_opaque_v c
  ok c

unfoldable pub skim_proposal : Cursor → Result Cursor
skim_proposal c = do
  (pt, c) ← read_uint16 c
  if pt == 1
      then skim_key_package c
      else if pt == 2
      then (do (leaf_node, c) ← decode_leaf_node c; ok c)
      else if pt == 3
      then (do (removed, c) ← read_uint32 c; ok c)
      else if pt == 4
      then skim_pre_shared_key_id c
      else if pt == 5
      then (do
        (group_id, c) ← read_opaque_v c
        (version, c) ← read_uint16 c
        (cipher_suite, c) ← read_uint16 c
        (extensions, c) ← read_opaque_v c
        ok c)
      else if pt == 6
      then (do (kem_output, c) ← read_opaque_v c; ok c)
      else if pt == 7
      then (do (extensions, c) ← read_opaque_v c; ok c)
      else err unknown_proposal
