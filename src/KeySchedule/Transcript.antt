-- ===== src/KeySchedule/Transcript.antt =====
-- mls/keyschedule/transcript.go: the transcript hashes and the confirmation tag.
use mls_go.Prelude.{
  ◌-◌, ◌++◌, length, take, drop, replicate, ltb, if◌then◌else◌, Result, ok, err, ◌>>=◌,
  content_too_short,
}
use mls_go.Syntax.Varint.{Bytes, write_opaque_v}
use mls_go.Cipher.{Suite, hash_len, hash, mac}

abbrev pub confirmation_tag : Suite → Bytes → Bytes → Bytes
confirmation_tag suite confirmation_key confirmed = mac suite confirmation_key confirmed

-- Two writes to one hash
abbrev pub confirmed_transcript_hash : Suite → Bytes → Bytes → Bytes
confirmed_transcript_hash suite interim_prev confirmed_input =
    hash suite (interim_prev ++ confirmed_input)

unfoldable pub interim_transcript_hash : Suite → Bytes → Bytes → Result Bytes
interim_transcript_hash suite confirmed tag = do
  input ← write_opaque_v tag
  ok (hash suite (confirmed ++ input))

unfoldable pub split_authenticated_content : Suite → Bytes → Result (Bytes × Bytes)
split_authenticated_content suite ac = do
  field ← write_opaque_v (replicate (hash_len suite) 0)
  if ltb (length ac) (length field)
      then err content_too_short
      else ok (take (length ac - length field) ac, drop (length ac - hash_len suite) ac)
