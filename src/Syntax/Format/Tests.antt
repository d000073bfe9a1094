-- ===== src/Syntax/Format/Tests.antt =====
-- The vector of 16-bit numbers.
use mls_go.Prelude.{ℕ, ◌<◌, ◌^◌, All, ok}
use mls_go.Syntax.Builder.{write_uint16}
use mls_go.Syntax.Cursor.{read_uint16}
use mls_go.Syntax.Vector.{write_vector_v, read_vector_v}
use mls_go.Syntax.Format.{IsFormat}
use mls_go.Syntax.Format.Scalars.{uint16-IsStrict}
use mls_go.Syntax.Format.Vector.{vector-IsFormat}

vector-IsFormat_example :
    IsFormat
      (All (λ (v : ℕ). v < 2 ^ 16))
      (λ b xs. write_vector_v b xs (λ b v. ok (write_uint16 b v)))
      (λ c. read_vector_v c read_uint16)
vector-IsFormat_example = vector-IsFormat uint16-IsStrict.format uint16-IsStrict.progress
