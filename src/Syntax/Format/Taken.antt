-- ===== src/Syntax/Format/Taken.antt =====
-- What `Cursor.take` of mls/syntax/codec.go returns.
use mls_go.Prelude.{
  ℕ, ◌≡◌, ◌++◌, length, length-take, length-append, take-append-drop, take-append_length,
  drop-append_length, ok, err, out_of_fuel, ◌≢◌, arith,
}
use mls_go.Syntax.Varint.{Bytes}
use mls_go.Syntax.Cursor.{Cursor, take_bytes}

-- `take` in the source: exactly the bytes in front, if there are enough.
pub take_bytes-append :
    (p more : Bytes) (n : ℕ) → length p ≡ n → take_bytes (p ++ more) n ≡ ok (p, more)
unfolding take_bytes
take_bytes-append p more n h =
    rw (← h)
      (ground (arith, length-append p more, take-append_length p more, drop-append_length p more))

pub take_bytes-eq-ok :
    (c p more : Bytes) (n : ℕ) → take_bytes c n ≡ ok (p, more) → (c ≡ p ++ more) × (length p ≡ n)
unfolding take_bytes
take_bytes-eq-ok c p more n e = ground (arith, length-take n c, take-append-drop n c)

pub take_bytes-ne-out_of_fuel : (c : Cursor) (n : ℕ) → take_bytes c n ≢ err out_of_fuel
unfolding take_bytes
take_bytes-ne-out_of_fuel c n e = ground arith
