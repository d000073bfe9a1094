-- ===== src/Syntax/Format/Raw.antt =====
-- The format of a number of bytes that is fixed.
use mls_go.Prelude.{ℕ, ◌≡◌, refl, subst, All, All-append_left, length, ok}
use mls_go.Syntax.Varint.{IsByte}
use mls_go.Syntax.Builder.{write_raw}
use mls_go.Syntax.Cursor.{read_raw}
use mls_go.Syntax.Format.{IsFormat}
use mls_go.Syntax.Format.Taken.{take_bytes-append, take_bytes-ne-out_of_fuel, take_bytes-eq-ok}

pub raw-IsFormat :
    (n : ℕ)
    → IsFormat (λ p. (length p ≡ n) × All IsByte p) (λ b p. ok (write_raw b p)) (λ c. read_raw c n)
unfolding write_raw
raw-IsFormat n = record {
  written = λ b p b' h e. (p, cc e, h.1, λ more. take_bytes-append p more n h.0);
  canonical = λ c p more k e.
      let (whole, size) = take_bytes-eq-ok c p more n e in
      (p, (size, All-append_left IsByte p more (subst (All IsByte) whole k)), whole, λ b. refl);
  total = λ c k e. take_bytes-ne-out_of_fuel c n e;
}
