-- ===== src/Syntax/Format/Prefix.antt =====
-- Encodings that begin the same bytes are the same.
use mls_go.Prelude.{
  ℕ, ◌/◌, ◌%◌, ◌^◌, ◌<◌, ◌≡◌, sym, ap, ◌∙◌, [], ◌∷◌, ◌++◌, append_assoc, Result, ok, arith,
}
use mls_go.Syntax.Varint.{Bytes}
use mls_go.Syntax.Builder.{Builder, be16}
use mls_go.Syntax.Cursor.{Cursor}
use mls_go.Syntax.Format.{IsFormat, Encoder, Decoder}

pub be16_prefix :
    (m n : ℕ) (a b : Bytes)
    → m < 2 ^ 16
    → n < 2 ^ 16
    → be16 m ++ a ≡ be16 n ++ b
    → (m ≡ n) × (a ≡ b)
unfolding be16
be16_prefix m n a b hm hn e =
    let first : m / 2 ^ 8 % 256 ≡ n / 2 ^ 8 % 256 = cc e in
    let second : m % 256 ≡ n % 256 = cc e in (omega arith, cc e)

pub append_cancel : (b s t : Bytes) → b ++ s ≡ b ++ t → s ≡ t
append_cancel [] s t h = h
append_cancel (x ∷ b) s t h = append_cancel b s t (cc h)

module _ {T : Type 0} {P : T → Type 0} {e : Encoder T} {d : Decoder T} (F : IsFormat P e d) where
  same_read :
      (x y : T) (a c : Bytes)
      → ◌≡◌ {A = Result (T × Cursor)} (ok (x, a)) (ok (y, c))
      → (x ≡ y) × (a ≡ c)
  same_read x y a c h = (cc h, cc h)

  -- After the same bytes, what is written determines the value and what follows it.
  pub format_prefix :
      (b : Builder) (x y : T) (s t a c : Bytes)
      → P x
      → P y
      → e b x ≡ ok s
      → e b y ≡ ok t
      → s ++ a ≡ t ++ c
      → (x ≡ y) × (a ≡ c)
  format_prefix b x y s t a c px py hx hy h =
      let (s', ws, ks, rs) = F.written b x s px hx in
      let (t', wt, kt, rt) = F.written b y t py hy in
      let both : b ++ (s' ++ a) ≡ b ++ (t' ++ c) =
        sym (append_assoc b s' a)
        ∙ ap (λ u. u ++ a) (sym ws)
        ∙ h
        ∙ ap (λ u. u ++ c) wt
        ∙ append_assoc b t' c in
      same_read x y a c (sym (rs a) ∙ ap d (append_cancel b (s' ++ a) (t' ++ c) both) ∙ rt c)
