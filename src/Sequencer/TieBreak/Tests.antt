-- ===== src/Sequencer/TieBreak/Tests.antt =====
-- Two candidates in either order, and a nil one before or after another.
use mls_go.Prelude.{◌≡◌, refl, inl, inr, Option, none, some, [], ◌∷◌}
use mls_go.Syntax.Varint.{Bytes}
use mls_go.Cipher.Sample.{sample}
use mls_go.Sequencer.TieBreak.{canonical_commit}
use mls_go.Sequencer.TieBreak.Least.{Among}
use mls_go.Sequencer.TieBreak.Order.{canonical_commit_order}

abbrev one : Option Bytes
one = some (1 ∷ [])

abbrev two : Option Bytes
two = some (2 ∷ [])

swapped : (a b c : Option Bytes) → Among c (a ∷ b ∷ []) → Among c (b ∷ a ∷ [])
swapped a b c (inl h) = inr (inl h)
swapped a b c (inr (inl h)) = inl h
swapped a b c (inr (inr h)) = absurd h

no_nil : ¬ Among none (one ∷ two ∷ [])
no_nil (inl h) = cc h
no_nil (inr (inl h)) = cc h
no_nil (inr (inr h)) = absurd h

canonical_commit_order_example :
    canonical_commit sample (one ∷ two ∷ []) ≡ canonical_commit sample (two ∷ one ∷ [])
canonical_commit_order_example =
    canonical_commit_order sample (one ∷ two ∷ []) (two ∷ one ∷ []) (λ c. refl) no_nil
      (swapped one two) (swapped two one)
