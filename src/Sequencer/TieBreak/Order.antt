-- ===== src/Sequencer/TieBreak/Order.antt =====
-- Without a nil candidate, the canonical commit does not depend on the order of the candidates.
use mls_go.Prelude.{
  ◌≡◌, ◌≢◌, refl, sym, ap, subst, ◌∙◌, inl, Option, none, some, List, [], ◌∷◌, ◌++◌, length, arith,
}
use mls_go.Syntax.Varint.{Bytes}
use mls_go.Cipher.{Suite, hash}
use mls_go.Sequencer.TieBreak.{bytes_of, key_of, canonical_commit}
use mls_go.Sequencer.TieBreak.Least.{Among, antisymmetric, canonical_commit-IsLeast}

suffix : (a b c d : Bytes) → length a ≡ length b → a ++ c ≡ b ++ d → c ≡ d
suffix [] [] c d h e = e
suffix [] (y ∷ b) c d h e = absurd (omega arith)
suffix (x ∷ a) [] c d h e = absurd (omega arith)
suffix (x ∷ a) (y ∷ b) c d h e = suffix a b c d (omega arith) (cc e)

same_bytes : (r r' : Option Bytes) → r ≢ none → r' ≢ none → bytes_of r ≡ bytes_of r' → r ≡ r'
same_bytes none r' there there' h = absurd (there refl)
same_bytes (some r) none there there' h = absurd (there' refl)
same_bytes (some r) (some r') there there' h = ap some h

not_nil :
    (r : Option Bytes) (candidates : List (Option Bytes))
    → ¬ Among none candidates
    → Among r candidates
    → r ≢ none
not_nil r candidates no_nil member e = no_nil (subst (λ c. Among c candidates) e member)

-- For a hash of a fixed length, CanonicalCommit picks the same commit from two lists with the
-- same candidates, none of them nil, whatever their order.
pub canonical_commit_order :
    (suite : Suite) (candidates candidates' : List (Option Bytes))
    → ((c : Bytes) → length (hash suite c) ≡ suite.digest_size)
    → ¬ Among none candidates
    → ((c : Option Bytes) → Among c candidates → Among c candidates')
    → ((c : Option Bytes) → Among c candidates' → Among c candidates)
    → canonical_commit suite candidates ≡ canonical_commit suite candidates'
canonical_commit_order suite [] [] sized no_nil into back = refl
canonical_commit_order suite [] (d ∷ ds) sized no_nil into back = absurd (back d (inl refl))
canonical_commit_order suite (c ∷ cs) [] sized no_nil into back = absurd (into c (inl refl))
canonical_commit_order suite (c ∷ cs) (d ∷ ds) sized no_nil into back =
    let r = canonical_commit suite (c ∷ cs) in
    let r' = canonical_commit suite (d ∷ ds) in
    let (member, least) = canonical_commit-IsLeast suite c cs no_nil in
    let (member', least') = canonical_commit-IsLeast suite d ds (λ m. no_nil (back none m)) in
    let keys : key_of suite r ≡ key_of suite r' =
      antisymmetric (key_of suite r) (key_of suite r') (least' r (into r member))
        (least r' (back r' member')) in
    same_bytes r r' (not_nil r (c ∷ cs) no_nil member)
      (not_nil r' (c ∷ cs) no_nil (back r' member'))
      (suffix (hash suite (bytes_of r)) (hash suite (bytes_of r')) (bytes_of r) (bytes_of r')
        (sized (bytes_of r) ∙ sym (sized (bytes_of r'))) keys)
