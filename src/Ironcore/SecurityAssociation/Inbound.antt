-- ===== src/Ironcore/SecurityAssociation/Inbound.antt =====
-- What InboundSAs returns.
use mls_go.Prelude.{
  ℕ, ◌≡◌, ◌≢◌, refl, sym, ap, subst, ◌∙◌, Option, none, some, List, [], ◌∷◌, ◌++◌, append_assoc,
  append-nil, All, All-append, Result, ok, err, >>=-eq-ok, spi_collision, Bool, true, false,
  if◌then◌else◌,
}
use mls_go.Prelude.Dict
use mls_go.Prelude.Dict.{Dict, nat_eq}
use mls_go.Ironcore.SecurityAssociation.{
  Sa, InboundSa, sender_spi, sender_salt, inbound_loop, inbound_sas,
}

abbrev pub leaves_of : List InboundSa → List ℕ
leaves_of [] = []
leaves_of (i ∷ out) = i.leaf ∷ leaves_of out

-- No two have the same SPI.
abbrev pub Distinct : List InboundSa → Type 0
Distinct [] = Unit {0}
Distinct (i ∷ out) = All (λ j. i.spi ≢ j.spi) out × Distinct out

-- An association with the values of its sender.
abbrev pub IsOf : Sa → InboundSa → Type 0
IsOf sa i =
    (sender_spi sa i.leaf ≡ ok i.spi) × (sender_salt sa i.leaf ≡ ok i.salt) × (i.key ≡ sa.key)

leaves_of-append : (xs ys : List InboundSa) → leaves_of (xs ++ ys) ≡ leaves_of xs ++ leaves_of ys
leaves_of-append [] ys = refl
leaves_of-append (x ∷ xs) ys = ap (λ t. x.leaf ∷ t) (leaves_of-append xs ys)

Distinct-append :
    (xs : List InboundSa) (i : InboundSa)
    → Distinct xs
    → All (λ j. j.spi ≢ i.spi) xs
    → Distinct (xs ++ i ∷ [])
Distinct-append [] i d a = (tt, tt)
Distinct-append (x ∷ xs) i (here, d) (apart, a) =
    (All-append (λ j. x.spi ≢ j.spi) xs (i ∷ []) here (apart, tt), Distinct-append xs i d a)

-- The SPIs that were put out have been seen.
abbrev Seen : Dict ℕ ℕ → List InboundSa → Type 0
Seen seen out = All (λ i. Dict.lookup i.spi seen ≢ none) out

fresh :
    (seen : Dict ℕ ℕ) (spi : ℕ) (out : List InboundSa)
    → Dict.lookup spi seen ≡ none
    → Seen seen out
    → All (λ j. j.spi ≢ spi) out
fresh seen spi [] h s = tt
fresh seen spi (i ∷ out) h (here, s) =
    ((λ same. here (ap (λ (t : ℕ). Dict.lookup t seen) same ∙ h)), fresh seen spi out h s)

either_seen : (b : Bool) (leaf : ℕ) (o : Option ℕ) → o ≢ none → (if b then some leaf else o) ≢ none
either_seen true leaf o h e = cc
either_seen false leaf o h e = h e

still-Seen :
    (seen : Dict ℕ ℕ) (spi leaf : ℕ) (out : List InboundSa)
    → Seen seen out
    → Seen (Dict.insert spi leaf seen) out
still-Seen seen spi leaf [] s = tt
still-Seen seen spi leaf (i ∷ out) (here, s) = (
  λ e.
      either_seen (nat_eq.beq spi i.spi) leaf (Dict.lookup i.spi seen) here
        (sym (Dict.lookup-insert spi i.spi leaf seen) ∙ e),
  still-Seen seen spi leaf out s,
)

now_seen : (seen : Dict ℕ ℕ) (spi leaf : ℕ) → Dict.lookup spi (Dict.insert spi leaf seen) ≢ none
now_seen seen spi leaf h = cc (h, Dict.lookup-insert_self spi leaf seen)

ok_same : {a b : List InboundSa} → ok a ≡ ok b → a ≡ b
ok_same h = cc h

not_taken :
    (o : Option ℕ) (next : Result (List InboundSa)) (res : List InboundSa)
    → (elim o [ some other ↦ err spi_collision | none ↦ next ]) ≡ ok res
    → (o ≡ none) × (next ≡ ok res)
not_taken none next res h = (refl, h)
not_taken (some other) next res h = cc

inbound_loop-Distinct :
    (sa : Sa) (leaves : List ℕ) (seen : Dict ℕ ℕ) (out res : List InboundSa)
    → Seen seen out
    → Distinct out
    → All (IsOf sa) out
    → inbound_loop sa leaves seen out ≡ ok res
    → (leaves_of res ≡ leaves_of out ++ leaves) × Distinct res × All (IsOf sa) res
unfolding inbound_loop
inbound_loop-Distinct sa [] seen out res s d a h =
    subst (λ r. (leaves_of r ≡ leaves_of out ++ []) × Distinct r × All (IsOf sa) r) (ok_same h)
      (sym (append-nil (leaves_of out)), d, a)
inbound_loop-Distinct sa (leaf ∷ leaves) seen out res s d a h =
    let (spi, e, r) = >>=-eq-ok (sender_spi sa leaf) _ h in
    let (free, next) = not_taken (Dict.lookup spi seen) _ res r in
    let (salt, e₂, rest) = >>=-eq-ok (sender_salt sa leaf) _ next in
    let i : InboundSa = record { leaf = leaf; spi = spi; key = sa.key; salt = salt } in
    let (same, distinct, of) =
      inbound_loop-Distinct sa leaves (Dict.insert spi leaf seen) (out ++ i ∷ []) res
        (All-append (λ i. Dict.lookup i.spi (Dict.insert spi leaf seen) ≢ none) out (i ∷ [])
          (still-Seen seen spi leaf out s) (now_seen seen spi leaf, tt))
        (Distinct-append out i d (fresh seen spi out free s))
        (All-append (IsOf sa) out (i ∷ []) a ((e, e₂, refl), tt)) rest in
    (
      same
          ∙ ap (λ t. t ++ leaves) (leaves_of-append out (i ∷ []))
          ∙ append_assoc (leaves_of out) (leaf ∷ []) leaves,
      distinct,
      of,
    )

-- When InboundSAs succeeds it returns an association for each leaf in order, with the SPI, the
-- salt and the key of that sender, and no two of them share an SPI.
pub inbound_sas-Distinct :
    (sa : Sa) (leaves : List ℕ) (out : List InboundSa)
    → inbound_sas sa leaves ≡ ok out
    → (leaves_of out ≡ leaves) × Distinct out × All (IsOf sa) out
unfolding inbound_sas
inbound_sas-Distinct sa leaves out h = inbound_loop-Distinct sa leaves [] [] out tt tt tt h
