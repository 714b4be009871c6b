-- ===== src/CorpusGen/Values/Labels.antt =====
-- Reversing the labels of a domain twice gives the domain back.
use pdq.Prelude.{
  ℕ, ◌≡◌, ◌≢◌, refl, sym, ap, ◌∙◌, Bool, true, false, List, [], ◌∷◌, ◌++◌, All, Bool-cases, inl,
  inr, ◌==◌, ==_iff, if◌then◌else◌,
}
use pdq.Text.{Str}
use pdq.CorpusGen.Values.{onto_first, split_dots, join_onto, join_dots, reverse_domain}
use mathlib.Core.List.{reverse, reverse_aux, reverse-reverse}

-- A label holds no dot.
abbrev IsLabel : Str → Type 0
IsLabel = All (λ c. (c == b'.') ≡ false)

if-ne-nil : (b : Bool) (c : ℕ) (rest : List Str) → (if b then [] ∷ rest else onto_first c rest) ≢ []
if-ne-nil true c rest e = cc
if-ne-nil false c [] e = cc
if-ne-nil false c (label ∷ labels) e = cc

split_dots-ne-nil : (s : Str) → split_dots s ≢ []
unfolding split_dots
split_dots-ne-nil [] e = cc
split_dots-ne-nil (c ∷ s) e = if-ne-nil (c == b'.') c (split_dots s) e

join_dots-nil :
    (labels : List Str) → labels ≢ [] → join_dots ([] ∷ labels) ≡ b'.' ∷ join_dots labels
unfolding join_dots
join_dots-nil [] h = absurd (h refl)
join_dots-nil (label ∷ labels) h = refl

join_onto-cons :
    (c : ℕ) (label : Str) (labels : List Str)
    → join_onto (c ∷ label) labels ≡ c ∷ join_onto label labels
join_onto-cons c label [] = refl
join_onto-cons c label (next ∷ labels) = refl

join_dots-onto_first :
    (c : ℕ) (labels : List Str)
    → labels ≢ []
    → join_dots (onto_first c labels) ≡ c ∷ join_dots labels
unfolding join_dots
join_dots-onto_first c [] h = absurd (h refl)
join_dots-onto_first c (label ∷ labels) h = join_onto-cons c label labels

join_dots-split_dots : (s : Str) → join_dots (split_dots s) ≡ s
unfolding split_dots
join_dots-split_dots [] = unfold join_dots in refl
join_dots-split_dots (c ∷ s) =
    let ih = join_dots-split_dots s in
    elim (Bool-cases (c == b'.')) [
      | inl dot ↦
          let e : c ≡ b'.' = (==_iff c b'.').0 dot in
          rw (split_dots, dot, join_dots-nil (split_dots s) (split_dots-ne-nil s), ih)
            (ap (λ (x : ℕ). x ∷ s) (sym e))
      | inr other ↦
          rw (split_dots, other, join_dots-onto_first c (split_dots s) (split_dots-ne-nil s), ih)
            refl
    ]

split_dots-label : (label : Str) → IsLabel label → split_dots label ≡ label ∷ []
unfolding split_dots
split_dots-label [] h = refl
split_dots-label (c ∷ label) (p, h) = rw (split_dots, p, split_dots-label label h) refl

split_dots-dot :
    (label s : Str) → IsLabel label → split_dots (label ++ b'.' ∷ s) ≡ label ∷ split_dots s
unfolding split_dots
split_dots-dot [] s h = refl
split_dots-dot (c ∷ label) s (p, h) = rw (split_dots, p, split_dots-dot label s h) refl

split_dots-join_onto :
    (label : Str) (labels : List Str)
    → IsLabel label
    → All IsLabel labels
    → split_dots (join_onto label labels) ≡ label ∷ labels
split_dots-join_onto label [] h hs = split_dots-label label h
split_dots-join_onto label (next ∷ labels) h (p, hs) =
    split_dots-dot label (join_onto next labels) h
    ∙ ap (◌∷◌ label) (split_dots-join_onto next labels p hs)

split_dots-join_dots :
    (labels : List Str) → labels ≢ [] → All IsLabel labels → split_dots (join_dots labels) ≡ labels
unfolding join_dots
split_dots-join_dots [] n h = absurd (n refl)
split_dots-join_dots (label ∷ labels) n (p, h) = split_dots-join_onto label labels p h

onto_first-AllLabels :
    (c : ℕ) (labels : List Str)
    → (c == b'.') ≡ false
    → All IsLabel labels
    → All IsLabel (onto_first c labels)
onto_first-AllLabels c [] p h = ((p, tt), tt)
onto_first-AllLabels c (label ∷ labels) p (q, h) = ((p, q), h)

split_dots-AllLabels : (s : Str) → All IsLabel (split_dots s)
unfolding split_dots
split_dots-AllLabels [] = (tt, tt)
split_dots-AllLabels (c ∷ s) =
    let ih = split_dots-AllLabels s in
    elim (Bool-cases (c == b'.')) [
      | inl dot ↦ rw (split_dots, dot) (tt, ih)
      | inr other ↦ rw (split_dots, other) (onto_first-AllLabels c (split_dots s) other ih)
    ]

All-reverse_aux :
    {A : Type 0} (P : A → Type 0) (xs ys : List A) → All P xs → All P ys → All P (reverse_aux xs ys)
All-reverse_aux P [] ys h k = k
All-reverse_aux P (x ∷ xs) ys (p, h) k = All-reverse_aux P xs (x ∷ ys) h (p, k)

reverse-ne-nil : {A : Type 0} (xs : List A) → xs ≢ [] → reverse xs ≢ []
reverse-ne-nil xs h e = h (sym (reverse-reverse xs) ∙ ap reverse e)

-- Reversing the labels of a domain twice gives the domain back, whatever its bytes.
pub reverse_domain-twice : (domain : Str) → reverse_domain (reverse_domain domain) ≡ domain
unfolding reverse_domain
reverse_domain-twice domain =
    let labels = split_dots domain in
    let back =
      split_dots-join_dots (reverse labels) (reverse-ne-nil labels (split_dots-ne-nil domain))
        (All-reverse_aux IsLabel labels [] (split_dots-AllLabels domain) tt) in
    ap (λ ls. join_dots (reverse ls)) back
    ∙ ap join_dots (reverse-reverse labels)
    ∙ join_dots-split_dots domain
