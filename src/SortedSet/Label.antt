-- ===== src/SortedSet/Label.antt =====
-- LabelLess of java/gazelle/private/sorted_set/comparisons.go, and the order of Go on strings, which it
-- uses. (resolve.go declares the same function as `labelLess`.)
use rules_jvm.Prelude.{
  ◌≡◌, refl, ◌⊎◌, inl, inr, Bool, true, false, [], ◌∷◌, arith, Text, text_less, if◌then◌else◌,
}
use rules_jvm.Labels.{Label}
use rules_jvm.SortedSet.View.{StrictOrder, equiv}

text_less_irrefl : (s : Text) → text_less s s ≡ false
unfolding text_less
text_less_irrefl [] = refl
text_less_irrefl (c ∷ s) = ground (arith, text_less_irrefl s)

text_less_trans :
    (s t u : Text) → text_less s t ≡ true → text_less t u ≡ true → text_less s u ≡ true
unfolding text_less
text_less_trans [] [] u h k = cc
text_less_trans [] (d ∷ t) [] h k = cc
text_less_trans [] (d ∷ t) (e ∷ u) h k = refl
text_less_trans (c ∷ s) [] u h k = cc
text_less_trans (c ∷ s) (d ∷ t) [] h k = cc
text_less_trans (c ∷ s) (d ∷ t) (e ∷ u) h k = ground (arith, text_less_trans s t u)

text_less_divide :
    (s t u : Text) → text_less s u ≡ true → (text_less s t ≡ true) ⊎ (text_less t u ≡ true)
unfolding text_less
text_less_divide s t [] h = absurd (ground arith)
text_less_divide [] [] (e ∷ u) h = inr refl
text_less_divide (c ∷ s) [] (e ∷ u) h = inr refl
text_less_divide [] (d ∷ t) (e ∷ u) h = inl refl
text_less_divide (c ∷ s) (d ∷ t) (e ∷ u) h = ground (arith, text_less_divide s t u)

pub text_less-equiv : (s t : Text) → equiv text_less s t ≡ true → s ≡ t
unfolding text_less
text_less-equiv [] [] h = refl
text_less-equiv [] (d ∷ t) h = cc
text_less-equiv (c ∷ s) [] h = cc
text_less-equiv (c ∷ s) (d ∷ t) h = ground (arith, text_less-equiv s t)

pub text_less_order : StrictOrder text_less
text_less_order = record {
  irrefl = text_less_irrefl;
  trans = text_less_trans;
  divide = text_less_divide;
}

-- `String` of the label library is the parameter.
module _ (to_string : Label → Text) where
  unfoldable pub label_less : Label → Label → Bool
  label_less l r =
      if l.relative
      then (if r.relative then text_less (to_string l) (to_string r) else true)
      else (if r.relative then false else text_less (to_string l) (to_string r))

  -- However labels print, the order on them is a strict weak order, and every relative label comes
  -- before every absolute one.
  pub label_less_order :
      StrictOrder label_less
      × ((l r : Label)
          → l.relative ≡ true
          → r.relative ≡ false
          → (label_less l r ≡ true) × (label_less r l ≡ false))
  unfolding label_less
  label_less_order = (
    record {
      irrefl = λ a. ground (arith, text_less_irrefl (to_string a));
      trans =
          λ a b c h k. ground (arith, text_less_trans (to_string a) (to_string b) (to_string c));
      divide =
          λ a b c h. ground (arith, text_less_divide (to_string a) (to_string b) (to_string c));
    },
    λ l r hl hr. ground arith,
  )
