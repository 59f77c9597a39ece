-- ===== src/Prelude/Strings.antt =====
-- Go's strings as lists of code points, and what the program uses of the package strings.
use Prim.Native.Nat.{ℕ}
use Prim.Native.Char.{code}
use Prim.Native.String.{String}
use mathlib.Core.Path.{◌≡◌, refl, ap, ap₂}
use mathlib.Core.Logic.{◌≢◌, inl, inr}
use mathlib.Core.Bool.{Bool, true, false}
use mathlib.Core.List.{List, [], ◌∷◌, ◌++◌, append_assoc}
use native.Mathlib.Omega.{arith}
use native.Mathlib.Decide.{ℕ_discrete}
use rules_jvm.Prelude.Tests.{ltb, ◌==◌, if◌then◌else◌, Bool-cases}
use rules_jvm.Prelude.Lists.{All}

abbrev pub Text : Type 0
Text = List ℕ

abbrev pub codes : String → Text
codes String.[] = []
codes (String.◌∷◌ c s) = code c ∷ codes s

unfoldable pub text_dec : Discrete Text
unfolding ℕ_discrete
text_dec [] [] = yes refl
text_dec [] (d ∷ t) = no (cc)
text_dec (c ∷ s) [] = no (cc)
text_dec (c ∷ s) (d ∷ t) = elim (ℕ_discrete c d) [
  | yes p ↦ elim (text_dec s t) [
    | yes q ↦ yes (ap₂ ◌∷◌ p q)
    | no n ↦ no (λ (e : c ∷ s ≡ d ∷ t). n (cc))
  ]
  | no n ↦ no (λ (e : c ∷ s ≡ d ∷ t). n (cc))
]

-- `s < t`: the order of code points, which is the order of the bytes of UTF-8.
unfoldable pub text_less : Text → Text → Bool
text_less s [] = false
text_less [] (d ∷ t) = true
text_less (c ∷ s) (d ∷ t) =
    let rest = text_less s t in if ltb c d then true else if c == d then rest else false

-- strings.HasPrefix(s, p)
unfoldable pub has_prefix : Text → Text → Bool
has_prefix s [] = true
has_prefix [] (d ∷ p) = false
has_prefix (c ∷ s) (d ∷ p) = let rest = has_prefix s p in if c == d then rest else false

-- Puts a code point before the first part.
unfoldable pub push : ℕ → List Text → List Text
push c [] = (c ∷ []) ∷ []
push c (p ∷ ps) = (c ∷ p) ∷ ps

-- strings.Split(s, sep) at a separator of one code point: never empty.
unfoldable pub split : ℕ → Text → List Text
unfolding push
split sep [] = [] ∷ []
split sep (c ∷ s) = let rest = split sep s in if c == sep then [] ∷ rest else push c rest

-- strings.Join(parts, sep)
unfoldable pub join : ℕ → List Text → Text
join sep [] = []
join sep (p ∷ []) = p
join sep (p ∷ q ∷ ps) = p ++ sep ∷ join sep (q ∷ ps)

abbrev pub Lacks : ℕ → Text → Type 0
Lacks c = All (λ d. d ≢ c)

module _ (sep : ℕ) where
  pub join-push : (c : ℕ) (ps : List Text) → ps ≢ [] → join sep (push c ps) ≡ c ∷ join sep ps
  unfolding join push
  join-push c [] h = absurd (h refl)
  join-push c (p ∷ []) h = refl
  join-push c (p ∷ q ∷ ps) h = refl

  push-ne-nil : (c : ℕ) (ps : List Text) → push c ps ≢ []
  unfolding push
  push-ne-nil c [] = cc
  push-ne-nil c (p ∷ ps) = cc

  pub split-ne-nil : (s : Text) → split sep s ≢ []
  unfolding split
  split-ne-nil [] = cc
  split-ne-nil (c ∷ s) = ground (arith, push-ne-nil c (split sep s))

  pub join-cons : (p : Text) (ps : List Text) → ps ≢ [] → join sep (p ∷ ps) ≡ p ++ sep ∷ join sep ps
  unfolding join
  join-cons p [] h = absurd (h refl)
  join-cons p (q ∷ ps) h = refl

  -- Joining the parts of a text gives the text back.
  pub join-split : (s : Text) → join sep (split sep s) ≡ s
  unfolding split
  join-split [] = unfold join in refl
  join-split (c ∷ s) =
      ground
        (arith, join-split s, split-ne-nil s, join-push c (split sep s), join-cons [] (split sep s))

  pub split-append : (p s : Text) → Lacks sep p → split sep (p ++ sep ∷ s) ≡ p ∷ split sep s
  unfolding split push
  split-append [] s h = ground arith
  split-append (c ∷ p) s h = ground (arith, split-append p s h.1)

  pub split_of_Lacks : (p : Text) → Lacks sep p → split sep p ≡ p ∷ []
  unfolding split push
  split_of_Lacks [] h = refl
  split_of_Lacks (c ∷ p) h = ground (arith, split_of_Lacks p h.1)

  -- Splitting joined parts gives the parts back.
  pub split-join : (ps : List Text) → ps ≢ [] → All (Lacks sep) ps → split sep (join sep ps) ≡ ps
  unfolding join
  split-join [] h _ = absurd (h refl)
  split-join (p ∷ []) h (hp, _) = split_of_Lacks p hp
  split-join (p ∷ q ∷ ps) h (hp, hps) =
      rw (split-append p _ hp) (ap (◌∷◌ p) (split-join (q ∷ ps) (cc) hps))

  push-Lacks : (c : ℕ) (ps : List Text) → c ≢ sep → All (Lacks sep) ps → All (Lacks sep) (push c ps)
  unfolding push
  push-Lacks c [] n _ = ((n, tt), tt)
  push-Lacks c (p ∷ ps) n (hp, hps) = ((n, hp), hps)

  push-append : (c : ℕ) (ps qs : List Text) → ps ≢ [] → push c (ps ++ qs) ≡ push c ps ++ qs
  unfolding push
  push-append c [] qs h = absurd (h refl)
  push-append c (p ∷ ps) qs h = refl

  -- The parts of a text lack the separator.
  pub split-Lacks : (s : Text) → All (Lacks sep) (split sep s)
  unfolding split push
  split-Lacks [] = (tt, tt)
  split-Lacks (c ∷ s) = elim (Bool-cases (c == sep)) [
    | inl same ↦ rw same (tt, split-Lacks s)
    | inr other ↦ rw other (push-Lacks c (split sep s) (ground arith) (split-Lacks s))
  ]

  -- Splitting a text at one of its separators.
  pub split-append_sep : (s t : Text) → split sep (s ++ sep ∷ t) ≡ split sep s ++ split sep t
  unfolding split
  split-append_sep [] t = ground arith
  split-append_sep (c ∷ s) t =
      ground
        (arith, split-append_sep s t, push-append c (split sep s) (split sep t), split-ne-nil s)

  -- Joining two rows of parts.
  pub join-append :
      (ps qs : List Text)
      → ps ≢ []
      → qs ≢ []
      → join sep (ps ++ qs) ≡ join sep ps ++ sep ∷ join sep qs
  join-append [] qs h k = absurd (h refl)
  join-append (p ∷ []) qs h k = rw (join-cons p qs k) (unfold join in refl)
  join-append (p ∷ q ∷ ps) qs h k = rw (
    join-cons p (q ∷ ps ++ qs) (cc),
    join-append (q ∷ ps) qs (cc) k,
    join-cons p (q ∷ ps) (cc),
    append_assoc,
  )

-- A prefix test finds the rest of the text.
pub has_prefix→ : (s p : Text) → has_prefix s p ≡ true → (rest : Text) × (s ≡ p ++ rest)
unfolding has_prefix
has_prefix→ s [] h = (s, refl)
has_prefix→ [] (d ∷ p) h = absurd (ground arith)
has_prefix→ (c ∷ s) (d ∷ p) h = elim (Bool-cases (c == d)) [
  | inl same ↦ let (rest, e) = has_prefix→ s p (ground arith) in (rest, ground arith)
  | inr other ↦ absurd (ground arith)
]

pub has_prefix-append : (p rest : Text) → has_prefix (p ++ rest) p ≡ true
unfolding has_prefix
has_prefix-append [] rest = refl
has_prefix-append (c ∷ p) rest = ground (arith, has_prefix-append p rest)
