-- ===== src/Config/Flags.antt =====
-- The flags that map annotations of tests to attributes and wrappers (java/gazelle/configure.go).
use mathlib.Core.Option.{some-injective}
use rules_jvm.Prelude.{
  subst, sym, ◌≡◌, refl, ap, ◌∙◌, Option, none, some, List, [], ◌∷◌, Text, text_dec, split, lookup,
  put, lookup-put, lookup-put_self, arith, Memᴰ, Memᴰ-cons, not-Memᴰ-nil, Option-cases, inl, inr,
}

-- annotationToAttribute: attributes and the tokens of their values, by annotation.
abbrev pub Attributes : Type 0
Attributes = List (Text × List (Text × Text))

abbrev pub token_of : Attributes → Text → Text → Option Text
token_of m a k = elim (lookup text_dec a m) [ none ↦ none | some kv ↦ lookup text_dec k kv ]

abbrev pub attributes_of : Attributes → Text → List (Text × Text)
attributes_of m a = elim (lookup text_dec a m) [ none ↦ [] | some kv ↦ kv ]

-- What is between the equals signs: an annotation, an attribute and a value.
unfoldable pub set_attribute_parts : List Text → Attributes → Option Attributes
unfolding lookup put text_dec
set_attribute_parts [] m = none
set_attribute_parts (a ∷ []) m = none
set_attribute_parts (a ∷ k ∷ []) m = none
set_attribute_parts (a ∷ k ∷ v ∷ []) m = elim (token_of m a k) [
  | some _ ↦ none
  | none ↦ some (put text_dec a (put text_dec k v (attributes_of m a)) m)
]
set_attribute_parts (a ∷ k ∷ v ∷ w ∷ rest) m = none

-- Set of annotationToAttribute
unfoldable pub set_attribute : Text → Attributes → Option Attributes
unfolding set_attribute_parts split
set_attribute value m = set_attribute_parts (split b'=' value) m

-- The flags of a command line, each a call of `Set`; an error ends the run.
unfoldable pub set_attributes : List Text → Attributes → Option Attributes
unfolding set_attribute
set_attributes [] m = some m
set_attributes (t ∷ ts) m = elim (set_attribute t m) [
  | none ↦ none
  | some m' ↦ set_attributes ts m'
]

-- Set of annotationToWrapper: the file and the symbol of a load, by annotation.
unfoldable pub set_wrapper_parts :
    List Text → List Text → List (Text × (Text × Text)) → Option (List (Text × (Text × Text)))
unfolding lookup put text_dec
set_wrapper_parts (a ∷ b ∷ []) (from ∷ symbol ∷ []) m = elim (lookup text_dec a m) [
  | some _ ↦ none
  | none ↦ some (put text_dec a (from, symbol) m)
]
set_wrapper_parts parts values m = none

unfoldable pub set_wrapper :
    Text → List (Text × (Text × Text)) → Option (List (Text × (Text × Text)))
unfolding set_wrapper_parts split
set_wrapper value m = elim (split b'=' value) [
  | [] ↦ none
  | a ∷ [] ↦ none
  | a ∷ b ∷ rest ↦ set_wrapper_parts (a ∷ b ∷ rest) (split b',' b) m
]

-- Every token that is there stays there.
abbrev pub Extends : Attributes → Attributes → Type 0
Extends m m' = (a k t : Text) → token_of m a k ≡ some t → token_of m' a k ≡ some t

put-Extends :
    (m : Attributes) (a k v : Text)
    → token_of m a k ≡ none
    → Extends m (put text_dec a (put text_dec k v (attributes_of m a)) m)
put-Extends m a k v n b j t e = ground (
  arith,
  n,
  e,
  lookup-put text_dec a b (put text_dec k v (attributes_of m a)) m,
  lookup-put text_dec k j v (attributes_of m a),
)

-- A row of three parts, whose last is the token of the first two.
abbrev pub IsHeld : List Text → Attributes → Type 0
IsHeld parts m =
    (a : Text) × (k : Text) × (v : Text) × (parts ≡ a ∷ k ∷ v ∷ []) × (token_of m a k ≡ some v)

put-token_of :
    (m : Attributes) (a k v : Text)
    → token_of (put text_dec a (put text_dec k v (attributes_of m a)) m) a k ≡ some v
put-token_of m a k v = ground (
  arith,
  lookup-put_self text_dec a (put text_dec k v (attributes_of m a)) m,
  lookup-put_self text_dec k v (attributes_of m a),
)

set_attribute_parts-IsHeld :
    (parts : List Text) (m m' : Attributes)
    → set_attribute_parts parts m ≡ some m'
    → Extends m m' × IsHeld parts m'
unfolding set_attribute_parts
set_attribute_parts-IsHeld [] m m' e = ground (arith, e)
set_attribute_parts-IsHeld (a ∷ []) m m' e = ground (arith, e)
set_attribute_parts-IsHeld (a ∷ k ∷ []) m m' e = ground (arith, e)
set_attribute_parts-IsHeld (a ∷ k ∷ v ∷ []) m m' e = go (token_of m a k) refl e
  where
    new_m : Attributes
    new_m = put text_dec a (put text_dec k v (attributes_of m a)) m

    go :
        (o : Option Text)
        → token_of m a k ≡ o
        → elim o [ some _ ↦ none | none ↦ some new_m ] ≡ some m'
        → Extends m m' × IsHeld (a ∷ k ∷ v ∷ []) m'
    go (some t) n e' = ground (arith, e')
    go none n e' =
        subst (λ x. Extends m x × IsHeld (a ∷ k ∷ v ∷ []) x) (some-injective new_m m' e')
          (put-Extends m a k v n, (a, k, v, refl, put-token_of m a k v))
set_attribute_parts-IsHeld (a ∷ k ∷ v ∷ w ∷ rest) m m' e = ground (arith, e)

set_attributes-step :
    (t : Text) (ts : List Text) (m : Attributes) (o : Option Attributes)
    → set_attribute t m ≡ o
    → set_attributes (t ∷ ts) m ≡ elim o [ none ↦ none | some m' ↦ set_attributes ts m' ]
unfolding set_attributes
set_attributes-step t ts m o e = ap (λ z. elim z [ none ↦ none | some m' ↦ set_attributes ts m' ]) e

-- When the flags are accepted, each of them consists of an annotation, an attribute and a value, and the map has that
-- value for them: no flag overwrites another one. What the map had before is kept.
pub set_attributes-IsHeld :
    (ts : List Text) (m m' : Attributes)
    → set_attributes ts m ≡ some m'
    → Extends m m' × ((t : Text) → Memᴰ t ts → IsHeld (split b'=' t) m')
unfolding set_attributes set_attribute
set_attributes-IsHeld [] m m' e =
    (λ a k t h. ground (arith, e, h), λ t i. absurd (not-Memᴰ-nil t i))
set_attributes-IsHeld (t ∷ ts) m m' e = elim (Option-cases (set_attribute t m)) [
  | inl n ↦ ground (arith, sym (set_attributes-step t ts m none n) ∙ e)
  | inr (m1, p) ↦
      let (x, h) = set_attribute_parts-IsHeld (split b'=' t) m m1 p in
      let (a, k, v, q, r) = h in
      let (y, g) =
        set_attributes-IsHeld ts m1 m' (sym (set_attributes-step t ts m (some m1) p) ∙ e) in
      (
        λ b j w z. y b j w (x b j w z),
        λ u i. elim ((Memᴰ-cons u t ts).0 i) [
          | inl s ↦ subst (λ z. IsHeld (split b'=' z) m') (sym s) (a, k, v, q, y a k v r)
          | inr l ↦ g u l
        ],
      )
]
