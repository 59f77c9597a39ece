-- ===== src/Names/Parse.antt =====
-- `ParseClassName` against `FullyQualifiedClassName` of java/gazelle/private/types/types.go, for every
-- `unicode.IsUpper`.
use mathlib.Core.List.{reverse, reverse-append, reverse-cons}
use rules_jvm.Prelude.{
  ℕ, zero, suc, ◌-◌, ◌<◌, ◌≤◌, ◌≡◌, refl, sym, ap, ◌∙◌, append_assoc, ◌≢◌, ◌⊎◌, inl, inr, if_neg,
  if_pos, Bool, true, false, some, List, [], ◌∷◌, ◌++◌, arith, Text, text_dec, has_prefix, split,
  push, join, ◌==◌, length, get_or, take, drop, Bool-cases, All, All-take, All-reverse, All-append,
  Lacks, join-split, split-join, split-Lacks, split-ne-nil, take-get_or-drop, take-append,
  get_or-append, drop-cons, drop_all, length-reverse,
}
use rules_jvm.Names.{
  dot, PackageName, new_package_name, ClassName, package_parts, fully_qualified_class_name,
  outer_index, parse_class_name,
}

join-eq-nil : (ps : List Text) → join dot ps ≡ [] → (ps ≡ []) ⊎ (ps ≡ [] ∷ [])
unfolding join
join-eq-nil [] h = inl refl
join-eq-nil (p ∷ []) h = inr (rw h)
join-eq-nil ([] ∷ q ∷ ps) h = cc
join-eq-nil ((c ∷ p) ∷ q ∷ ps) h = cc

-- The segments of a package name that was joined from segments.
package_parts-join :
    (ps : List Text)
    → All (Lacks dot) ps
    → ps ≢ [] ∷ []
    → package_parts (new_package_name (join dot ps)) ≡ ps
unfolding package_parts
package_parts-join ps h n = elim (text_dec (join dot ps) []) [
  | yes e ↦
      rw (if_pos _ e) (elim (join-eq-nil ps e) [ inl none_ ↦ sym none_ | inr one ↦ absurd (n one) ])
  | no e ↦ rw (if_neg _ e) (split-join dot ps (λ z. e (rw z (unfold join in refl))) h)
]

module _ (is_upper : ℕ → Bool) where
  outer_index-lt :
      (ps : List Text) (best n : ℕ) → best < n → length ps ≤ n → outer_index is_upper ps best < n
  unfolding outer_index
  outer_index-lt [] best n hb hl = hb
  outer_index-lt ([] ∷ ps) best n hb hl = outer_index-lt ps best n hb (omega arith)
  outer_index-lt ((c ∷ p) ∷ ps) best n hb hl =
      ground (arith, outer_index-lt ps (length ps) n (omega arith) (omega arith))

  -- What the loop returns for the parts of a text is an index of them.
  outer_index-split :
      (s : Text)
      → outer_index is_upper (reverse (split dot s)) (length (split dot s) - 1)
        < length (split dot s)
  outer_index-split s =
      outer_index-lt (reverse (split dot s)) _ _ (pos (split dot s) (split-ne-nil dot s))
        (rw length-reverse (omega arith))
    where
      pos : (ps : List Text) → ps ≢ [] → length ps - 1 < length ps
      pos [] h = absurd (h refl)
      pos (p ∷ ps) h = omega arith

  -- What the parser returns for a text whose loop ends at the index `i`.
  abbrev pub at_index : List Text → ℕ → ClassName
  at_index parts i = record {
    package_name = new_package_name (join dot (take i parts));
    bare_outer_class_name = get_or parts i [];
    inner_class_names = drop (suc i) parts;
  }

  pub parse_class_name_lem :
      (s : Text)
      → parse_class_name is_upper s
        ≡ some (
            at_index
              (split dot s)
              (outer_index is_upper (reverse (split dot s)) (length (split dot s) - 1)))
  unfolding parse_class_name
  parse_class_name_lem s =
      let parts = split dot s in
      let i = outer_index is_upper (reverse parts) (length parts - 1) in
      ground (arith, outer_index-split s, drop_all (suc i) parts)

  take-ne-blank :
      (s : Text) (i : ℕ)
      → i < length (split dot s)
      → has_prefix s (dot ∷ []) ≡ false
      → take i (split dot s) ≢ [] ∷ []
  unfolding has_prefix split push
  take-ne-blank [] zero l h = cc
  take-ne-blank [] (suc i) l h = absurd (omega arith)
  take-ne-blank (c ∷ s) zero l h = cc
  take-ne-blank (c ∷ s) (suc i) l h = elim (Bool-cases (c == dot)) [
    | inl same ↦ absurd (ground arith)
    | inr other ↦ rw other (take-push-ne-blank (split dot s))
  ]
    where
      take-push-ne-blank : (ps : List Text) → take (suc i) (push c ps) ≢ [] ∷ []
      take-push-ne-blank [] = cc
      take-push-ne-blank (p ∷ ps) = cc

  -- The package is not the empty part in front of a dot, so the printer joins all the parts.
  printed :
      (s : Text) (i : ℕ)
      → i < length (split dot s)
      → take i (split dot s) ≢ [] ∷ []
      → fully_qualified_class_name (at_index (split dot s) i) ≡ s
  unfolding fully_qualified_class_name
  printed s i lt ne =
      let parts = split dot s in
      rw
        (
          package_parts-join (take i parts) (All-take _ i parts (split-Lacks dot s)) ne,
          take-get_or-drop i parts [] lt,
        )
        (join-split dot s)

  printed_blank :
      (s : Text) (i : ℕ)
      → i < length (split dot s)
      → take i (split dot s) ≡ [] ∷ []
      → s ≡ dot ∷ fully_qualified_class_name (at_index (split dot s) i)
  unfolding fully_qualified_class_name package_parts join text_dec
  printed_blank s i lt e =
      let parts = split dot s in
      let rest : List Text = get_or parts i [] ∷ drop (suc i) parts in
      let all : parts ≡ [] ∷ rest = sym (take-get_or-drop i parts [] lt) ∙ ap (λ z. z ++ rest) e in
      sym (join-split dot s)
      ∙ ap (join dot) all
      ∙ ap (λ z. dot ∷ join dot (package_parts (new_package_name (join dot z)) ++ rest)) (sym e)

  blank-cases : (ps : List Text) → (ps ≡ [] ∷ []) ⊎ (ps ≢ [] ∷ [])
  blank-cases [] = inr (cc)
  blank-cases ([] ∷ []) = inl refl
  blank-cases ([] ∷ q ∷ ps) = inr (cc)
  blank-cases ((c ∷ p) ∷ ps) = inr (cc)

  pub fully_qualified_class_name-parse_absolute :
      (s : Text)
      → has_prefix s (dot ∷ []) ≡ false
      → (c : ClassName) × (parse_class_name is_upper s ≡ some c)
        × (fully_qualified_class_name c ≡ s)
  fully_qualified_class_name-parse_absolute s h =
      let lt = outer_index-split s in
      (_, parse_class_name_lem s, printed s _ lt (take-ne-blank s _ lt h))

  -- Parsing never fails, and what it returns is printed back as the text was, or without a dot at its start.
  pub fully_qualified_class_name-parse :
      (s : Text)
      → (c : ClassName) × (parse_class_name is_upper s ≡ some c)
        × ((fully_qualified_class_name c ≡ s) ⊎ (s ≡ dot ∷ fully_qualified_class_name c))
  fully_qualified_class_name-parse s =
      let parts = split dot s in
      let i = outer_index is_upper (reverse parts) (length parts - 1) in
      let lt = outer_index-split s in
      (
        at_index parts i,
        parse_class_name_lem s,
        elim (blank-cases (take i parts)) [
          | inl e ↦ inr (printed_blank s i lt e)
          | inr ne ↦ inl (printed s i lt ne)
        ],
      )

  -- A part at which the loop goes on: an empty one, or one that starts with an upper case letter.
  abbrev pub IsClassPart : Text → Type 0
  IsClassPart [] = Unit {0}
  IsClassPart (c ∷ _) = is_upper c ≡ true

  abbrev pub IsPackagePart : Text → Type 0
  IsPackagePart [] = ⊥
  IsPackagePart (c ∷ _) = is_upper c ≡ false

  abbrev pub IsOuterClass : Text → Type 0
  IsOuterClass [] = ⊥
  IsOuterClass (c ∷ _) = is_upper c ≡ true

  outer_index-package :
      (ps : List Text) (best : ℕ) → All IsPackagePart ps → outer_index is_upper ps best ≡ best
  unfolding outer_index
  outer_index-package [] best h = refl
  outer_index-package ([] ∷ ps) best h = absurd h.0
  outer_index-package ((c ∷ p) ∷ ps) best h = rw h.0

  outer_index-append :
      (ps qs : List Text) (outer : Text) (best : ℕ)
      → All IsClassPart ps
      → IsOuterClass outer
      → outer_index is_upper (ps ++ outer ∷ qs) best ≡ outer_index is_upper qs (length qs)
  unfolding outer_index
  outer_index-append [] qs [] best h o = absurd o
  outer_index-append [] qs (c ∷ p) best h o = rw o
  outer_index-append ([] ∷ ps) qs outer best h o = outer_index-append ps qs outer best h.1 o
  outer_index-append ((c ∷ p) ∷ ps) qs outer best h o =
      rw h.0 (outer_index-append ps qs outer _ h.1 o)

  outer_index-reverse :
      (ps qs : List Text) (outer : Text) (best : ℕ)
      → All IsPackagePart ps
      → IsOuterClass outer
      → All IsClassPart qs
      → outer_index is_upper (reverse (ps ++ outer ∷ qs)) best ≡ length ps
  outer_index-reverse ps qs outer best hp ho hq =
      rw (reverse-append ps (outer ∷ qs), reverse-cons outer qs, append_assoc)
        (outer_index-append (reverse qs) (reverse ps) outer best (All-reverse _ qs hq) ho
          ∙ outer_index-package (reverse ps) _ (All-reverse _ ps hp)
          ∙ length-reverse ps)

  join-package_parts : (p : PackageName) → join dot (package_parts p) ≡ p.name
  unfolding package_parts
  join-package_parts p = elim (text_dec p.name []) [
    | yes e ↦ rw (if_pos _ e) (rw e (unfold join in refl))
    | no e ↦ rw (if_neg _ e) (join-split dot p.name)
  ]

  package_parts-Lacks : (p : PackageName) → All (Lacks dot) (package_parts p)
  unfolding package_parts
  package_parts-Lacks p = elim (text_dec p.name []) [
    | yes e ↦ rw (if_pos _ e) tt
    | no e ↦ rw (if_neg _ e) (split-Lacks dot p.name)
  ]

  -- A class name that follows the conventions (package segments not empty and not in upper case, the
  -- outer class in upper case, inner classes in upper case or anonymous, no dots inside) is read back
  -- from its printed form.
  pub parse-fully_qualified_class_name :
      (c : ClassName)
      → All IsPackagePart (package_parts c.package_name)
      → IsOuterClass c.bare_outer_class_name
      → All IsClassPart c.inner_class_names
      → All (Lacks dot) (c.bare_outer_class_name ∷ c.inner_class_names)
      → parse_class_name is_upper (fully_qualified_class_name c) ≡ some c
  unfolding fully_qualified_class_name
  parse-fully_qualified_class_name c hp ho hi hl =
      let ps = package_parts c.package_name in
      let rest = c.inner_class_names in
      let outer = c.bare_outer_class_name in
      rw (parse_class_name_lem (join dot (ps ++ outer ∷ rest))) (
        rw
          (
            split-join dot (ps ++ outer ∷ rest) (append-cons-ne-nil ps rest outer)
                (All-append _ ps _ (package_parts-Lacks c.package_name) hl),
            outer_index-reverse ps rest outer _ hp ho hi,
            take-append ps (outer ∷ rest),
            get_or-append ps rest outer [],
            drop-cons ps rest outer,
            join-package_parts c.package_name,
          )
          refl)
    where
      append-cons-ne-nil : (ps rest : List Text) (p : Text) → ps ++ p ∷ rest ≢ []
      append-cons-ne-nil [] rest p = cc
      append-cons-ne-nil (_ ∷ ps) rest p = cc
