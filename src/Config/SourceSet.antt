-- ===== src/Config/SourceSet.antt =====
-- The detection of source sets in `Configure` (java/gazelle/configure.go), and what generation makes of it.
use mathlib.Core.List.{reverse, reverse-append, reverse-reverse}
use rules_jvm.Prelude.{
  ◌≡◌, ◌≢◌, refl, sym, ap, ◌∙◌, true, false, ◌&&◌, ◌||◌, Option, none, some, List, [], ◌∷◌, ◌++◌,
  Text, codes, text_dec, split, join, join-split, join-append, join-cons, is_yes, if◌then◌else◌,
  append_assoc,
}
use rules_jvm.Config.{Config, new_child, is_text}
use rules_jvm.Generate.Modules.{join_path}
use rules_jvm.Generate.Setting.{is_resources_root}

-- The walk up the directory tree, on the segments of the path, the last one first: the segments of the root of the
-- source set.
unfoldable pub source_set : List Text → Option (List Text)
unfolding text_dec
source_set [] = none
source_set (d ∷ []) = none
source_set (d ∷ s ∷ []) = none
source_set (d ∷ s ∷ g ∷ more) =
    let rest = source_set (s ∷ g ∷ more) in
    if (is_text d (codes "java") || is_text d (codes "resources")) && is_text g (codes "src")
    then some (reverse (s ∷ g ∷ more))
    else rest

unfoldable pub set_source_set : Config → List Text → Config
unfolding join join_path
set_source_set c segments = record c {
  sourceset_root = join b'/' segments;
  strip_resources_prefix = join_path (join b'/' segments) (codes "resources");
}

-- Nothing is detected for a directory that has a setting.
unfoldable pub detect_source_set : Text → Config → Config
unfolding source_set set_source_set split text_dec
detect_source_set rel c =
    if is_text c.strip_resources_prefix [] && is_text c.sourceset_root []
    then elim (source_set (reverse (split b'/' rel))) [
      | none ↦ c
      | some segments ↦ set_source_set c segments
    ]
    else c

-- The segments up to a directory `resources` of a source set.
abbrev pub source_set_of : List Text → Text → List Text
source_set_of ps s = ps ++ codes "src" ∷ s ∷ []

reversed_set :
    (ps : List Text) (s : Text) → reverse (source_set_of ps s) ≡ s ∷ codes "src" ∷ reverse ps
reversed_set ps s = reverse-append ps (codes "src" ∷ s ∷ [])

reversed :
    (ps : List Text) (s : Text)
    → reverse (source_set_of ps s ++ codes "resources" ∷ [])
      ≡ codes "resources" ∷ s ∷ codes "src" ∷ reverse ps
reversed ps s =
    reverse-append (source_set_of ps s) (codes "resources" ∷ [])
    ∙ ap (λ z. codes "resources" ∷ z) (reversed_set ps s)

found :
    (ps : List Text) (s : Text)
    → source_set (reverse (source_set_of ps s ++ codes "resources" ∷ []))
      ≡ some (source_set_of ps s)
unfolding source_set text_dec
found ps s =
    ap source_set (reversed ps s)
    ∙ ap some (ap reverse (sym (reversed_set ps s)) ∙ reverse-reverse (source_set_of ps s))

detected :
    (c : Config) (rel : Text) (segments : List Text)
    → source_set (reverse (split b'/' rel)) ≡ some segments
    → detect_source_set rel (new_child c) ≡ set_source_set (new_child c) segments
unfolding detect_source_set new_child text_dec
detected c rel segments e = rw e

append-ne-nil : (p q : Text) → p ++ b'/' ∷ q ≢ []
append-ne-nil [] q = cc
append-ne-nil (c ∷ p) q = cc

root-ne-nil : (ps : List Text) (s : Text) → join b'/' (source_set_of ps s) ≢ []
unfolding join
root-ne-nil [] s = cc
root-ne-nil (p ∷ ps) s =
    λ e. append-ne-nil p _ (sym (join-cons b'/' p (source_set_of ps s) (behind ps)) ∙ e)
  where
    behind : (qs : List Text) → source_set_of qs s ≢ []
    behind [] = cc
    behind (q ∷ qs) = cc

same-no : (a b : Text) → a ≢ b → is_text a b ≡ false
same-no a b n = elim (text_dec a b) as (λ d. is_yes d ≡ false) [
  | yes e ↦ absurd (n e)
  | no m ↦ refl
]

same-yes : (a b : Text) → a ≡ b → is_text a b ≡ true
same-yes a b e = elim (text_dec a b) as (λ d. is_yes d ≡ true) [
  | yes m ↦ refl
  | no n ↦ absurd (n e)
]

resources_below :
    (c : Config) (rel : Text)
    → c.sourceset_root ≢ []
    → rel ≡ c.sourceset_root ++ codes "/" ++ codes "resources"
    → c.generate_resources ≡ true
    → is_resources_root c rel ≡ true
unfolding is_resources_root join_path
resources_below c rel n e g =
    let empty = same-no c.sourceset_root [] n in
    rw (g, empty) (same-yes rel (c.sourceset_root ++ codes "/" ++ codes "resources") e)

-- A directory `src/s/resources`, wherever it lies, is taken for the root of resources by generation when it has no
-- setting of its own and resources are generated: the root of its source set is the directory above it.
pub detect_source_set-resources :
    (c : Config) (rel : Text) (ps : List Text) (s : Text)
    → split b'/' rel ≡ source_set_of ps s ++ codes "resources" ∷ []
    → c.generate_resources ≡ true
    → ((detect_source_set rel (new_child c)).sourceset_root ≡ join b'/' (source_set_of ps s))
      × (is_resources_root (detect_source_set rel (new_child c)) rel ≡ true)
unfolding set_source_set new_child
detect_source_set-resources c rel ps s e g =
    let segments : List Text = source_set_of ps s in
    let d : detect_source_set rel (new_child c) ≡ set_source_set (new_child c) segments =
      detected c rel segments (ap (λ z. source_set (reverse z)) e ∙ found ps s) in
    let below : rel ≡ join b'/' segments ++ codes "/" ++ codes "resources" =
      sym (join-split b'/' rel)
      ∙ ap (join b'/') e
      ∙ join-append b'/' segments (codes "resources" ∷ [])
          (λ z. root-ne-nil ps s (ap (join b'/') z)) (cc)
      ∙ sym (append_assoc (join b'/' segments) (codes "/") (codes "resources")) in
    (
      ap (λ (k : Config). k.sourceset_root) d,
      ap (λ (k : Config). is_resources_root k rel) d
          ∙ resources_below (set_source_set (new_child c) segments) rel (root-ne-nil ps s) below g,
    )
