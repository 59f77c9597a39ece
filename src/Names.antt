-- ===== src/Names.antt =====
-- The names of Java packages and classes (java/gazelle/private/types/types.go). `Parse` and `Resolvable`
-- prove the round trips of the two parsers, and `Late` is the late value of that file.
pub mod Late
pub mod Parse
pub mod Resolvable
use rules_jvm.Prelude.{
  ℕ, suc, ◌-◌, ◌<◌, ◌≡◌, refl, ap₂, ◌≢◌, ite, Bool, true, false, ◌&&◌, ◌||◌, Option, none, some,
  List, [], ◌∷◌, ◌++◌, arith, Text, codes, text_dec, text_less, has_prefix, split, join, length,
  get_or, take, drop, ltb, if◌then◌else◌, is_yes,
}
use mathlib.Core.List.{reverse}

abbrev pub dot : ℕ
dot = b'.'

abbrev pub bang : ℕ
bang = b'!'

pub record PackageName : Type 0 where
  pub name : Text

abbrev pub new_package_name : Text → PackageName
new_package_name s = record { name = s }

unfoldable pub package_name_dec : Discrete PackageName
unfolding text_dec
package_name_dec p q = elim (text_dec p.name q.name) [
  | yes e ↦ yes (λ i. record { name = e i })
  | no n ↦ no (λ e. n (λ i. (e i).name))
]

unfoldable pub package_name_less : PackageName → PackageName → Bool
unfolding text_less
package_name_less l r = text_less l.name r.name

-- The prefix itself, or the prefix followed by a dot.
unfoldable pub package_names_has_prefix : PackageName → PackageName → Bool
unfolding has_prefix text_dec
package_names_has_prefix whole prefix =
    is_yes (text_dec whole.name prefix.name) || has_prefix whole.name (prefix.name ++ dot ∷ [])

pub record ClassName : Type 0 where
  pub package_name : PackageName
  pub bare_outer_class_name : Text
  pub inner_class_names : List Text

abbrev pub new_class_name : PackageName → Text → ClassName
new_class_name p outer = record {
  package_name = p;
  bare_outer_class_name = outer;
  inner_class_names = [];
}

-- The segments of a package name: none for the default package.
unfoldable pub package_parts : PackageName → List Text
unfolding split text_dec
package_parts p = ite (text_dec p.name []) [] (split dot p.name)

unfoldable pub fully_qualified_outer_class_name : ClassName → Text
unfolding package_parts join
fully_qualified_outer_class_name c =
    join dot (package_parts c.package_name ++ c.bare_outer_class_name ∷ [])

unfoldable pub fully_qualified_class_name : ClassName → Text
unfolding package_parts join
fully_qualified_class_name c =
    join dot (package_parts c.package_name ++ c.bare_outer_class_name ∷ c.inner_class_names)

unfoldable pub class_name_less : ClassName → ClassName → Bool
unfolding fully_qualified_class_name text_less
class_name_less l r = text_less (fully_qualified_class_name l) (fully_qualified_class_name r)

-- unicode.IsUpper is the parameter `is_upper`.
module _ (is_upper : ℕ → Bool) where
  -- The loop of `ParseClassName` over the parts from the last one on: the list holds the parts up to
  -- index i, the last first, and the number is `indexOfOuterClassName`. An empty part is skipped.
  unfoldable pub outer_index : List Text → ℕ → ℕ
  outer_index [] best = best
  outer_index ([] ∷ ps) best = outer_index ps best
  outer_index ((c ∷ _) ∷ ps) best =
      let rest = outer_index ps (length ps) in if is_upper c then rest else best

  unfoldable pub parse_class_name : Text → Option ClassName
  unfolding outer_index split join
  parse_class_name s =
      let parts = split dot s in
      if ltb 0 (length parts)
      then (let i = outer_index (reverse parts) (length parts - 1) in
          some (record {
            package_name = new_package_name (join dot (take i parts));
            bare_outer_class_name = get_or parts i [];
            inner_class_names = (if ltb i (length parts - 1) then drop (suc i) parts else []);
          }))
      else none
