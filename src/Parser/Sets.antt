-- ===== src/Parser/Sets.antt =====
-- The sets of a parsed package (java/gazelle/private/javaparser/javaparser.go).
use rules_jvm.Prelude.{
  mem-keys-put, ℕ, ◌≡◌, refl, ap, ◌∙◌, Bool, false, none, some, List, [], ◌∷◌, map, Text, text_less,
  All, has_prefix, put, text_dec, keys, Memᴰ, Memᴰ-cons, not-Memᴰ-nil, ◌↔◌, ◌⊎◌, arith,
}
use rules_jvm.Names.{
  PackageName, ClassName, dot, parse_class_name, fully_qualified_class_name, class_name_less,
  package_name_less, new_package_name,
}
use rules_jvm.Names.Parse.{parse_class_name_lem, fully_qualified_class_name-parse_absolute}
use rules_jvm.SortedSet.View.{place, place_all}
use rules_jvm.JavaPackage.{Package, PerClassMetadata}
use rules_jvm.TestPackages.{is_test_package}
use rules_jvm.Scc.{or_empty}
use rules_jvm.Parser.{
  ClassResponse, Response, responded, Failure, annotation, add_class, imports, exports, internal,
  declared, Outcome, failed, returned, ◌>>=◌, parse_classes, parse_annotations, parse_members,
  parse_class, parse_metadata, package_from, parse_package,
}

-- Putting a value at its place commutes with a map that the order goes along.
map-place :
    {A B : Type 0} (less : B → B → Bool) (f : A → B) (v : A) (xs : List A)
    → map f (place (λ a b. less (f a) (f b)) v xs) ≡ place less (f v) (map f xs)
unfolding place
map-place less f v [] = refl
map-place less f v (x ∷ xs) = ground (arith, map-place less f v xs)

map-place_all :
    {A B : Type 0} (less : B → B → Bool) (f : A → B) (vs xs : List A)
    → map f (place_all (λ a b. less (f a) (f b)) vs xs) ≡ place_all less (map f vs) (map f xs)
unfolding place_all
map-place_all less f [] xs = refl
map-place_all less f (v ∷ vs) xs =
    map-place_all less f vs _ ∙ ap (place_all less (map f vs)) (map-place less f v xs)

abbrev pub IsAbsolute : Text → Type 0
IsAbsolute t = has_prefix t (dot ∷ []) ≡ false

-- The names of classes in an answer do not start with a dot.
pub record IsAbsoluteResponse (r : Response) : Type 0 where
  pub imported : All IsAbsolute r.imported_classes
  pub exported : All IsAbsolute r.exported_classes
  pub internals : All IsAbsolute r.internal_classes
  pub declares : All IsAbsolute r.declared_classes

abbrev pub names : List ClassName → List Text
names cs = map fully_qualified_class_name cs

abbrev pub text_set : List Text → List Text
text_set ts = place_all text_less ts []

map-names :
    (ts : List Text)
    → map (λ (q : PackageName). q.name) (place_all package_name_less (map new_package_name ts) [])
      ≡ text_set ts
unfolding package_name_less
map-names ts =
    map-place_all text_less (λ (q : PackageName). q.name) (map new_package_name ts) []
    ∙ ap (λ z. place_all text_less z []) (back ts)
  where
    back : (us : List Text) → map (λ (q : PackageName). q.name) (map new_package_name us) ≡ us
    back [] = refl
    back (u ∷ us) = ap (λ z. u ∷ z) (back us)

-- The outcome is a value with the property.
abbrev pub Returns : {A : Type 0} → (A → Type 0) → Outcome A → Type 0
Returns {A} P o = (a : A) × (o ≡ returned a) × P a

Returns-bind :
    {A B : Type 0} (P : A → Type 0) (Q : B → Type 0) (o : Outcome A) (k : A → Outcome B)
    → Returns P o
    → ((a : A) → P a → Returns Q (k a))
    → Returns Q (o >>= k)
Returns-bind P Q o k (a, e, p) f = let (b, e', q) = f a p in (b, ap (λ z. z >>= k) e ∙ e', q)

abbrev Any : {A : Type 0} → A → Type 0
Any a = Unit {0}

module _ (is_upper : ℕ → Bool) where
  parses : (t : Text) → (c : ClassName) × (parse_class_name is_upper t ≡ some c)
  parses t = (_, parse_class_name_lem is_upper t)

  parse_classes-step :
      (failure : Text → Failure) (t : Text) (c : ClassName) (ts : List Text) (set : List ClassName)
      → parse_class_name is_upper t ≡ some c
      → parse_classes is_upper failure (t ∷ ts) set
        ≡ parse_classes is_upper failure ts (place class_name_less c set)
  unfolding parse_classes
  parse_classes-step failure t c ts set e =
      ap
        (λ o. elim o [
          | none ↦ failed (failure t)
          | some d ↦ parse_classes is_upper failure ts (place class_name_less d set)
        ])
        e

  -- The full names in the set are the texts.
  abbrev pub Holds : List Text → List Text → List ClassName → Type 0
  Holds ts before cs = map fully_qualified_class_name cs ≡ place_all text_less ts before

  parse_classes-set :
      (failure : Text → Failure) (ts : List Text) (set : List ClassName)
      → All IsAbsolute ts
      → Returns
          (Holds ts (map fully_qualified_class_name set))
          (parse_classes is_upper failure ts set)
  unfolding parse_classes place_all class_name_less
  parse_classes-set failure [] set h = (set, refl, refl)
  parse_classes-set failure (t ∷ ts) set h =
      let (c, e, same) = fully_qualified_class_name-parse_absolute is_upper t h.0 in
      let (cs, r, q) = parse_classes-set failure ts (place class_name_less c set) h.1 in
      let placed : map fully_qualified_class_name (place class_name_less c set)
          ≡ place text_less t (map fully_qualified_class_name set) =
        map-place text_less fully_qualified_class_name c set
        ∙ ap (λ z. place text_less z (map fully_qualified_class_name set)) same in
      (cs, parse_classes-step failure t c ts set e ∙ r, q ∙ ap (place_all text_less ts) placed)

  parse_classes-Returns :
      (failure : Text → Failure) (ts : List Text) (set : List ClassName)
      → Returns Any (parse_classes is_upper failure ts set)
  unfolding parse_classes
  parse_classes-Returns failure [] set = (set, refl, tt)
  parse_classes-Returns failure (t ∷ ts) set =
      let (c, e) = parses t in
      let (cs, r, _) = parse_classes-Returns failure ts (place class_name_less c set) in
      (cs, parse_classes-step failure t c ts set e ∙ r, tt)

  parse_annotations-Returns :
      (k member : Text) (ts : List Text) (m : List (Text × List ClassName))
      → Returns Any (parse_annotations is_upper k member ts m)
  unfolding parse_annotations
  parse_annotations-Returns k member [] m = (m, refl, tt)
  parse_annotations-Returns k member (t ∷ ts) m =
      let (c, e) = parses t in
      let (cs, r, _) = parse_annotations-Returns k member ts (add_class member c m) in
      (
        cs,
        ap
              (λ o. elim o [
                | none ↦ failed (annotation k t)
                | some d ↦ parse_annotations is_upper k member ts (add_class member d m)
              ])
              e
            ∙ r,
        tt,
      )

  parse_members-Returns :
      (k : Text) (members : List (Text × List Text)) (m : List (Text × List ClassName))
      → Returns Any (parse_members is_upper k members m)
  unfolding parse_members
  parse_members-Returns k [] m = (m, refl, tt)
  parse_members-Returns k ((member, ts) ∷ rest) m =
      Returns-bind Any Any _ _ (parse_annotations-Returns k member ts m)
        (λ m' _. parse_members-Returns k rest m')

  parse_class-Returns : (k : Text) (v : ClassResponse) → Returns Any (parse_class is_upper k v)
  unfolding parse_class
  parse_class-Returns k v =
      Returns-bind Any Any _ _ (parse_classes-Returns (annotation k) v.annotation_class_names [])
        (λ own _.
          Returns-bind Any Any _ _ (parse_members-Returns k v.per_method_metadata []) (λ methods _.
            Returns-bind Any Any _ _ (parse_members-Returns k v.per_field_metadata [])
              (λ fields _. (_, refl, tt))))

  -- Every class of the answer has its metadata, and no other.
  parse_metadata-keys :
      (vs : List (Text × ClassResponse)) (m : List (Text × PerClassMetadata))
      → Returns
          (λ m'. (k : Text) → Memᴰ k (keys m') ↔ (Memᴰ k (keys vs) ⊎ Memᴰ k (keys m)))
          (parse_metadata is_upper vs m)
  unfolding parse_metadata
  parse_metadata-keys [] m = (m, refl, λ k. ground (arith, not-Memᴰ-nil k))
  parse_metadata-keys ((k, v) ∷ rest) m =
      Returns-bind Any _ _ _ (parse_class-Returns k v) (λ metadata _.
        let (m', e, q) = parse_metadata-keys rest (put text_dec k metadata m) in
        (
          m',
          e,
          λ j. ground (arith, q j, mem-keys-put text_dec k j metadata m, Memᴰ-cons j k (keys rest)),
        ))

  module _ (to_lower : Text → Text) (rel : Text) (in_files : List Text) where
    -- What a package has of an answer.
    pub record Mirrors (r : Response) (p : Package) : Type 0 where
      pub same_name : p.name ≡ new_package_name r.name
      pub same_imported : names (or_empty p.imported_classes) ≡ text_set r.imported_classes
      pub same_exported : names p.exported_classes ≡ text_set r.exported_classes
      pub same_internal : names (or_empty p.internal_classes) ≡ text_set r.internal_classes
      pub same_declared : names p.declared_classes ≡ text_set r.declared_classes
      pub same_packages :
          map (λ (q : PackageName). q.name) (or_empty p.imported_packages_without_specific_classes)
          ≡ text_set r.imported_packages_without_specific_classes
      pub same_files : p.files ≡ text_set in_files
      pub same_classes :
          (k : Text) → Memᴰ k (keys p.per_class_metadata) ↔ Memᴰ k (keys r.per_class_metadata)
      pub is_test : p.test_package ≡ is_test_package to_lower rel

    -- An answer in which no name of a class starts with a dot is never refused. The full names of the imported, exported,
    -- internal and declared classes of the package are the texts of the answer, sorted and without duplicates, and so are
    -- the imported packages and the files of the request. The classes with metadata are those of the answer, and the
    -- package counts as one for tests by its directory.
    pub parse_package-Mirrors :
        (r : Response)
        → IsAbsoluteResponse r
        → Returns (Mirrors r) (parse_package is_upper to_lower rel in_files (responded r))
    unfolding parse_package package_from or_empty
    parse_package-Mirrors r h =
        Returns-bind _ _ _ _ (parse_metadata-keys r.per_class_metadata []) (λ metadata m.
          Returns-bind _ _ _ _ (parse_classes-set imports r.imported_classes [] h.imported)
            (λ imported i.
              Returns-bind _ _ _ _ (parse_classes-set exports r.exported_classes [] h.exported)
                (λ exported e.
                  Returns-bind _ _ _ _
                    (parse_classes-set internal r.internal_classes [] h.internals)
                    (λ internals n.
                      Returns-bind _ _ _ _
                        (parse_classes-set declared r.declared_classes [] h.declares)
                        (λ declares d. (
                          _,
                          refl,
                          record {
                            same_name = refl;
                            same_imported = i;
                            same_exported = e;
                            same_internal = n;
                            same_declared = d;
                            same_packages = map-names r.imported_packages_without_specific_classes;
                            same_files = refl;
                            same_classes = λ k. ground (arith, m k, not-Memᴰ-nil k);
                            is_test = refl;
                          },
                        ))))))
