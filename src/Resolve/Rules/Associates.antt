-- ===== src/Resolve/Rules/Associates.antt =====
-- How dependencies of Kotlin rules become associates (java/gazelle/resolve.go,
-- java/gazelle/resolve_associates.go).

use rules_jvm.Prelude.{
  ◌≡◌, ◌≢◌, ◌⊎◌, ◌↔◌, inl, inr, refl, ◌∙◌, ite, Bool, true, false, not, none, some, List, [], ◌∷◌,
  map, Text, codes, text_dec, lookup, lookup-put, Memᴰ, Memᴰ-cons, not-Memᴰ-nil, any, keep, arith,
  Bool-cases,
}
use rules_jvm.Labels.{Label, LabelLib}
use rules_jvm.Resolve.Labels.{Rule, same_text, attr_strings, set_attr, del_attr, remove}
use rules_jvm.Resolve.Rules.{
  associates, deps, slash, underscored, write_kept, write_module, drop_from_deps, is_module_library,
  populate_production_associates_attr, write_associates,
}

mem-keep :
    {A : Type 0} (p : A → Bool) (xs : List A) (y : A)
    → Memᴰ y (keep p xs) ↔ (Memᴰ y xs × (p y ≡ true))
unfolding keep
mem-keep p [] y = ground (arith, not-Memᴰ-nil y)
mem-keep p (x ∷ xs) y = ground (arith, mem-keep p xs y, Memᴰ-cons y x xs, Memᴰ-cons y x (keep p xs))

lookup-remove :
    (k j : Text) (m : List (Text × List Text))
    → lookup text_dec j (remove k m) ≡ ite (text_dec k j) none (lookup text_dec j m)
unfolding lookup remove
lookup-remove k j [] = ground arith
lookup-remove k j ((i, v) ∷ m) = ground (arith, lookup-remove k j m)

attr_strings-set_attr :
    (r : Rule) (k j : Text) (v : List Text)
    → attr_strings (set_attr k v r) j ≡ ite (text_dec k j) v (attr_strings r j)
unfolding attr_strings set_attr
attr_strings-set_attr r k j v = ground (arith, lookup-put text_dec k j v r.attrs)

attr_strings-del_attr :
    (r : Rule) (k j : Text)
    → attr_strings (del_attr k r) j ≡ ite (text_dec k j) [] (attr_strings r j)
unfolding attr_strings del_attr
attr_strings-del_attr r k j = ground (arith, lookup-remove k j r.attrs)

write_kept-deps : (kept : List Text) (r : Rule) → attr_strings (write_kept kept r) deps ≡ kept
unfolding write_kept
write_kept-deps [] r = attr_strings-del_attr r deps deps
write_kept-deps (k ∷ ks) r = attr_strings-set_attr r deps deps (k ∷ ks)

write_kept-associates :
    (kept : List Text) (r : Rule)
    → attr_strings (write_kept kept r) associates ≡ attr_strings r associates
unfolding write_kept
write_kept-associates [] r = attr_strings-del_attr r deps associates
write_kept-associates (k ∷ ks) r = attr_strings-set_attr r deps associates (k ∷ ks)

write_kept_module : (kept : List Text) (r : Rule) → (write_kept kept r).module_name ≡ r.module_name
unfolding write_kept set_attr del_attr
write_kept_module [] r = refl
write_kept_module (k ∷ ks) r = refl

keep_none :
    (p : Text → Bool) (xs : List Text) → keep p xs ≡ [] → (y : Text) → Memᴰ y xs → p y ≡ false
keep_none p xs e y h = elim (Bool-cases (p y)) [
  | inl t ↦ absurd (ground (arith, mem-keep p xs y, not-Memᴰ-nil y))
  | inr f ↦ f
]

write_module-associates :
    (from : Label) (fs kept : List Text) (r : Rule)
    → attr_strings (write_module from fs kept r) associates ≡ fs
unfolding write_module attr_strings
write_module-associates from [] kept r = attr_strings-del_attr r associates associates
write_module-associates from (f ∷ fs) kept r = ground (
  arith,
  write_kept-associates kept (record (set_attr associates (f ∷ fs) r) { module_name = none }),
  attr_strings-set_attr r associates associates (f ∷ fs),
)

write_module-deps :
    (from : Label) (fs kept : List Text) (r : Rule)
    → attr_strings (write_module from fs kept r) deps
      ≡ elim fs [ [] ↦ attr_strings r deps | _ ∷ _ ↦ kept ]
unfolding write_module attr_strings
write_module-deps from [] kept r = attr_strings-del_attr r associates deps
write_module-deps from (f ∷ fs) kept r =
    write_kept-deps kept (record (set_attr associates (f ∷ fs) r) { module_name = none })

-- A rule has associates or the name of its module.
pub IsOneModule : Text → Rule → Type 0
IsOneModule name r =
    ((r.module_name ≡ none) × (attr_strings r associates ≢ []))
    ⊎ ((r.module_name ≡ some name) × (attr_strings r associates ≡ []))

write_module-IsOneModule :
    (from : Label) (fs kept : List Text) (r : Rule)
    → IsOneModule (underscored (slash ∷ []) from.pkg) (write_module from fs kept r)
unfolding write_module IsOneModule attr_strings
write_module-IsOneModule from [] kept r = inr (refl, attr_strings-del_attr r associates associates)
write_module-IsOneModule from (f ∷ fs) kept r = inl (
  write_kept_module kept (record (set_attr associates (f ∷ fs) r) { module_name = none }),
  ground (arith, write_module-associates from (f ∷ fs) kept r, write_module),
)

kept_deps :
    (friend : Text → Bool) (old : List Text) (s : Text) (fs : List Text)
    → keep friend old ≡ fs
    → Memᴰ s (elim fs [ [] ↦ old | _ ∷ _ ↦ keep (λ d. not (friend d)) old ])
      ↔ (Memᴰ s old × (friend s ≡ false))
kept_deps friend old s [] e = (λ m. (m, keep_none friend old e s m), λ (m, _). m)
kept_deps friend old s (f ∷ fs) e = ground (arith, mem-keep (λ d. not (friend d)) old s)

any-Memᴰ : (xs : List Text) (s : Text) → (any (λ a. same_text a s) xs ≡ true) ↔ Memᴰ s xs
unfolding any
any-Memᴰ [] s = ground (arith, not-Memᴰ-nil s)
any-Memᴰ (x ∷ xs) s = ground (arith, any-Memᴰ xs s, Memᴰ-cons s x xs)

abbrev not_in : List Text → Text → Bool
not_in set x = not (any (λ a. same_text a x) set)

not_in-Memᴰ :
    (set old : List Text) (s : Text) → Memᴰ s (keep (not_in set) old) ↔ (Memᴰ s old × ¬ Memᴰ s set)
not_in-Memᴰ set old s = ground (arith, mem-keep (not_in set) old s, any-Memᴰ set s)

drop_from_deps-associates :
    (set old : List Text) (r : Rule)
    → attr_strings (drop_from_deps set old r) associates ≡ attr_strings r associates
unfolding drop_from_deps
drop_from_deps-associates set [] r = refl
drop_from_deps-associates set (d ∷ ds) r = write_kept-associates (keep (not_in set) (d ∷ ds)) r

drop_from_deps-deps :
    (set old : List Text) (r : Rule)
    → attr_strings r deps ≡ old
    → attr_strings (drop_from_deps set old r) deps ≡ keep (not_in set) old
unfolding drop_from_deps keep
drop_from_deps-deps set [] r e = e
drop_from_deps-deps set (d ∷ ds) r e = write_kept-deps (keep (not_in set) (d ∷ ds)) r

module _ (lib : LabelLib) (abs : Label → Text → Text → Label) where
  -- With the granularity scc, a Kotlin rule that is no test ends with associates or with the name of its
  -- module, never both. Its associates are those of its dependencies that are Kotlin libraries of the same
  -- Bazel package, and the others stay its dependencies.
  pub production_associates-split :
      (kotlin_libraries : List Text) (from : Label) (r : Rule)
      → IsOneModule
          (underscored (slash ∷ []) from.pkg)
          (populate_production_associates_attr lib abs (codes "scc") kotlin_libraries from r)
        × ((s : Text)
            → (Memᴰ s (
                  attr_strings
                    (populate_production_associates_attr lib abs
                      (codes "scc")
                      kotlin_libraries
                      from
                      r)
                    associates)
                ↔ (Memᴰ s (attr_strings r deps)
                    × (is_module_library lib abs kotlin_libraries from s ≡ true)))
              × (Memᴰ s (
                    attr_strings
                      (populate_production_associates_attr lib abs
                        (codes "scc")
                        kotlin_libraries
                        from
                        r)
                      deps)
                  ↔ (Memᴰ s (attr_strings r deps)
                      × (is_module_library lib abs kotlin_libraries from s ≡ false))))
  unfolding populate_production_associates_attr
  production_associates-split kotlin_libraries from r =
      (write_module-IsOneModule from fs ks r, λ s. (in_associates s, in_deps s))
    where
      friend : Text → Bool
      friend = is_module_library lib abs kotlin_libraries from

      old : List Text
      old = attr_strings r deps

      fs : List Text
      fs = keep friend old

      ks : List Text
      ks = keep (λ d. not (friend d)) old

      in_associates :
          (s : Text)
          → Memᴰ s (attr_strings (write_module from fs ks r) associates)
            ↔ (Memᴰ s old × (friend s ≡ true))
      in_associates s = rw (write_module-associates from fs ks r) (mem-keep friend old s)

      in_deps :
          (s : Text)
          → Memᴰ s (attr_strings (write_module from fs ks r) deps)
            ↔ (Memᴰ s old × (friend s ≡ false))
      in_deps s = rw (write_module-deps from fs ks r) (kept_deps friend old s fs refl)

  -- A Kotlin test with a counterpart: its associates are the counterparts, and it keeps the dependencies
  -- that are none of them.
  pub write_associates-split :
      (l : Label) (ls : List Label) (r : Rule)
      → (attr_strings (write_associates lib abs (l ∷ ls) r) associates ≡ map lib.to_string (l ∷ ls))
        × ((s : Text)
            → Memᴰ s (attr_strings (write_associates lib abs (l ∷ ls) r) deps) ↔ (
                Memᴰ s (attr_strings r deps)
                × ¬ Memᴰ s (attr_strings (write_associates lib abs (l ∷ ls) r) associates)))
  unfolding write_associates text_dec
  write_associates-split l ls r =
      (in_associates, λ s. rw (in_associates, in_deps) (not_in-Memᴰ set old s))
    where
      set : List Text
      set = map lib.to_string (l ∷ ls)

      old : List Text
      old = attr_strings r deps

      in_associates :
          attr_strings (drop_from_deps set old (set_attr associates set r)) associates ≡ set
      in_associates =
          drop_from_deps-associates set old (set_attr associates set r)
          ∙ attr_strings-set_attr r associates associates set

      in_deps :
          attr_strings (drop_from_deps set old (set_attr associates set r)) deps
          ≡ keep (not_in set) old
      in_deps =
          drop_from_deps-deps set old (set_attr associates set r)
            (attr_strings-set_attr r associates deps set)
