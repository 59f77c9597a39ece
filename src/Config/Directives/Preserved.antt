-- ===== src/Config/Directives/Preserved.antt =====
-- What the directives of java/gazelle/configure.go keep.
use rules_jvm.Prelude.{
  ℕ, ◌≡◌, sym, subst, ◌∙◌, inl, inr, refl, Bool, true, false, Option, none, some, List, [], ◌∷◌,
  Text, codes, String, arith, Option-cases, Bool-cases, if◌then◌else◌, ◌>>=◌, ◌||◌, split,
}
use rules_jvm.Config.{
  Config, Shared, is_text, module_text, package_text, scc_text, set_module_granularity,
  set_test_mode, set_java_test_file_suffixes, add_excluded_artifact,
  add_annotation_processor_plugin, add_annotation_processor_extra_import,
  set_library_naming_convention, set_test_suite_naming_convention, equal_string_slices,
}
use rules_jvm.Config.Directives.{Directive, apply_own, apply_resolve, apply, apply_all}

-- The values that the program understands: both naming conventions are not empty.
abbrev pub IsValid : Config → Type 0
IsValid c =
    ((is_text c.module_granularity module_text
        || is_text c.module_granularity package_text
        || is_text c.module_granularity scc_text)
      ≡ true)
    × ((is_text c.test_mode (codes "file") || is_text c.test_mode (codes "suite")) ≡ true)
    × (is_text c.library_naming_convention [] ≡ false)
    × (is_text c.test_suite_naming_convention [] ≡ false)

-- The run has ended, or the configuration is valid.
abbrev IsFine : Option Config → Type 0
IsFine none = Unit {0}
IsFine (some c) = IsValid c

record Fine (o : Option Config) : Type 0 where
  is_fine : IsFine o

same_value : {A : Type 0} (x y : A) → some x ≡ some y → x ≡ y
same_value x y p = cc

Fine-if : (b : Bool) (x y : Option Config) → Fine x → Fine y → Fine (if b then x else y)
Fine-if true x y p q = record { is_fine = p.is_fine }
Fine-if false x y p q = record { is_fine = q.is_fine }

Fine-bind :
    {A : Type 0} (o : Option A) (f : A → Config)
    → ((a : A) → IsValid (f a))
    → Fine (o >>= (λ a. some (f a)))
Fine-bind none f h = record { is_fine = tt }
Fine-bind (some a) f h = record { is_fine = h a }

Fine-some : (c : Config) → IsValid c → Fine (some c)
Fine-some c h = record { is_fine = h }

Fine-none : Fine none
Fine-none = record { is_fine = tt }

set_module_granularity-Fine :
    (parent : Option Config) (g : Text) (c : Config)
    → IsValid c
    → Fine (set_module_granularity parent g c)
unfolding set_module_granularity
set_module_granularity-Fine parent g c h =
    elim (Bool-cases (is_text g module_text || is_text g package_text || is_text g scc_text)) [
      | inl ok ↦ rw ok (Fine-some _ (ok, h.1, h.2, h.3))
      | inr bad ↦ rw bad Fine-none
    ]

set_test_mode-Fine :
    (m : Text) (c : Config)
    → IsValid c
    → Fine (elim (set_test_mode m c) [ none ↦ some c | some c' ↦ some c' ])
unfolding set_test_mode
set_test_mode-Fine m c h =
    elim (Bool-cases (is_text m (codes "file") || is_text m (codes "suite"))) [
      | inl ok ↦ rw ok (Fine-some _ (h.0, ok, h.2, h.3))
      | inr bad ↦ rw bad (Fine-some _ h)
    ]

set_java_test_file_suffixes-IsValid :
    (defaults : List Text) (s : Text) (c : Config)
    → IsValid c
    → IsValid (set_java_test_file_suffixes defaults s c)
unfolding set_java_test_file_suffixes
set_java_test_file_suffixes-IsValid defaults s c h =
    elim (Bool-cases (equal_string_slices (split b',' s) defaults)) [
      | inl e ↦ rw e h
      | inr e ↦ rw e h
    ]

set_library_naming_convention-Fine :
    (s : Text) (c : Config) → IsValid c → Fine (set_library_naming_convention s c)
unfolding set_library_naming_convention
set_library_naming_convention-Fine s c h = elim (Bool-cases (is_text s [])) [
  | inl e ↦ rw e Fine-none
  | inr e ↦ rw e (Fine-some _ (h.0, h.1, e, h.3))
]

set_test_suite_naming_convention-Fine :
    (s : Text) (c : Config) → IsValid c → Fine (set_test_suite_naming_convention s c)
unfolding set_test_suite_naming_convention
set_test_suite_naming_convention-Fine s c h = elim (Bool-cases (is_text s [])) [
  | inl e ↦ rw e Fine-none
  | inr e ↦ rw e (Fine-some _ (h.0, h.1, h.2, e))
]

module _ (is_upper is_space : ℕ → Bool) where
  apply_own-Fine :
      (defaults : List Text) (parent : Option Config) (d : Directive) (c : Config)
      → IsValid c
      → Fine (apply_own is_upper is_space defaults parent d c)
  unfolding apply_own add_excluded_artifact add_annotation_processor_plugin
      add_annotation_processor_extra_import
  apply_own-Fine defaults parent d c h =
      let key = λ (w : String). is_text d.key (codes w) in
      Fine-if (key "java_exclude_artifact") _ _ (Fine-some _ h) (
        Fine-if (key "java_extension") _ _ (Fine-bind _ _ (λ b. h)) (
          Fine-if (key "java_maven_install_file") _ _ (Fine-some _ h) (
            Fine-if (key "maven_index_file") _ _ (Fine-some _ h) (
              Fine-if (key "java_module_granularity") _ _
                (set_module_granularity-Fine parent d.value c h)
                (Fine-if (key "java_test_file_suffixes") _ _
                  (Fine-some _ (set_java_test_file_suffixes-IsValid defaults d.value c h))
                  (Fine-if (key "java_test_mode") _ _ (set_test_mode-Fine d.value c h) (
                    Fine-if (key "java_maven_repository_name") _ _ (Fine-some _ h) (
                      Fine-if (key "java_generate_proto") _ _ (Fine-bind _ _ (λ b. h)) (
                        Fine-if (key "java_generate_proto_services") _ _ (Fine-bind _ _ (λ b. h)) (
                          Fine-if (key "java_generate_binary") _ _ (Fine-bind _ _ (λ b. h)) (
                            Fine-if (key "java_generate_resources") _ _ (Fine-bind _ _ (λ b. h)) (
                              Fine-if (key "java_annotation_processor_plugin") _ _
                                (Fine-bind _ _ (λ p. h))
                                (Fine-if (key "java_annotation_processor_extra_imports") _ _
                                  (Fine-bind _ _ (λ p. h))
                                  (Fine-if (key "java_sourceset_root") _ _ (Fine-some _ h) (
                                    Fine-if (key "java_strip_resources_prefix") _ _ (Fine-some _ h)
                                      (Fine-if (key "jvm_kotlin_enabled") _ _
                                        (Fine-bind _ _ (λ b. h))
                                        (Fine-if (key "java_testonly") _ _ (Fine-bind _ _ (λ b. h))
                                          (Fine-if (key "java_library_naming_convention") _ _
                                            (set_library_naming_convention-Fine d.value c h)
                                            (Fine-if (key "java_test_suite_naming_convention") _ _
                                              (set_test_suite_naming_convention-Fine d.value c h)
                                              (Fine-some _ h))))))))))))))))))))

  abbrev Kept : {Expr : Type 0} → Text → Shared Expr → (Config × Shared Expr) → Type 0
  Kept rel s t = IsValid t.0 × (is_text rel [] ≡ false → t.1 ≡ s)

  apply_resolve-below :
      {Expr : Type 0} (rel value : Text) (s : Shared Expr)
      → is_text rel [] ≡ false
      → apply_resolve is_upper is_space rel value s ≡ none
  unfolding apply_resolve
  apply_resolve-below rel value s h = ground arith

  apply-Kept :
      {Expr : Type 0} (defaults : List Text) (rel : Text) (parent : Option Config) (d : Directive)
      (c : Config) (s : Shared Expr) (t : Config × Shared Expr)
      → IsValid c
      → apply is_upper is_space defaults rel parent d (c, s) ≡ some t
      → Kept rel s t
  unfolding apply
  apply-Kept defaults rel parent d c s t h e =
      elim (Bool-cases (is_text d.key (codes "java_resolve_to_java_exports"))) [
        | inl k ↦ elim (Option-cases (apply_resolve is_upper is_space rel d.value s)) [
          | inl bad ↦ absurd (ground arith)
          | inr (s', r) ↦
              subst (Kept rel s) (same_value (c, s') t (ground arith))
                (h, λ below. absurd (clash s' (sym (apply_resolve-below rel d.value s below) ∙ r)))
        ]
        | inr k ↦ elim (Option-cases (apply_own is_upper is_space defaults parent d c)) [
          | inl bad ↦ absurd (ground arith)
          | inr (c', r) ↦
              subst (Kept rel s) (same_value (c', s) t (ground arith))
                ((subst Fine r (apply_own-Fine defaults parent d c h)).is_fine, λ _. refl)
        ]
      ]
    where
      clash : {A : Type 0} (x : A) → ¬ (none ≡ some x)
      clash x = cc

  -- If the directives of a directory do not end the run, a valid configuration stays valid, and outside the
  -- root of the repository the state that all configurations share is as before.
  pub apply_all-kept :
      {Expr : Type 0} (defaults : List Text) (rel : Text) (parent : Option Config)
      (ds : List Directive) (c c' : Config) (s s' : Shared Expr)
      → IsValid c
      → apply_all is_upper is_space defaults rel parent ds (c, s) ≡ some (c', s')
      → IsValid c' × (is_text rel [] ≡ false → s' ≡ s)
  unfolding apply_all
  apply_all-kept defaults rel parent [] c c' s s' h e =
      subst (Kept rel s) (same_value (c, s) (c', s') e) (h, λ _. refl)
  apply_all-kept defaults rel parent (d ∷ ds) c c' s s' h e =
      elim (Option-cases (apply is_upper is_space defaults rel parent d (c, s))) [
        | inl bad ↦ absurd (ground arith)
        | inr (t, r) ↦
            let (v, kept) = apply-Kept defaults rel parent d c s t h r in
            let (v', kept') =
              apply_all-kept defaults rel parent ds t.0 c' t.1 s' v (ground arith) in
            (v', λ below. kept' below ∙ kept below)
      ]
