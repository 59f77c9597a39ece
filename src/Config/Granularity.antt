-- ===== src/Config/Granularity.antt =====
-- Which directories are the roots of modules: `SetModuleGranularity` of
-- java/gazelle/javaconfig/config.go along a path of directories, each configured as the child of the one
-- above it, as java/gazelle/configure.go does.
use rules_jvm.Prelude.{
  ℕ, suc, ◌≡◌, refl, ◌⊎◌, inl, inr, Bool, true, false, Option, none, some, List, [], ◌∷◌, Text,
  text_dec, any, arith, if◌then◌else◌, All,
}
use rules_jvm.Config.{
  Config, new, new_child, module_text, package_text, scc_text, is_text, starts_module,
  set_module_granularity,
}

-- The directive of one directory, if it has one.
unfoldable pub configure : Option Config → Option Text → Config → Option Config
configure parent none c = some c
configure parent (some g) c = set_module_granularity parent g c

-- The configurations of the directories on a path, from the one whose configuration is `c`.
unfoldable pub descend : Option Config → Config → List (Option Text) → Option (List Config)
descend parent c [] = some []
descend parent c (g ∷ gs) = elim (configure parent g c) [
  | none ↦ none
  | some c' ↦ elim (descend (some c') (new_child c') gs) [ none ↦ none | some cs ↦ some (c' ∷ cs) ]
]

unfoldable pub count_roots : List Config → ℕ
count_roots [] = 0
count_roots (c ∷ cs) = let rest = count_roots cs in if c.is_module_root then suc rest else rest

-- A directory without a directive, or with one that aggregates.
abbrev pub IsAggregating : Option Text → Type 0
IsAggregating none = Unit {0}
IsAggregating (some g) = (g ≡ module_text) ⊎ (g ≡ scc_text)

unfoldable pub is_set : Option Text → Bool
is_set none = false
is_set (some _) = true

-- The state after a directive that aggregates.
abbrev aggregated : Option Config → Text → Config → Config
aggregated parent g c = record c {
  is_module_root = if starts_module parent then true else c.is_module_root;
  module_granularity = g;
}

set_module_granularity_lem :
    (parent : Option Config) (g : Text) (c : Config)
    → (g ≡ module_text) ⊎ (g ≡ scc_text)
    → (set_module_granularity parent g c ≡ some (aggregated parent g c))
      × (is_text g package_text ≡ false)
unfolding set_module_granularity text_dec
set_module_granularity_lem parent g c (inl e) = rw e (refl, refl)
set_module_granularity_lem parent g c (inr e) = rw e (refl, refl)

-- Below a directory that aggregates.
descend-below :
    (parent c : Config) (gs : List (Option Text))
    → is_text parent.module_granularity package_text ≡ false
    → is_text c.module_granularity package_text ≡ false
    → c.is_module_root ≡ false
    → All IsAggregating gs
    → (cs : List Config) × (descend (some parent) c gs ≡ some cs) × (count_roots cs ≡ 0)
unfolding descend count_roots configure starts_module new_child
descend-below parent c [] hp hc hr h = ([], refl, refl)
descend-below parent c (none ∷ gs) hp hc hr h =
    let (cs, e, z) = descend-below c (new_child c) gs hc hc refl h.1 in
    (c ∷ cs, ground arith, ground arith)
descend-below parent c (some g ∷ gs) hp hc hr h =
    let (s, n) = set_module_granularity_lem (some parent) g c h.0 in
    let c' = aggregated (some parent) g c in
    let (cs, e, z) = descend-below c' (new_child c') gs n n refl h.1 in
    (c' ∷ cs, ground arith, ground arith)

descend-above :
    (parent : Option Config) (c : Config) (gs : List (Option Text))
    → starts_module parent ≡ true
    → is_text c.module_granularity package_text ≡ true
    → c.is_module_root ≡ false
    → All IsAggregating gs
    → (cs : List Config) × (descend parent c gs ≡ some cs)
      × (count_roots cs ≡ (if any is_set gs then 1 else 0))
unfolding descend count_roots configure starts_module new_child any is_set
descend-above parent c [] hp hc hr h = ([], refl, refl)
descend-above parent c (none ∷ gs) hp hc hr h =
    let (cs, e, z) = descend-above (some c) (new_child c) gs hc hc refl h.1 in
    (c ∷ cs, ground arith, ground arith)
descend-above parent c (some g ∷ gs) hp hc hr h =
    let (s, n) = set_module_granularity_lem parent g c h.0 in
    let c' = aggregated parent g c in
    let (cs, e, z) = descend-below c' (new_child c') gs n n refl h.1 in
    (c' ∷ cs, ground arith, ground arith)

-- On a path of directories from the repository's root whose directives, if they have one, are `module` or
-- `scc`, no directive is refused, and exactly one directory is the root of a module if there is a
-- directive at all, and none otherwise.
pub descend_roots :
    (root : Text) (gs : List (Option Text))
    → All IsAggregating gs
    → (cs : List Config) × (descend none (new root) gs ≡ some cs)
      × (count_roots cs ≡ (if any is_set gs then 1 else 0))
unfolding new starts_module text_dec
descend_roots root gs h = descend-above none (new root) gs refl refl refl h
