-- ===== src/Examples/Resolution.antt =====
-- Runs and instances for the resolution of rules.
use rules_jvm.Prelude.{
  ℕ, ◌≡◌, ◌⊎◌, ◌↔◌, refl, sym, true, false, Option, none, some, [], ◌∷◌, ◌++◌, Memᴰ, Text, codes,
  ℕ_discrete, ◌≢◌, lookup, arith,
}
use rules_jvm.Names.{PackageName, ClassName, new_package_name, new_class_name}
use rules_jvm.Labels.{Label, LabelLib, Label-discrete}
use rules_jvm.ExportIndex.{JavaExportIndex, JavaExportResolveInfo, new_java_export_index}
use rules_jvm.Maven.Resolver.{empty_resolver}
use rules_jvm.Resolve.Labels.{Gazelle, Rule, attr_strings}
use rules_jvm.Resolve.Exports.{try_resolving_to_java_export}
use rules_jvm.Resolve.Exports.Boundary.{
  IsReady, owner, Verdict, try_resolving_to_java_export-boundaries,
}
use rules_jvm.Resolve.Package.{Lru, Context}
use rules_jvm.Resolve.Package.Cache.{new_state, resolve_row, row_without_cache, resolve_row-cache}
use rules_jvm.Resolve.Classes.{ClassExportCache, class_index_of, candidates_of}
use rules_jvm.Resolve.Classes.Providers.{Provides, mem-candidates_of}
use rules_jvm.Resolve.Rules.{
  associates, deps, slash, underscored, is_module_library, populate_production_associates_attr,
}
use rules_jvm.Resolve.Rules.Associates.{IsOneModule, production_associates-split}

-- Labels that print as their repository, package and name.
abbrev pub labels : LabelLib
labels = record {
  new = λ r p n. record { repo = r; pkg = p; name = n; relative = false };
  to_string = λ l. l.repo ++ b'@' ∷ l.pkg ++ b':' ∷ l.name;
  parse = λ t. some (record { repo = []; pkg = codes "app"; name = t; relative = true });
  new_lem = λ r p n. refl;
}

abbrev label_in : Text → Text → Label
label_in p n = record { repo = []; pkg = p; name = n; relative = false }

abbrev app : Label
app = label_in (codes "app") (codes "app")

abbrev lib_one : Label
lib_one = label_in (codes "lib") (codes "one")

abbrev lib_two : Label
lib_two = label_in (codes "lib") (codes "two")

abbrev export : Label
export = label_in (codes "lib") (codes "export")

abbrev export_info : JavaExportResolveInfo
export_info = record {
  label = export;
  direct_dependencies = (lib_one, tt) ∷ [];
  internal_visibility = [];
}

-- An index in which an export took one rule over.
abbrev exported : JavaExportIndex
exported = record new_java_export_index {
  ready_for_resolve = true;
  java_exports = (export, export_info) ∷ [];
  label_to_java_export = (lib_one, export) ∷ [];
}

exported-IsReady : IsReady exported
exported-IsReady = record {
  ready = refl;
  recorded = λ l e h. (
    export_info,
    found e (unfold owner lookup in ground arith),
    unfold owner lookup in ground arith,
  );
}
  where
    found :
        (e : Label) → export ≡ e → lookup Label-discrete e exported.java_exports ≡ some export_info
    found e h = unfold lookup in ground arith

try_resolving_to_java_export-boundaries_example :
    Verdict exported app
      (lib_one ∷ lib_two ∷ [])
      (try_resolving_to_java_export exported (lib_one ∷ lib_two ∷ []) app)
try_resolving_to_java_export-boundaries_example =
    try_resolving_to_java_export-boundaries exported exported-IsReady (lib_one ∷ lib_two ∷ []) app

abbrev stored : (ℕ → Option Label) → ℕ → Label → ℕ → Option Label
stored c j v k = elim (ℕ_discrete j k) [ yes _ ↦ some v | no _ ↦ c k ]

small_cache-add :
    (c : ℕ → Option Label) (j k : ℕ) (v : Label) → k ≢ j → c k ≡ none → stored c j v k ≡ none
small_cache-add c j k v n h = go (ℕ_discrete j k)
  where
    go : (d : Dec (j ≡ k)) → elim d [ yes _ ↦ some v | no _ ↦ c k ] ≡ none
    go (yes p) = absurd (n (sym p))
    go (no q) = h

-- A cache that never drops a value.
abbrev small_cache : Lru
small_cache = record {
  Cache = ℕ → Option Label;
  new = λ k. none;
  get = λ c k. (c k, c);
  add = stored;
  get-new = λ k. refl;
  get-add = small_cache-add;
  get-get = λ c j k h. h;
}

abbrev util : PackageName
util = new_package_name (codes "com.example.util")

abbrev helper : ClassName
helper = new_class_name util (codes "Helper")

-- Two rules provide each package.
abbrev two_providers : Gazelle
two_providers = record {
  override = λ imp. none;
  rules_by_import = λ imp. lib_one ∷ lib_two ∷ [];
  repo_name = [];
}

abbrev context : Context
context = record {
  gazelle = two_providers;
  index = exported;
  maven = empty_resolver;
  resolve_to_java_exports = false;
  excluded_artifacts = [];
  maven_repository_name = codes "maven";
  from = app;
  is_test_rule = false;
  own_package_names = [];
}

resolve_row-cache_example :
    resolve_row labels small_cache
      ((context, util, []) ∷ (context, util, []) ∷ [])
      (new_state labels small_cache)
    ≡ row_without_cache labels small_cache ((context, util, []) ∷ (context, util, []) ∷ [])
resolve_row-cache_example =
    resolve_row-cache labels small_cache ((context, util, []) ∷ (context, util, []) ∷ [])

abbrev class_exports : ClassExportCache
class_exports = (codes "@lib:one", record { classes = helper ∷ []; testonly = false }) ∷ []

mem-candidates_of_example :
    Memᴰ lib_one (
      candidates_of labels false
        (codes "Helper")
        (class_index_of labels context class_exports util))
    ↔ (Memᴰ lib_one (lib_one ∷ lib_two ∷ lib_one ∷ lib_two ∷ [])
        × (Provides labels class_exports util (codes "Helper") false lib_one
            ⊎ ((false ≡ true) × Provides labels class_exports util (codes "Helper") true lib_one)))
mem-candidates_of_example =
    mem-candidates_of labels context class_exports util (codes "Helper") false lib_one

-- A Kotlin rule with a library of its module and another one.
abbrev rule : Rule
rule = record {
  name = codes "app";
  kind = codes "kt_jvm_library";
  attrs = (deps, codes "core" ∷ codes "//lib" ∷ []) ∷ [];
  module_name = none;
}

abbrev absolute : Label → Text → Text → Label
absolute l repo pkg = record l { repo = repo; pkg = pkg; relative = false }

abbrev split_rule : Rule
split_rule =
    populate_production_associates_attr labels absolute (codes "scc") (codes "@app:core" ∷ []) app
      rule

production_associates-split_example :
    IsOneModule (underscored (slash ∷ []) (codes "app")) split_rule
    × ((s : Text)
        → (Memᴰ s (attr_strings split_rule associates) ↔ (
            Memᴰ s (attr_strings rule deps)
            × (is_module_library labels absolute (codes "@app:core" ∷ []) app s ≡ true)))
          × (Memᴰ s (attr_strings split_rule deps) ↔ (
              Memᴰ s (attr_strings rule deps)
              × (is_module_library labels absolute (codes "@app:core" ∷ []) app s ≡ false))))
production_associates-split_example =
    production_associates-split labels absolute (codes "@app:core" ∷ []) app rule
