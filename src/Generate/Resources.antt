-- ===== src/Generate/Resources.antt =====
-- Resource files of a directory and the rules for them: the part of `GenerateRules` for a root of resources, and
-- `collectResourceFilesRecursively` (java/gazelle/generate.go).
use rules_jvm.Prelude.{
  Bool, ◌||◌, not, List, [], ◌∷◌, ◌++◌, Text, codes, text_dec, text_less, if◌then◌else◌, keep,
}
use rules_jvm.Prelude.Sort.{sort, insert}
use rules_jvm.Config.{has_suffix}
use rules_jvm.ExportIndex.{ResolveInput}
use rules_jvm.Generate.Files.{same, base}
use rules_jvm.Generate.Libraries.{NewRule, Generation, list_attr, new_rule, input_of}
use rules_jvm.Generate.Modules.{join_path}

-- A directory as os.ReadDir shows it; one that cannot be read is empty.
mutual
  pub data Entry : Type 0 where
    file : Text → Entry
    dir : Text → Entries → Entry

  pub data Entries : Type 0 where
    no_entries : Entries
    entry : Entry → Entries → Entries

abbrev pub is_build_name : Text → Bool
is_build_name name = same name (codes "BUILD") || same name (codes "BUILD.bazel")

-- collectResourceFilesRecursively, of the directory's entries and of one entry. The path is clean.
unfoldable mutual
  unfolding has_suffix join_path text_dec

  pub collect_entries : Text → Entries → List Text
  collect_entries sub no_entries = []
  collect_entries sub (entry e es) = collect_entry sub e ++ collect_entries sub es

  pub collect_entry : Text → Entry → List Text
  collect_entry sub (file name) =
      if is_build_name name || has_suffix name (codes ".java") then [] else join_path sub name ∷ []
  collect_entry sub (dir name es) =
      let below = collect_entries (join_path sub name) es in
      if is_build_name name then [] else below

unfoldable pub collect_subdirs : List (Text × Entries) → List Text
unfolding collect_entries text_dec
collect_subdirs [] = []
collect_subdirs ((name, es) ∷ ds) =
    let rest = collect_subdirs ds in
    if is_build_name name then rest else collect_entries name es ++ rest

unfoldable pub resource_files : List Text → List (Text × Entries) → List Text
unfolding collect_subdirs keep base sort insert text_less text_dec
resource_files files subdirs =
    sort text_less (keep (λ f. not (is_build_name (base f))) files ++ collect_subdirs subdirs)

abbrev pub no_input : ResolveInput
no_input = input_of [] [] [] []

abbrev pub pkg_files : Text
pkg_files = codes "pkg_files"

module _ {Expr : Type 0} where
  -- A rule with the input of its resolution.
  unfoldable pub emit : NewRule Expr → ResolveInput → Generation Expr → Generation Expr
  emit r input g = record g { gen = g.gen ++ r ∷ []; imports = g.imports ++ input ∷ [] }

  unfoldable pub pkg_files_rule : List Text → NewRule Expr
  unfolding list_attr
  pkg_files_rule files = record (new_rule pkg_files (codes "resources")) {
    lists = list_attr (codes "srcs") files [];
    strings = (codes "strip_prefix", []) ∷ [];
  }

  unfoldable pub resources_lib_rule : Text → NewRule Expr
  unfolding list_attr
  resources_lib_rule kind = record (new_rule kind (codes "resources_lib")) {
    lists =
        list_attr (codes "visibility") (codes "//:__subpackages__" ∷ [])
          (list_attr (codes "resources") (codes ":resources" ∷ []) []);
  }

  -- The rules of a root of resources, for the kind of library and a module or a single package.
  unfoldable pub generate_resources : Text → Bool → List Text → Generation Expr → Generation Expr
  unfolding emit pkg_files_rule resources_lib_rule
  generate_resources kind in_module [] g =
      let own = (pkg_files, codes "resources") ∷ [] in
      let both = (pkg_files, codes "resources") ∷ (kind, codes "resources_lib") ∷ [] in
      record g { empty = g.empty ++ (if in_module then own else both) }
  generate_resources kind in_module (f ∷ fs) g =
      let own = emit (pkg_files_rule (f ∷ fs)) no_input g in
      if in_module then own else emit (resources_lib_rule kind) no_input own
