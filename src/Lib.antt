-- ===== src/Lib.antt =====
-- The Gazelle extension for Java and Kotlin of rules_jvm (java/gazelle): it reads the packages and
-- classes of Java sources, writes Bazel rules for them and resolves what they import to labels.
--
-- The parts, from the bottom up:
--   * names of packages and classes (java/gazelle/private/types/types.go): `Names`, with its parsers
--     (`Names.Parse`, `Names.Resolvable`) and LateInit (`Names.Late`); the packages that need no
--     dependency (java/gazelle/private/java/java.go, java/gazelle/private/kotlin/kotlin.go): `Stdlib`, and
--     the directories of tests (java.go too): `TestPackages`;
--   * containers (java/gazelle/private/sorted_set, java/gazelle/private/sorted_multiset,
--     java/gazelle/private/maven/multiset): `SortedSet` and `Multiset`. The set stands on the B-tree of
--     github.com/google/btree, which is the parameter `SortedSet.BTree` with the laws it documents;
--     `SortedSet.View` is the abstract set, an ascending list, and the other parts use that view;
--   * the Maven resolver (java/gazelle/private/maven, java/gazelle/private/bazel/bazel.go): `Maven`. It
--     reads a lock file and an index of classes (`Maven.Lock`), parses the coordinates in them
--     (`Maven.Coordinate`), and answers for a package or a class which artifact provides it
--     (`Maven.Resolver`);
--   * the index of java_export rules (java/gazelle/private/java_export_index): `ExportIndex`. Generation
--     records the rules in it, FinalizeIndex computes what each export takes over, and resolution asks it
--     whether a label is to be replaced by an export;
--   * the configuration of a directory (java/gazelle/javaconfig/config.go): `Config`, and the
--     directives that change it (java/gazelle/configure.go): `Config.Directives`, the source sets that are
--     detected (`Config.SourceSet`), and the flags of the command line (`Config.Flags`). A child copies its
--     parent's fields, except three that all configurations share, the record `Config.Shared`;
--   * the client of the Java parser (java/gazelle/private/javaparser/javaparser.go): `Parser` turns an answer of the
--     server into a package (`JavaPackage`); the manager that starts the server, reads its port and connects to it
--     (java/gazelle/private/servermanager/servermanager.go): `Server`;
--   * grouping the directories of a module (java/gazelle/private/scc/scc.go): `Scc`, from the packages as data
--     (java/gazelle/private/java/package.go), `JavaPackage`;
--   * generation (java/gazelle/generate.go): `Generate` sorts the files, filters their imports and makes the
--     rules, each with the input that resolution later gets; `Generate.Rules` puts the parts together. What it
--     asks of the parser and the file system is the parameter `Generate.Setting.Outside`;
--   * resolution (java/gazelle/resolve.go, java/gazelle/resolve_associates.go, java/gazelle/lang.go): `Resolve`
--     fills the attributes of a rule from that input. It asks Gazelle's index of rules (the parameter
--     `Resolve.Labels.Gazelle`), the index of exports, the Maven resolver, and the classes that generation
--     cached. `Kinds` says which kinds of rules count as what, and `Loads` which symbols are loaded.
--
-- A definition has the name of the function that it models, in snake case, and `Prelude` has the shared
-- types: a Go string is the list of its code points (`Text`), a Go map an association list in an order of
-- iteration. A result that the source returns with an error is an `Option` or a type of outcomes; a panic
-- and a log entry at the level Fatal, which ends the process, are outcomes too. A nil pointer to a set is
-- `none`. Other log entries are left out. Labels of bazel-gazelle are records (`Labels`), and the functions
-- of that library are the parameter `Labels.LabelLib`. `unicode.IsUpper`, `unicode.IsSpace`
-- and `strings.ToLower` are parameters, and so is the cache of github.com/hashicorp/golang-lru
-- (`Resolve.Package.Lru`).
--
-- Bounds: loops over slices and strings are structural recursion. The recursion of
-- calculateTransitiveDependencies and the queue of calculateImportsForJavaExport take fuel. For the
-- former, where the imports have no cycle, a fuel above the length of the longest chain of dependencies
-- is enough; for the latter, one above the direct dependencies of the export and the packages that rules declare
-- together, since no label is queued twice. The chain of mapped
-- kinds takes two more than the number of the map's entries, and the loop that names groups one more than the
-- segments that are left. Tarjan's algorithm and the search for a cycle
-- visit a node once, and take one more than the number of nodes. The wait for the server's port looks at most 1002
-- times, since it sleeps ten milliseconds between two looks and gives up after ten seconds.
--
-- Not modelled: that GenerateRules removes the build files inside a module (java/gazelle/generate.go), what the
-- extension registers with Gazelle (java/gazelle/lang.go), and how the parser is found and called, which is input and
-- output.
pub mod Prelude
pub mod Config
pub mod Examples
pub mod ExportIndex
pub mod Generate
pub mod JavaPackage
pub mod Kinds
pub mod Labels
pub mod Loads
pub mod Maven
pub mod Multiset
pub mod Names
pub mod Parser
pub mod Resolve
pub mod Scc
pub mod Server
pub mod SortedSet
pub mod Stdlib
pub mod TestPackages
