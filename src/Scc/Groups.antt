-- ===== src/Scc/Groups.antt =====
-- Groups from components: `buildGroups`, `assignNames`, `assertAcyclic` and `New` of
-- java/gazelle/private/scc/scc.go.
use rules_jvm.Prelude.{
  ℕ, zero, suc, ◌+◌, ◌-◌, Bool, ◌&&◌, Option, none, some, List, [], ◌∷◌, map, Text, text_dec,
  text_less, lookup, put, any, split, join, length, drop, ltb, is_yes, if◌then◌else◌, ◌>>=◌,
}
use rules_jvm.Prelude.Sort.{sort, insert}
use rules_jvm.Names.{PackageName, package_name_dec, package_name_less}
use rules_jvm.SortedSet.View.{place}
use rules_jvm.JavaPackage.{Package}
use rules_jvm.Scc.{Group, Dirs, Adjacency, same, at, adjacency_of, visit_dirs, new_tarjan}

-- The packages of a component's directories: `none` is a directory without a package.
unfoldable pub packages_of : Dirs → List Text → List PackageName → Option (List PackageName)
unfolding lookup text_dec place package_name_less
packages_of ds [] set = some set
packages_of ds (dir ∷ dirs) set = elim (lookup text_dec dir ds) [
  | none ↦ none
  | some pkg ↦ packages_of ds dirs (place package_name_less pkg.name set)
]

unfoldable pub groups_of : Dirs → List (List Text) → Option (List Group)
unfolding packages_of
groups_of ds [] = some []
groups_of ds (c ∷ cs) = do
  packages ← packages_of ds c []
  groups ← groups_of ds cs
  some (record { dirs = c; packages = packages } ∷ groups)

unfoldable pub first_dir : List Text → Text
first_dir [] = []
first_dir (d ∷ _) = d

-- The groups are not empty, and their first directories differ.
abbrev pub group_less : Group → Group → Bool
group_less g h = text_less (first_dir g.dirs) (first_dir h.dirs)

-- buildGroups
unfoldable pub build_groups : Dirs → List (List Text) → Option (List Group)
unfolding groups_of sort insert first_dir text_less
build_groups ds components = elim (groups_of ds components) [
  | none ↦ none
  | some gs ↦ some (sort group_less gs)
]

abbrev pub slash : ℕ
slash = b'/'

abbrev pub underscore : ℕ
underscore = b'_'

-- The segments of a group's first directory, and how many of them its name has.
pub record Naming : Type 0 where
  pub segments : List Text
  pub depth : ℕ

-- The last segments of a path.
abbrev pub min : ℕ → ℕ → ℕ
min d n = if ltb n d then n else d

unfoldable pub name_of : Naming → Text
unfolding join
name_of e = join underscore (drop (length e.segments - min e.depth (length e.segments)) e.segments)

-- counts[name]
unfoldable pub count : Text → List Naming → ℕ
unfolding name_of text_dec
count name [] = 0
count name (e ∷ es) = let rest = count name es in if same (name_of e) name then suc rest else rest

-- Whether the second loop makes a name longer.
unfoldable pub grows : List Naming → Naming → Bool
unfolding count name_of
grows all e = ltb 1 (count (name_of e) all) && ltb e.depth (length e.segments)

unfoldable pub deepen : List Naming → Naming → Naming
unfolding grows
deepen all e = if grows all e then record e { depth = suc e.depth } else e

-- The loop without a condition, on fuel.
unfoldable pub lengthen : ℕ → List Naming → Option (List Naming)
unfolding any grows deepen
lengthen zero es = none
lengthen (suc fuel) es =
    let rest = lengthen fuel (map (deepen es) es) in if any (grows es) es then rest else some es

abbrev pub first_name : Group → Naming
first_name g = record { segments = split slash (first_dir g.dirs); depth = 1 }

unfoldable pub room : List Naming → ℕ
room [] = 0
room (e ∷ es) = (length e.segments - e.depth) + room es

-- assignNames. The loop makes one name longer in every round but the last.
unfoldable pub assign_names : List Group → Option (List Text)
unfolding lengthen room name_of split first_dir
assign_names gs =
    let start = map first_name gs in
    elim (lengthen (suc (room start)) start) [ none ↦ none | some es ↦ some (map name_of es) ]

-- The groups with their names.
abbrev pub Named : Type 0
Named = List (Text × Group)

unfoldable pub zip_names : List Text → List Group → Named
zip_names [] gs = []
zip_names (n ∷ ns) [] = []
zip_names (n ∷ ns) (g ∷ gs) = (n, g) ∷ zip_names ns gs

abbrev pub holds : Text → Text × Group → Bool
holds dir e = any (same dir) e.1.dirs

-- GroupForDir, by the name and the first directory of the group. A directory is in one group.
unfoldable pub group_for_dir : Text → Named → Option (Text × Group)
unfolding any text_dec
group_for_dir dir [] = none
group_for_dir dir (e ∷ es) = let rest = group_for_dir dir es in if holds dir e then some e else rest

-- GroupForPackage: the last of the groups that declare it.
unfoldable pub group_for_package : PackageName → Named → Option (Text × Group)
unfolding any package_name_dec
group_for_package pkg [] = none
group_for_package pkg (e ∷ es) = elim (group_for_package pkg es) [
  | some later ↦ some later
  | none ↦ if any (λ p. is_yes (package_name_dec p pkg)) e.1.packages then some e else none
]

-- The dependencies of one directory that lead into another group.
unfoldable pub add_targets : Named → Text × Group → List Text → Adjacency → Adjacency
unfolding group_for_dir place at put text_dec first_dir
add_targets groups from [] adj = adj
add_targets groups from (dep ∷ ds) adj =
    add_targets groups from ds (elim (group_for_dir dep groups) [
      | none ↦ adj
      | some target ↦
          if same (first_dir target.1.dirs) (first_dir from.1.dirs)
          then adj
          else put text_dec from.0 (place text_less target.0 (at text_dec from.0 adj)) adj
    ])

unfoldable pub add_group_dirs : Adjacency → Named → Text × Group → List Text → Adjacency → Adjacency
unfolding add_targets at
add_group_dirs edges groups from [] adj = adj
add_group_dirs edges groups from (d ∷ ds) adj =
    add_group_dirs edges groups from ds (add_targets groups from (at text_dec d edges) adj)

unfoldable pub condense : Adjacency → Named → Named → Adjacency → Adjacency
unfolding add_group_dirs
condense edges groups [] adj = adj
condense edges groups (e ∷ es) adj =
    condense edges groups es (add_group_dirs edges groups e e.1.dirs adj)

-- Colours: gray nodes are on the path, and black ones are done.
pub data Color : Type 0 where
  white : Color
  gray : Color
  black : Color

unfoldable pub color_of : Text → List (Text × Color) → Color
unfolding lookup text_dec
color_of n colors = elim (lookup text_dec n colors) [ none ↦ Color.white | some c ↦ c ]

-- A search that went well, with the colours, or the cycle that it met.
pub data Search : Type 0 where
  done : List (Text × Color) → Search
  cycle : List Text → Search

-- The loop over the successors, by the recursive call. The path comes with its last node first.
unfoldable pub visit_all :
    (List Text → Text → List (Text × Color) → Option Search)
    → List Text
    → List Text
    → List (Text × Color)
    → Option Search
unfolding color_of
visit_all visit path [] colors = some (Search.done colors)
visit_all visit path (m ∷ ms) colors = elim (color_of m colors) [
  | Color.gray ↦ some (Search.cycle (m ∷ path))
  | Color.black ↦ visit_all visit path ms colors
  | Color.white ↦ elim (visit path m colors) [
    | none ↦ none
    | some (Search.cycle c) ↦ some (Search.cycle c)
    | some (Search.done colors') ↦ visit_all visit path ms colors'
  ]
]

unfoldable pub visit : Adjacency → ℕ → List Text → Text → List (Text × Color) → Option Search
unfolding visit_all at put text_dec
visit adj zero path n colors = none
visit adj (suc fuel) path n colors =
    elim (visit_all (visit adj fuel) (n ∷ path) (at text_dec n adj)
      (put text_dec n Color.gray colors)) [
        | none ↦ none
        | some (Search.cycle c) ↦ some (Search.cycle c)
        | some (Search.done colors') ↦ some (Search.done (put text_dec n Color.black colors'))
      ]

-- assertAcyclic
unfoldable pub assert_acyclic : Adjacency → Named → Option Search
unfolding condense visit_all visit sort insert text_less
assert_acyclic edges groups =
    let names = map (λ (e : Text × Group). e.0) groups in
    let adj = condense edges groups groups (map (λ (n : Text). (n, [])) names) in
    visit_all (visit adj (suc (length names))) [] (sort text_less names) []

-- New: the named groups, or the cycle of the error.
pub data Result : Type 0 where
  graph : Named → Result
  error : List Text → Result

unfoldable pub new_graph : Dirs → Option Result
unfolding visit_dirs build_groups assign_names zip_names assert_acyclic adjacency_of
new_graph ds = do
  let edges = adjacency_of ds
  tarjan ← visit_dirs edges (suc (length ds)) (map (λ (d : Text × Package). d.0) ds) new_tarjan
  groups ← build_groups ds tarjan.components
  names ← assign_names groups
  let named = zip_names names groups
  search ← assert_acyclic edges named
  some (elim search [ Search.done _ ↦ Result.graph named | Search.cycle c ↦ Result.error c ])
