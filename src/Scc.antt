-- ===== src/Scc.antt =====
-- Grouping the directories of a module into targets (java/gazelle/private/scc/scc.go). `Groups` builds and names the
-- groups and checks them, `Ends` and `Edges` are about the end of Tarjan's algorithm, and `Naming` about
-- the names.
--
-- Maps are association lists. The recursion of Tarjan's algorithm and of the search for a cycle is on fuel:
-- every call is for a node that was not yet visited, so that one more than the number of nodes is enough.
-- `none` is fuel that ran out, or a panic on an empty stack.
pub mod Groups
pub mod Edges
pub mod Ends
pub mod Naming
use rules_jvm.Prelude.{
  ℕ, zero, suc, ◌+◌, ◌-◌, ◌<◌, Bool, true, false, not, ◌&&◌, ◌||◌, Option, none, some, List, [],
  ◌∷◌, ◌++◌, map, Text, codes, text_dec, text_less, lookup, put, keys, any, split, join, length,
  drop, ltb, leb, ◌==◌, is_yes, if◌then◌else◌, ◌>>=◌,
}
use rules_jvm.Prelude.Sort.{sort, insert}
use rules_jvm.Names.{
  PackageName, ClassName, package_name_dec, package_name_less, fully_qualified_class_name,
}
use rules_jvm.SortedSet.View.{place, place_all}
use rules_jvm.JavaPackage.{Package}

abbrev pub same : Text → Text → Bool
same s t = is_yes (text_dec s t)

-- Group, before it has its name.
pub record Group : Type 0 where
  pub dirs : List Text
  pub packages : List PackageName

-- A missing entry of a map of slices or of sets is the empty one.
unfoldable pub at {ℓ} : {K V : Type ℓ} → Discrete K → K → List (K × List V) → List V
unfolding lookup
at dec k m = elim (lookup dec k m) [ none ↦ [] | some vs ↦ vs ]

unfoldable pub append_at {ℓ} :
    {K V : Type ℓ} → Discrete K → K → V → List (K × List V) → List (K × List V)
unfolding at put
append_at dec k v m = put dec k (at dec k m ++ v ∷ []) m

-- importedPackages
unfoldable pub or_empty {ℓ} : {A : Type ℓ} → Option (List A) → List A
or_empty none = []
or_empty (some xs) = xs

unfoldable pub imported_packages : Package → List PackageName
unfolding place_all package_name_less or_empty
imported_packages pkg =
    place_all package_name_less
      (map (λ (c : ClassName). c.package_name) (or_empty pkg.imported_classes))
      (place_all package_name_less (or_empty pkg.imported_packages_without_specific_classes) [])

-- The directories with their packages, in ascending order of the directories.
abbrev pub Dirs : Type 0
Dirs = List (Text × Package)

abbrev pub Adjacency : Type 0
Adjacency = List (Text × List Text)

unfoldable pub package_to_dirs :
    Dirs → List (PackageName × List Text) → List (PackageName × List Text)
unfolding append_at package_name_dec
package_to_dirs [] m = m
package_to_dirs ((dir, pkg) ∷ ds) m = package_to_dirs ds (append_at package_name_dec pkg.name dir m)

unfoldable pub own_classes :
    Text → List ClassName → List (Text × List Text) → List (Text × List Text)
unfolding append_at text_dec
own_classes dir [] m = m
own_classes dir (c ∷ cs) m =
    own_classes dir cs (append_at text_dec (fully_qualified_class_name c) dir m)

unfoldable pub internal_owners : Dirs → List (Text × List Text) → List (Text × List Text)
unfolding own_classes or_empty
internal_owners [] m = m
internal_owners ((dir, pkg) ∷ ds) m =
    internal_owners ds (own_classes dir (or_empty pkg.internal_classes) m)

unfoldable pub add_edge : Text → Text → Adjacency → Adjacency
unfolding place at put text_dec
add_edge from to adj =
    if same from to then adj else put text_dec from (place text_less to (at text_dec from adj)) adj

unfoldable pub add_edges_to : Text → List Text → Adjacency → Adjacency
unfolding add_edge
add_edges_to from [] adj = adj
add_edges_to from (to ∷ ts) adj = add_edges_to from ts (add_edge from to adj)

-- Edge (a), for every package that is imported.
unfoldable pub add_imports :
    List (PackageName × List Text) → Text → List PackageName → Adjacency → Adjacency
unfolding add_edges_to at
add_imports owners dir [] adj = adj
add_imports owners dir (p ∷ ps) adj =
    add_imports owners dir ps (add_edges_to dir (at package_name_dec p owners) adj)

-- Edge (b), in both directions.
unfoldable pub add_both : Text → List Text → Adjacency → Adjacency
unfolding add_edge
add_both dir [] adj = adj
add_both dir (owner ∷ os) adj = add_both dir os (add_edge owner dir (add_edge dir owner adj))

unfoldable pub add_internals :
    List (Text × List Text) → Text → List ClassName → Adjacency → Adjacency
unfolding add_both at
add_internals owners dir [] adj = adj
add_internals owners dir (c ∷ cs) adj =
    add_internals owners dir cs
      (add_both dir (at text_dec (fully_qualified_class_name c) owners) adj)

unfoldable pub add_dirs :
    List (PackageName × List Text) → List (Text × List Text) → Dirs → Adjacency → Adjacency
unfolding add_imports add_internals imported_packages or_empty
add_dirs owners internals [] adj = adj
add_dirs owners internals ((dir, pkg) ∷ ds) adj = add_dirs owners internals ds (
    add_internals internals dir (or_empty pkg.imported_classes)
      (add_imports owners dir (imported_packages pkg) adj))

unfoldable pub adjacency_of : Dirs → Adjacency
unfolding add_dirs package_to_dirs internal_owners
adjacency_of ds =
    add_dirs (package_to_dirs ds []) (internal_owners ds []) ds
      (map (λ (d : Text × Package). (d.0, [])) ds)

-- What the closures of `tarjanSCC` share. The top of the stack comes first, and the last component too.
pub record Tarjan : Type 0 where
  pub index : List (Text × ℕ)
  pub lowlink : List (Text × ℕ)
  pub on_stack : List (Text × Bool)
  pub stack : List Text
  pub counter : ℕ
  pub components : List (List Text)

-- A missing entry of a map is the zero value.
unfoldable pub number_at : Text → List (Text × ℕ) → ℕ
unfolding lookup text_dec
number_at k m = elim (lookup text_dec k m) [ none ↦ 0 | some n ↦ n ]

unfoldable pub is_on_stack : Text → Tarjan → Bool
unfolding lookup text_dec
is_on_stack k s = elim (lookup text_dec k s.on_stack) [ none ↦ false | some b ↦ b ]

unfoldable pub is_indexed : Text → Tarjan → Bool
unfolding lookup text_dec
is_indexed k s = elim (lookup text_dec k s.index) [ none ↦ false | some _ ↦ true ]

unfoldable pub enter : Text → Tarjan → Tarjan
unfolding put text_dec
enter v s = record {
  index = put text_dec v s.counter s.index;
  lowlink = put text_dec v s.counter s.lowlink;
  on_stack = put text_dec v true s.on_stack;
  stack = v ∷ s.stack;
  counter = suc s.counter;
  components = s.components;
}

unfoldable pub lower : Text → ℕ → Tarjan → Tarjan
unfolding put text_dec number_at
lower v n s =
    if ltb n (number_at v s.lowlink) then record s { lowlink = put text_dec v n s.lowlink } else s

-- The loop over the successors, by the recursive call.
unfoldable pub visit_edges :
    (Text → Tarjan → Option Tarjan) → Text → List Text → Tarjan → Option Tarjan
unfolding is_indexed is_on_stack lower number_at
visit_edges connect v [] s = some s
visit_edges connect v (w ∷ ws) s = elim (is_indexed w s) [
  | false ↦ elim (connect w s) [
    | none ↦ none
    | some s' ↦ visit_edges connect v ws (lower v (number_at w s'.lowlink) s')
  ]
  | true ↦ visit_edges connect v ws (if is_on_stack w s then lower v (number_at w s.index) s else s)
]

-- Takes the component off the stack: its nodes, and what is left.
unfoldable pub pop :
    Text → List Text → List (Text × Bool) → Option (List Text × List Text × List (Text × Bool))
unfolding put text_dec
pop v [] on_stack = none
pop v (w ∷ ws) on_stack =
    let rest = pop v ws (put text_dec w false on_stack) in
    if same w v
    then some (w ∷ [], ws, put text_dec w false on_stack)
    else (elim rest [ none ↦ none | some (component, stack, m) ↦ some (w ∷ component, stack, m) ])

unfoldable pub close_component : Text → Tarjan → Option Tarjan
unfolding pop number_at sort insert text_less
close_component v s = elim (number_at v s.lowlink == number_at v s.index) [
  | false ↦ some s
  | true ↦ elim (pop v s.stack s.on_stack) [
    | none ↦ none
    | some (component, stack, m) ↦ some (record s {
      on_stack = m;
      stack = stack;
      components = sort text_less component ∷ s.components;
    })
  ]
]

-- strongConnect
unfoldable pub strong_connect : Adjacency → ℕ → Text → Tarjan → Option Tarjan
unfolding visit_edges enter close_component at text_dec
strong_connect adj zero v s = none
strong_connect adj (suc fuel) v s =
    elim (visit_edges (strong_connect adj fuel) v (at text_dec v adj) (enter v s)) [
      | none ↦ none
      | some s' ↦ close_component v s'
    ]

unfoldable pub visit_dirs : Adjacency → ℕ → List Text → Tarjan → Option Tarjan
unfolding strong_connect is_indexed
visit_dirs adj fuel [] s = some s
visit_dirs adj fuel (v ∷ vs) s = elim (is_indexed v s) [
  | true ↦ visit_dirs adj fuel vs s
  | false ↦ elim (strong_connect adj fuel v s) [ none ↦ none | some s' ↦ visit_dirs adj fuel vs s' ]
]

abbrev pub new_tarjan : Tarjan
new_tarjan = record {
  index = [];
  lowlink = [];
  on_stack = [];
  stack = [];
  counter = 0;
  components = [];
}
