-- ===== src/Scc/Edges.antt =====
-- The edges of the graph (`New` of java/gazelle/private/scc/scc.go) and the directories of the
-- module.

use rules_jvm.Prelude.{
  suc, ◌≡◌, refl, ap, ite, Bool, true, false, some, List, [], ◌∷◌, ◌++◌, map, Text, text_dec,
  text_less, lookup, put, lookup-put, if◌then◌else◌, length, arith, Memᴰ, All, All-append,
}
use rules_jvm.Names.{PackageName, ClassName, package_name_dec, fully_qualified_class_name}
use rules_jvm.SortedSet.View.{place}
use rules_jvm.JavaPackage.{Package}
use rules_jvm.Scc.{
  Dirs, Adjacency, Tarjan, same, at, append_at, or_empty, imported_packages, package_to_dirs,
  own_classes, internal_owners, add_edge, add_edges_to, add_imports, add_both, add_internals,
  add_dirs, adjacency_of, is_indexed, visit_dirs, new_tarjan,
}
use rules_jvm.Scc.Ends.{visit_dirs_total, unindexed-new, All-within}

at-put :
    {K : Type 0} (dec : Discrete K) (k j : K) (vs : List Text) (m : List (K × List Text))
    → at dec j (put dec k vs m) ≡ ite (dec k j) vs (at dec j m)
unfolding at
at-put dec k j vs m = ground (arith, lookup-put dec k j vs m)

at-no_edges :
    (ds : Dirs) (k : Text)
    → at {V = Text} text_dec k (map (λ (d : Text × Package). (d.0, [])) ds) ≡ []
unfolding at lookup
at-no_edges [] k = refl
at-no_edges (d ∷ ds) k = ground (arith, at-no_edges ds k)

module _ (nodes : List Text) where
  abbrev Nodes : List Text → Type 0
  Nodes ws = All (λ w. Memᴰ w nodes) ws

  -- A map that leads to nodes only.
  IsWithin : {K : Type 0} → Discrete K → List (K × List Text) → Type 0
  IsWithin dec m = (k : _) → Nodes (at dec k m)

  place-Nodes : (v : Text) (xs : List Text) → Memᴰ v nodes → Nodes xs → Nodes (place text_less v xs)
  unfolding place
  place-Nodes v [] m a = (m, tt)
  place-Nodes v (x ∷ xs) m (h, a) = ground (arith, place-Nodes v xs m a)

  put-IsWithin :
      {K : Type 0} (dec : Discrete K) (k : K) (vs : List Text) (m : List (K × List Text))
      → Nodes vs
      → IsWithin dec m
      → IsWithin dec (put dec k vs m)
  unfolding IsWithin
  put-IsWithin dec k vs m a h j = rw (at-put dec k j vs m) (go (dec k j))
    where
      go : (d : Dec (k ≡ j)) → Nodes (ite d vs (at dec j m))
      go (yes _) = a
      go (no _) = h j

  append_at-IsWithin :
      {K : Type 0} (dec : Discrete K) (k : K) (v : Text) (m : List (K × List Text))
      → Memᴰ v nodes
      → IsWithin dec m
      → IsWithin dec (append_at dec k v m)
  unfolding append_at
  append_at-IsWithin dec k v m i h =
      put-IsWithin dec k (at dec k m ++ v ∷ []) m
        (All-append _ (at dec k m) (v ∷ []) (unfold IsWithin in h k) (i, tt)) h

  abbrev DirsWithin : Dirs → Type 0
  DirsWithin ds = All (λ (d : Text × Package). Memᴰ d.0 nodes) ds

  package_to_dirs-IsWithin :
      (ds : Dirs) (m : List (PackageName × List Text))
      → DirsWithin ds
      → IsWithin package_name_dec m
      → IsWithin package_name_dec (package_to_dirs ds m)
  unfolding package_to_dirs
  package_to_dirs-IsWithin [] m a h = h
  package_to_dirs-IsWithin ((dir, pkg) ∷ ds) m (i, a) h =
      package_to_dirs-IsWithin ds _ a (append_at-IsWithin package_name_dec pkg.name dir m i h)

  own_classes-IsWithin :
      (dir : Text) (cs : List ClassName) (m : List (Text × List Text))
      → Memᴰ dir nodes
      → IsWithin text_dec m
      → IsWithin text_dec (own_classes dir cs m)
  unfolding own_classes
  own_classes-IsWithin dir [] m i h = h
  own_classes-IsWithin dir (c ∷ cs) m i h =
      own_classes-IsWithin dir cs _ i
        (append_at-IsWithin text_dec (fully_qualified_class_name c) dir m i h)

  internal_owners-IsWithin :
      (ds : Dirs) (m : List (Text × List Text))
      → DirsWithin ds
      → IsWithin text_dec m
      → IsWithin text_dec (internal_owners ds m)
  unfolding internal_owners
  internal_owners-IsWithin [] m a h = h
  internal_owners-IsWithin ((dir, pkg) ∷ ds) m (i, a) h =
      internal_owners-IsWithin ds _ a
        (own_classes-IsWithin dir (or_empty pkg.internal_classes) m i h)

  add_edge-IsWithin :
      (from to : Text) (adj : Adjacency)
      → Memᴰ to nodes
      → IsWithin text_dec adj
      → IsWithin text_dec (add_edge from to adj)
  unfolding add_edge
  add_edge-IsWithin from to adj i h = go (same from to)
    where
      added : IsWithin text_dec (put text_dec from (place text_less to (at text_dec from adj)) adj)
      added =
          put-IsWithin text_dec from _ adj
            (place-Nodes to (at text_dec from adj) i (unfold IsWithin in h from)) h

      go :
          (b : Bool)
          → IsWithin text_dec
              (if b then adj else put text_dec from (place text_less to (at text_dec from adj)) adj)
      go true = h
      go false = added

  add_edges_to-IsWithin :
      (from : Text) (ts : List Text) (adj : Adjacency)
      → Nodes ts
      → IsWithin text_dec adj
      → IsWithin text_dec (add_edges_to from ts adj)
  unfolding add_edges_to
  add_edges_to-IsWithin from [] adj a h = h
  add_edges_to-IsWithin from (t ∷ ts) adj (i, a) h =
      add_edges_to-IsWithin from ts _ a (add_edge-IsWithin from t adj i h)

  add_imports-IsWithin :
      (owners : List (PackageName × List Text)) (dir : Text) (ps : List PackageName)
      (adj : Adjacency)
      → IsWithin package_name_dec owners
      → IsWithin text_dec adj
      → IsWithin text_dec (add_imports owners dir ps adj)
  unfolding add_imports
  add_imports-IsWithin owners dir [] adj o h = h
  add_imports-IsWithin owners dir (p ∷ ps) adj o h =
      add_imports-IsWithin owners dir ps _ o
        (add_edges_to-IsWithin dir (at package_name_dec p owners) adj (unfold IsWithin in o p) h)

  add_both-IsWithin :
      (dir : Text) (os : List Text) (adj : Adjacency)
      → Memᴰ dir nodes
      → Nodes os
      → IsWithin text_dec adj
      → IsWithin text_dec (add_both dir os adj)
  unfolding add_both
  add_both-IsWithin dir [] adj i a h = h
  add_both-IsWithin dir (o ∷ os) adj i (j, a) h =
      add_both-IsWithin dir os _ i a (add_edge-IsWithin o dir _ i (add_edge-IsWithin dir o adj j h))

  add_internals-IsWithin :
      (owners : List (Text × List Text)) (dir : Text) (cs : List ClassName) (adj : Adjacency)
      → Memᴰ dir nodes
      → IsWithin text_dec owners
      → IsWithin text_dec adj
      → IsWithin text_dec (add_internals owners dir cs adj)
  unfolding add_internals
  add_internals-IsWithin owners dir [] adj i o h = h
  add_internals-IsWithin owners dir (c ∷ cs) adj i o h =
      add_internals-IsWithin owners dir cs _ i o (
        add_both-IsWithin dir (at text_dec (fully_qualified_class_name c) owners) adj i
          (unfold IsWithin in o (fully_qualified_class_name c)) h)

  add_dirs-IsWithin :
      (owners : List (PackageName × List Text)) (internals : List (Text × List Text)) (ds : Dirs)
      (adj : Adjacency)
      → DirsWithin ds
      → IsWithin package_name_dec owners
      → IsWithin text_dec internals
      → IsWithin text_dec adj
      → IsWithin text_dec (add_dirs owners internals ds adj)
  unfolding add_dirs
  add_dirs-IsWithin owners internals [] adj a o n h = h
  add_dirs-IsWithin owners internals ((dir, pkg) ∷ ds) adj (i, a) o n h =
      add_dirs-IsWithin owners internals ds _ a o n (
        add_internals-IsWithin internals dir (or_empty pkg.imported_classes) _ i n
          (add_imports-IsWithin owners dir (imported_packages pkg) adj o h))

  no_edges-IsWithin : (ds : Dirs) → IsWithin text_dec (map (λ (d : Text × Package). (d.0, [])) ds)
  unfolding IsWithin
  no_edges-IsWithin ds k = rw (at-no_edges ds k) tt

  empty-IsWithin : {K : Type 0} (dec : Discrete K) → IsWithin dec []
  unfolding IsWithin at lookup
  empty-IsWithin dec k = tt

  adjacency_of-IsWithin : (ds : Dirs) → DirsWithin ds → IsWithin text_dec (adjacency_of ds)
  unfolding adjacency_of
  adjacency_of-IsWithin ds a =
      add_dirs-IsWithin (package_to_dirs ds []) (internal_owners ds []) ds _ a
        (package_to_dirs-IsWithin ds [] a (empty-IsWithin package_name_dec))
        (internal_owners-IsWithin ds [] a (empty-IsWithin text_dec)) (no_edges-IsWithin ds)

abbrev pub dirs_of : Dirs → List Text
dirs_of ds = map (λ (d : Text × Package). d.0) ds

length-dirs_of : (ds : Dirs) → length (dirs_of ds) ≡ length ds
length-dirs_of [] = refl
length-dirs_of (d ∷ ds) = ap suc (length-dirs_of ds)

dirs_of-DirsWithin :
    (ds es : Dirs)
    → ((v : Text) → Memᴰ v (dirs_of es) → Memᴰ v (dirs_of ds))
    → DirsWithin (dirs_of ds) es
dirs_of-DirsWithin ds [] h = tt
dirs_of-DirsWithin ds (e ∷ es) h =
    (h e.0 (Memᴰ.head refl), dirs_of-DirsWithin ds es (λ v m. h v (Memᴰ.tail m)))

-- On the graph of every module, Tarjan's algorithm ends with the fuel that New gives it and never takes a node off
-- an empty stack. In the end every directory has an index.
pub tarjan_total :
    (ds : Dirs)
    → (t : Tarjan) × (visit_dirs (adjacency_of ds) (suc (length ds)) (dirs_of ds) new_tarjan
        ≡ some t)
      × All (λ v. is_indexed v t ≡ true) (dirs_of ds)
tarjan_total ds =
    let nodes = dirs_of ds in
    let within = adjacency_of-IsWithin nodes ds (dirs_of-DirsWithin ds ds (λ v m. m)) in
    let closed : (v : Text) → All (λ w. Memᴰ w nodes) (at text_dec v (adjacency_of ds)) =
      unfold IsWithin in λ v. within v in
    let (t, run, _, all) =
      visit_dirs_total nodes (adjacency_of ds) closed (suc (length ds)) nodes new_tarjan
        (All-within nodes nodes (λ v m. m))
        (omega (arith, unindexed-new nodes, length-dirs_of ds)) in
    (t, run, all)
