-- ===== src/Kinds.antt =====
-- Kinds of rules: which ones the extension treats as a Java library (java/gazelle/resolve.go), as a boundary
-- of exports (java/gazelle/lang.go), and the chain of mapped kinds that the directive map_kind of Gazelle
-- makes. `Chain` is about the end of that chain.
--
-- c.KindMap is a map of Gazelle, from a kind to its replacement; the loop takes fuel.
pub mod Chain
use rules_jvm.Prelude.{
  ℕ, zero, suc, ◌+◌, ite, Bool, true, false, not, ◌&&◌, ◌||◌, Option, none, some, List, [], ◌∷◌,
  Text, codes, text_dec, lookup, any, is_yes, if◌then◌else◌,
}

-- What the program reads of config.MappedKind.
pub record MappedKind : Type 0 where
  pub from_kind : Text
  pub kind_name : Text

abbrev pub KindMap : Type 0
KindMap = List (Text × MappedKind)

abbrev pub is_kind : Text → Text → Bool
is_kind s t = is_yes (text_dec s t)

unfoldable pub is_seen : List Text → Text → Bool
unfolding any text_dec
is_seen seen kind = any (λ s. is_kind s kind) seen

-- The loop of `mappedKind`: the outer `none` is that the fuel ran out.
unfoldable pub follow : KindMap → ℕ → Text → List Text → Option Text
follow m zero kind seen = none
follow m (suc fuel) kind seen = elim (lookup text_dec kind m) [
  | none ↦ some kind
  | some replacement ↦ elim (is_kind replacement.kind_name kind) [
    | true ↦ some kind
    | false ↦ elim (is_seen seen replacement.kind_name) [
      | true ↦ some []
      | false ↦ follow m fuel replacement.kind_name (replacement.kind_name ∷ seen)
    ]
  ]
]

unfoldable pub size : KindMap → ℕ
size [] = 0
size (_ ∷ m) = suc (size m)

-- mappedKind
unfoldable pub mapped_kind : KindMap → Text → Option Text
unfolding size
mapped_kind m kind = follow m (size m + 2) kind (kind ∷ [])

-- isKindOrMappedKind, for the results of the two calls of `mappedKind`.
unfoldable pub same_chain : Text → Text → Bool
unfolding text_dec
same_chain mapped_base mapped = not (is_kind mapped_base []) && is_kind mapped mapped_base

unfoldable pub is_kind_or_mapped_kind : KindMap → Text → Text → Option Bool
is_kind_or_mapped_kind m kind base = elim (mapped_kind m base) [
  | none ↦ none
  | some b ↦ elim (mapped_kind m kind) [ none ↦ none | some k ↦ some (same_chain b k) ]
]

-- The attribute `srcs` of a rule as `hasNoSources` sees it.
pub data Sources : Type 0 where
  absent : Sources
  literal : List Text → Sources
  other_expression : Sources

unfoldable pub has_no_sources : Sources → Bool
has_no_sources absent = true
has_no_sources (literal []) = true
has_no_sources (literal (_ ∷ _)) = false
has_no_sources other_expression = false

-- isJavaExportBoundary
unfoldable pub is_java_export_boundary : KindMap → Text → Sources → Option Bool
is_java_export_boundary m kind srcs = elim (is_kind_or_mapped_kind m kind (codes "java_export")) [
  | none ↦ none
  | some true ↦ some true
  | some false ↦ elim (has_no_sources srcs) [
    | false ↦ some false
    | true ↦ is_kind_or_mapped_kind m kind (codes "kt_jvm_export")
  ]
]

-- The loop of `isJavaProtoLibrary` over the map's entries in the order of its iteration: the kinds that
-- count as the two proto libraries.
unfoldable pub proto_kinds : KindMap → Text → Text × Text
unfolding text_dec
proto_kinds [] kind = (codes "java_proto_library", codes "java_grpc_library")
proto_kinds ((_, k) ∷ m) kind =
    let rest = proto_kinds m kind in
    if is_kind k.kind_name kind
    then (if is_kind k.from_kind (codes "java_proto_library")
        then (kind, codes "java_grpc_library")
        else if is_kind k.from_kind (codes "java_grpc_library")
        then (codes "java_proto_library", kind)
        else rest)
    else rest

unfoldable pub is_java_proto_library : KindMap → Text → Bool
unfolding proto_kinds
is_java_proto_library m kind =
    is_kind kind (proto_kinds m kind).0 || is_kind kind (proto_kinds m kind).1

unfoldable pub is_java_library : KindMap → Text → Bool
is_java_library m kind = is_kind kind (codes "java_library") || is_java_proto_library m kind

unfoldable pub is_kotlin_library : Text → Bool
is_kotlin_library kind = is_kind kind (codes "kt_jvm_library")

unfoldable pub is_jvm_library : KindMap → Text → Bool
is_jvm_library m kind = is_java_library m kind || is_kotlin_library kind
