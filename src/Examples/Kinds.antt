-- ===== src/Examples/Kinds.antt =====
-- Runs and instances for kinds of rules.
use rules_jvm.Prelude.{◌≡◌, ◌≢◌, ◌↔◌, refl, true, some, [], ◌∷◌, Text, codes, text_dec, lookup}
use rules_jvm.Kinds.{
  MappedKind, KindMap, mapped_kind, follow, is_seen, size, is_kind_or_mapped_kind,
}
use rules_jvm.Kinds.Chain.{IsEnd, Reaches, Answers, mapped_kind_total, is_kind_or_mapped_kind_iff}

abbrev library : Text
library = codes "java_library"

abbrev macro : Text
macro = codes "our_java_library"

abbrev other_macro : Text
other_macro = codes "their_java_library"

abbrev to_kind : Text → MappedKind
to_kind k = record { from_kind = library; kind_name = k }

abbrev macros : KindMap
macros = (library, to_kind macro) ∷ (macro, to_kind other_macro) ∷ []

mapped_kind_run : mapped_kind macros library ≡ some other_macro
unfolding mapped_kind follow size is_seen lookup text_dec
mapped_kind_run = refl

-- Two kinds that are mapped to each other.
mapped_kind_cycle :
    mapped_kind ((library, to_kind macro) ∷ (macro, to_kind library) ∷ []) library ≡ some []
unfolding mapped_kind follow size is_seen lookup text_dec
mapped_kind_cycle = refl

mapped_kind_total_example :
    (res : Text) × (mapped_kind macros library ≡ some res) × Answers macros library res
mapped_kind_total_example = mapped_kind_total macros library

is_kind_or_mapped_kind_iff_example :
    (is_kind_or_mapped_kind macros library macro ≡ some true)
    ↔ ((e : Text) × (e ≢ []) × IsEnd macros e × Reaches macros library e × Reaches macros macro e)
is_kind_or_mapped_kind_iff_example = is_kind_or_mapped_kind_iff macros library macro
