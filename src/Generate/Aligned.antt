-- ===== src/Generate/Aligned.antt =====
-- The result of `GenerateRules` (java/gazelle/generate.go): its rules go with the inputs of their resolution.
use rules_jvm.Prelude.{ℕ, Bool, Option, none, some, List, Text}
use rules_jvm.Labels.{LabelLib}
use rules_jvm.Config.{Config, Shared}
use rules_jvm.Generate.Setting.{Outside, Session}
use rules_jvm.Generate.Grows.{Grows, Ends}

module _ (lib : LabelLib) {Expr : Type 0} where
  module _ (is_upper : ℕ → Bool) (defaults : List Text) (out : Outside) (cfg : Config)
      (shared : Shared Expr) where
    -- A run, which may end early.
    Runs : Session Expr → Option (Session Expr) → Type 0
    Runs s none = Unit
    Runs s (some s') = Grows s.generation s'.generation
