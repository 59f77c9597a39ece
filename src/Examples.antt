-- ===== src/Examples.antt =====
-- Runs of the model and instances of its theorems on concrete inputs, one child for each part.
pub mod Names
pub mod Sets
pub mod Maven
pub mod Config
pub mod Exports
pub mod Kinds
pub mod Resolution
pub mod Rules
pub mod Server
pub mod Parser
pub mod Generation
use rules_jvm.Prelude.{
  ℕ, ◌≡◌, ◌≢◌, Bool, true, false, ◌&&◌, List, [], ◌∷◌, Text, any, leb, ◌==◌, arith,
}
use rules_jvm.Prelude.{Lacks}
use rules_jvm.Labels.{Label, LabelLib}

-- unicode.IsUpper on ASCII.
abbrev pub is_ascii_upper : ℕ → Bool
is_ascii_upper c = leb b'A' c && leb c b'Z'

pub lacks : (c : ℕ) (s : Text) → any (λ d. d == c) s ≡ false → Lacks c s
unfolding any
lacks c [] h = tt
lacks c (d ∷ s) h = (ground arith, lacks c s (ground arith))
