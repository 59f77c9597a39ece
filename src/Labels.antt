-- ===== src/Labels.antt =====
-- Labels of github.com/bazelbuild/bazel-gazelle/label as the program uses them: a struct whose four
-- fields it reads and writes. `New`, `String` and `Parse` are that library's, and a parameter.
use rules_jvm.Prelude.{◌≡◌, Bool, false, Option, [], Text, text_dec}

pub record Label : Type 0 where
  pub repo : Text
  pub pkg : Text
  pub name : Text
  pub relative : Bool

unfoldable pub Label-discrete : Discrete Label
unfolding text_dec
Label-discrete = hlevel text_dec

-- What the program relies on: `New` keeps its arguments and makes an absolute label.
pub record LabelLib : Type 0 where
  pub new : Text → Text → Text → Label
  pub to_string : Label → Text
  pub parse : Text → Option Label
  pub new_lem :
      (r p n : Text) → new r p n ≡ record { repo = r; pkg = p; name = n; relative = false }

abbrev pub no_label : Label
no_label = record { repo = []; pkg = []; name = []; relative = false }
