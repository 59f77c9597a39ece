-- ===== src/Maven/Clean.antt =====
-- CleanupLabel of java/gazelle/private/bazel/bazel.go: every run of characters that are no word
-- characters becomes one underscore.
use rules_jvm.Prelude.{
  ℕ, ◌≡◌, refl, ap, ◌↔◌, Bool, true, false, ◌&&◌, ◌||◌, [], ◌∷◌, Text, leb, ◌==◌, if◌then◌else◌,
  All, Bool-cases, inl, inr,
}

-- \w of package regexp: the ASCII letters and digits and the underscore.
unfoldable pub is_word : ℕ → Bool
is_word c =
    leb b'0' c && leb c b'9' || leb b'A' c && leb c b'Z' || leb b'a' c && leb c b'z' || c == b'_'

-- `in_run` says that the underscore for the current run is written.
unfoldable pub replace_runs : Bool → Text → Text
unfolding is_word
replace_runs in_run [] = []
replace_runs in_run (c ∷ s) =
    let word = replace_runs false s in
    let run = replace_runs true s in
    if is_word c then c ∷ word else if in_run then run else b'_' ∷ run

unfoldable pub cleanup_label : Text → Text
unfolding replace_runs
cleanup_label s = replace_runs false s

abbrev pub IsWords : Text → Type 0
IsWords = All (λ c. is_word c ≡ true)

underscore : is_word b'_' ≡ true
unfolding is_word
underscore = refl

replace_runs-IsWords : (in_run : Bool) (s : Text) → IsWords (replace_runs in_run s)
unfolding replace_runs
replace_runs-IsWords in_run [] = tt
replace_runs-IsWords true (c ∷ s) = elim (Bool-cases (is_word c)) [
  | inl word ↦ rw word (word, replace_runs-IsWords false s)
  | inr other ↦ rw other (replace_runs-IsWords true s)
]
replace_runs-IsWords false (c ∷ s) = elim (Bool-cases (is_word c)) [
  | inl word ↦ rw word (word, replace_runs-IsWords false s)
  | inr other ↦ rw other (underscore, replace_runs-IsWords true s)
]

replace_runs_of_IsWords : (s : Text) → IsWords s → replace_runs false s ≡ s
unfolding replace_runs
replace_runs_of_IsWords [] h = refl
replace_runs_of_IsWords (c ∷ s) (hc, hs) = rw hc (ap (◌∷◌ c) (replace_runs_of_IsWords s hs))

-- A label is left as it is exactly when it has word characters only, and cleaning makes it so.
pub cleanup_label_fixed :
    (s : Text)
    → ((cleanup_label s ≡ s) ↔ IsWords s) × (cleanup_label (cleanup_label s) ≡ cleanup_label s)
unfolding cleanup_label
cleanup_label_fixed s = (
  (λ e. rw e at (replace_runs-IsWords false s), replace_runs_of_IsWords s),
  replace_runs_of_IsWords _ (replace_runs-IsWords false s),
)
