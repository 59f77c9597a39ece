-- ===== src/Names/Late.antt =====
-- LateInit of java/gazelle/private/types/types.go: a value that is set at most once.
use rules_jvm.Prelude.{
  ◌≡◌, refl, Bool, true, false, Option, none, some, List, [], ◌∷◌, if◌then◌else◌, ◌>>=◌,
}

pub record LateInit {ℓ} (T : Type ℓ) : Type ℓ where
  pub value : T
  pub initialized : Bool

module _ {ℓ} {T : Type ℓ} where
  unfoldable pub new_late_init : T → LateInit T
  new_late_init v = record { value = v; initialized = false }

  -- `none` is the panic.
  unfoldable pub initialize : LateInit T → T → Option (LateInit T)
  initialize l v = if l.initialized then none else some (record { value = v; initialized = true })

  -- A row of calls of `Initialize`.
  pub initialize_all : LateInit T → List T → Option (LateInit T)
  initialize_all l [] = some l
  initialize_all l (v ∷ vs) = do l' ← initialize l v; initialize_all l' vs

  -- From a new value: no call leaves the first value readable, one call sets the value, and every
  -- longer row of calls panics.
  pub initialize_all_once :
      (d v w : T) (vs : List T)
      → (initialize_all (new_late_init d) [] ≡ some (record { value = d; initialized = false }))
        × (initialize_all (new_late_init d) (v ∷ [])
            ≡ some (record { value = v; initialized = true }))
        × (initialize_all (new_late_init d) (v ∷ w ∷ vs) ≡ none)
  unfolding initialize_all initialize new_late_init
  initialize_all_once d v w vs = (refl, refl, refl)
