-- ===== src/Prelude/Assoc.antt =====
-- Go's maps as association lists with one entry for a key, in an order of iteration.
use mathlib.Core.Path.{◌≡◌, refl}
use mathlib.Core.Logic.{ite, ◌↔◌, ◌⊎◌}
use mathlib.Core.Option.{Option, none, some}
use mathlib.Core.List.{List, [], ◌∷◌, Memᴰ, map}
use native.Mathlib.Omega.{arith}
use rules_jvm.Prelude.Lists.{Memᴰ-cons}

module _ {ℓ} {K V : Type ℓ} (dec : Discrete K) where
  -- m[k], with the second result of the comma-ok form.
  unfoldable pub lookup : K → List (K × V) → Option V
  lookup k [] = none
  lookup k ((j, v) ∷ m) = let rest = lookup k m in ite (dec j k) (some v) rest

  -- m[k] = v
  unfoldable pub put : K → V → List (K × V) → List (K × V)
  put k v [] = (k, v) ∷ []
  put k v ((j, w) ∷ m) = let rest = put k v m in ite (dec j k) ((k, v) ∷ m) ((j, w) ∷ rest)

  pub lookup-put :
      (k j : K) (v : V) (m : List (K × V))
      → lookup j (put k v m) ≡ ite (dec k j) (some v) (lookup j m)
  unfolding lookup put
  lookup-put k j v [] = refl
  lookup-put k j v ((i, w) ∷ m) = ground (arith, lookup-put k j v m)

abbrev pub keys {ℓ} : {K V : Type ℓ} → List (K × V) → List K
keys m = map (λ e. e.0) m

-- A map from keys: every entry is found at its key.
module _ {ℓ} {K V : Type ℓ} (dec : Discrete K) where
  pub lookup-put_self : (k : K) (v : V) (m : List (K × V)) → lookup dec k (put dec k v m) ≡ some v
  lookup-put_self k v m = ground (arith, lookup-put dec k k v m)

  pub lookup-Memᴰ : (k : K) (v : V) (m : List (K × V)) → lookup dec k m ≡ some v → Memᴰ (k, v) m
  unfolding lookup
  lookup-Memᴰ k v [] h = cc
  lookup-Memᴰ k v ((j, w) ∷ m) h = elim (dec j k) [
    | yes p ↦ Memᴰ.head (ground arith)
    | no n ↦ Memᴰ.tail (lookup-Memᴰ k v m (ground arith))
  ]

  pub mem-keys-put :
      (k j : K) (v : V) (m : List (K × V))
      → Memᴰ j (keys (put dec k v m)) ↔ ((j ≡ k) ⊎ Memᴰ j (keys m))
  unfolding put
  mem-keys-put k j v [] = Memᴰ-cons j k []
  mem-keys-put k j v ((i, w) ∷ m) = ground (
    arith,
    mem-keys-put k j v m,
    Memᴰ-cons j k (keys m),
    Memᴰ-cons j i (keys m),
    Memᴰ-cons j i (keys (put dec k v m)),
  )
