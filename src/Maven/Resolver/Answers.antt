-- ===== src/Maven/Resolver/Answers.antt =====
-- What `Resolve` and `ResolveClass` of java/gazelle/private/maven/resolver.go return.
use mathlib.Core.List.{Permᴰ}
use rules_jvm.Prelude.{
  ◌≡◌, refl, sym, ap, ap₂, Memᴰ-cons, not-Memᴰ-nil, ◌∙◌, ◌≢◌, ◌⊎◌, inl, inr, none, some, List, [],
  ◌∷◌, Memᴰ, Text, text_dec, text_less, lookup, arith, Option-cases,
}
use rules_jvm.Prelude.Sort.{insert, sort}
use rules_jvm.Names.{PackageName}
use rules_jvm.Labels.{Label, LabelLib}
use rules_jvm.SortedSet.Label.{text_less_order, text_less-equiv}
use rules_jvm.Multiset.{get}
use rules_jvm.Maven.Resolver.{Resolver, found, label_from_artifact, not_excluded, answer, resolve}

insert_comm :
    (a b : Text) (xs : List Text)
    → insert text_less a (insert text_less b xs) ≡ insert text_less b (insert text_less a xs)
unfolding insert
insert_comm a b [] =
    ground (arith, text_less-equiv a b, text_less_order.trans a b a, text_less_order.irrefl a)
insert_comm a b (x ∷ xs) = ground (
  arith,
  insert_comm a b xs,
  text_less-equiv a b,
  text_less_order.trans a b a,
  text_less_order.irrefl a,
  text_less_order.divide x a b,
  text_less_order.divide x b a,
  text_less_order.trans x a b,
  text_less_order.trans x b a,
)

insert-one : (v t : Text) (xs : List Text) → insert text_less v xs ≡ t ∷ [] → xs ≡ []
unfolding insert
insert-one v t [] e = refl
insert-one v t (x ∷ []) e = absurd (ground arith)
insert-one v t (x ∷ y ∷ xs) e = absurd (ground arith)

insert-ne-nil : (v : Text) (xs : List Text) → insert text_less v xs ≢ []
unfolding insert
insert-ne-nil v [] = cc
insert-ne-nil v (x ∷ xs) = ground arith

sort-one : (xs : List Text) (t : Text) → sort text_less xs ≡ t ∷ [] → xs ≡ t ∷ []
unfolding sort insert
sort-one [] t e = cc
sort-one (x ∷ []) t e = e
sort-one (x ∷ y ∷ xs) t e =
    absurd (insert-ne-nil y (sort text_less xs) (insert-one x t (sort text_less (y ∷ xs)) e))

abbrev pub Artifacts : Type 0
Artifacts = List (Text × Unit {0})

module _ (lib : LabelLib) (excluded : Artifacts) (repository : Text) where
  -- How the label of an artifact prints.
  pub printed : Text → Text
  printed k = lib.to_string (label_from_artifact lib repository k)

  abbrev pub IsExcluded : Text → Type 0
  IsExcluded k = lookup text_dec (printed k) excluded ≢ none

  insert_allowed : Text → List Text → List Text
  insert_allowed k xs = elim (lookup text_dec (printed k) excluded) [
    | some _ ↦ xs
    | none ↦ insert text_less (printed k) xs
  ]

  sorted_labels : Artifacts → List Text
  sorted_labels v = sort text_less (not_excluded lib v excluded repository)

  sorted_labels-cons :
      (k : Text) (u : Unit {0}) (v : Artifacts)
      → sorted_labels ((k, u) ∷ v) ≡ insert_allowed k (sorted_labels v)
  unfolding sorted_labels insert_allowed not_excluded printed sort
  sorted_labels-cons k u v = ground arith

  insert_allowed_comm :
      (j k : Text) (xs : List Text)
      → insert_allowed j (insert_allowed k xs) ≡ insert_allowed k (insert_allowed j xs)
  unfolding insert_allowed
  insert_allowed_comm j k xs = ground (arith, insert_comm (printed j) (printed k) xs)

  sorted_labels-Permᴰ : {v w : Artifacts} → Permᴰ v w → sorted_labels v ≡ sorted_labels w
  sorted_labels-Permᴰ Permᴰ.nil = refl
  sorted_labels-Permᴰ (Permᴰ.cons {a} {b} {l₁} {l₂} e p) =
      sorted_labels-cons a.0 a.1 l₁
      ∙ ap₂ insert_allowed (ap (λ (x : Text × Unit {0}). x.0) e) (sorted_labels-Permᴰ p)
      ∙ sym (sorted_labels-cons b.0 b.1 l₂)
  sorted_labels-Permᴰ (Permᴰ.swap {a} {b} {a'} {b'} {l} e f) =
      two a b l
      ∙ insert_allowed_comm a.0 b.0 (sorted_labels l)
      ∙ ap₂ (λ (x y : Text × Unit {0}). insert_allowed x.0 (insert_allowed y.0 (sorted_labels l))) f
          e
      ∙ sym (two a' b' l)
    where
      two :
          (x y : Text × Unit {0}) (v : Artifacts)
          → sorted_labels (x ∷ y ∷ v) ≡ insert_allowed x.0 (insert_allowed y.0 (sorted_labels v))
      two x y v =
          sorted_labels-cons x.0 x.1 (y ∷ v)
          ∙ ap (insert_allowed x.0) (sorted_labels-cons y.0 y.1 v)
  sorted_labels-Permᴰ (Permᴰ.trans p q) = sorted_labels-Permᴰ p ∙ sorted_labels-Permᴰ q

  not_excluded-nil :
      (v : Artifacts)
      → not_excluded lib v excluded repository ≡ []
      → (k : Text) (u : Unit {0}) → Memᴰ (k, u) v
      → IsExcluded k
  unfolding not_excluded printed
  not_excluded-nil [] e k u m = absurd (not-Memᴰ-nil (k, u) m)
  not_excluded-nil ((j, w) ∷ v) e k u m =
      ground (arith, Memᴰ-cons (k, u) (j, w) v, not_excluded-nil v (ground arith) k u)

  abbrev pub IsOnly : Artifacts → Text → Type 0
  IsOnly v k =
      Memᴰ (k, tt) v × (¬ IsExcluded k) × ((j : Text) → Memᴰ (j, tt) v → (j ≡ k) ⊎ IsExcluded j)

  not_excluded-one :
      (v : Artifacts) (t : Text)
      → not_excluded lib v excluded repository ≡ t ∷ []
      → (k : Text) × (t ≡ printed k) × IsOnly v k
  unfolding not_excluded printed
  not_excluded-one [] t e = absurd (ground arith)
  not_excluded-one ((j, w) ∷ v) t e = elim (Option-cases (lookup text_dec (printed j) excluded)) [
    | inl allowed ↦ (
      j,
      ground arith,
      (
        (Memᴰ-cons (j, tt) (j, w) v).1 (inl refl),
        λ n. n allowed,
        λ i m. ground (arith, Memᴰ-cons (i, tt) (j, w) v, not_excluded-nil v (ground arith) i tt),
      ),
    )
    | inr (_, out) ↦
        let (k, f, only) = not_excluded-one v t (ground arith) in
        (
          k,
          f,
          (
            (Memᴰ-cons (k, tt) (j, w) v).1 (inr only.0),
            only.1,
            λ i q. ground (arith, Memᴰ-cons (i, tt) (j, w) v, only.2 i),
          ),
        )
  ]

  answer-found :
      (pkg : Text) (ls : List Text) (l : Label)
      → answer lib pkg ls ≡ found l
      → (t : Text) × (ls ≡ t ∷ []) × (lib.parse t ≡ some l)
  unfolding answer
  answer-found pkg [] l e = absurd (ground arith)
  answer-found pkg (t ∷ []) l e = elim (Option-cases (lib.parse t)) [
    | inl bad ↦ absurd (ground arith)
    | inr (k, f) ↦ (t, refl, ground arith)
  ]
  answer-found pkg (t ∷ u ∷ ls) l e = absurd (ground arith)

  -- `Resolve` returns a label only if one artifact of the package is not excluded, and then it is the
  -- label that this artifact's printed label parses to.
  pub resolve-found :
      (r : Resolver) (pkg : PackageName) (l : Label)
      → resolve lib r pkg excluded repository ≡ found l
      → (v : Artifacts) × (k : Text) × (get r.data_ pkg.name ≡ some v)
        × IsOnly v k
        × (lib.parse (printed k) ≡ some l)
  unfolding resolve
  resolve-found r pkg l e = elim (Option-cases (get r.data_ pkg.name)) [
    | inl unknown ↦ absurd (ground arith)
    | inr (v, known) ↦
        let (t, one, parsed) =
          answer-found pkg.name (sort text_less (not_excluded lib v excluded repository)) l
            (ground arith) in
        let (k, f, only) = not_excluded-one v t (sort-one _ t one) in
        (v, k, known, only, ground arith)
  ]

  -- The answer does not depend on the order in which the map of artifacts is iterated.
  pub resolve_order :
      (r r' : Resolver) (pkg : PackageName) (v w : Artifacts)
      → get r.data_ pkg.name ≡ some v
      → get r'.data_ pkg.name ≡ some w
      → Permᴰ v w
      → resolve lib r pkg excluded repository ≡ resolve lib r' pkg excluded repository
  unfolding resolve sorted_labels
  resolve_order r r' pkg v w ev ew p =
      rw (ev, ew, resolve) (ap (answer lib pkg.name) (sorted_labels-Permᴰ p))
