-- ===== src/SortedSet/Reference.antt =====
-- A tree that keeps the promises of github.com/google/btree, for every order: an ascending list. It
-- shows that `BTree` can be met, and runs the operations of SortedSet in tests.
use rules_jvm.Prelude.{
  ◌≡◌, refl, ◌↔◌, Bool, true, false, not, List, [], ◌∷◌, Memᴰ, arith, length, any, keep, Memᴰ-cons,
  not-Memᴰ-nil, Bool-cases, inl, inr,
}
use rules_jvm.SortedSet.{BTree}
use rules_jvm.SortedSet.View.{
  StrictOrder, equiv, Ascending, place, mem-place, place-Ascending, mem-keep, keep-Ascending,
}

module _ {A : Type 0} (less : A → A → Bool) (o : StrictOrder less) where
  any_iff→ : (p : A → Bool) (xs : List A) → any p xs ≡ true → (x : A) × Memᴰ x xs × (p x ≡ true)
  unfolding any
  any_iff→ p [] e = absurd (ground arith)
  any_iff→ p (x ∷ xs) e = elim (Bool-cases (p x)) [
    | inl passes ↦ (x, (Memᴰ-cons x x xs).1 (inl refl), passes)
    | inr fails ↦
        let (y, m, q) = any_iff→ p xs (ground arith) in (y, (Memᴰ-cons y x xs).1 (inr m), q)
  ]

  any_iff← : (p : A → Bool) (xs : List A) (x : A) → Memᴰ x xs → p x ≡ true → any p xs ≡ true
  unfolding any
  any_iff← p [] x m e = absurd (not-Memᴰ-nil x m)
  any_iff← p (y ∷ xs) x m e = ground (arith, Memᴰ-cons x y xs, any_iff← p xs x)

  pub any_iff :
      (p : A → Bool) (xs : List A) → (any p xs ≡ true) ↔ ((x : A) × Memᴰ x xs × (p x ≡ true))
  any_iff p xs = (any_iff→ p xs, λ (x, m, e). any_iff← p xs x m e)

  pub mem-keep_differs :
      (v x : A) (xs : List A)
      → Memᴰ x (keep (λ y. not (equiv less y v)) xs) ↔ (Memᴰ x xs × (equiv less x v ≡ false))
  mem-keep_differs v x xs = ground (arith, mem-keep o (λ y. not (equiv less y v)) xs x)

  abbrev pub differs : A → A → Bool
  differs v x = not (equiv less x v)

  abbrev pub list_tree : BTree less
  list_tree = record {
    Tree = (xs : List A) × Ascending less xs;
    new = ([], tt);
    replace_or_insert = λ t v. (place less v t.0, place-Ascending o v t.0 t.1);
    delete = λ t v. (keep (differs v) t.0, keep-Ascending o (differs v) t.0 t.1);
    has = λ t v. any (λ x. equiv less x v) t.0;
    len = λ t. length t.0;
    ascend = λ t. t.0;
    ascend_new = refl;
    ascend_sorted = λ t. t.1;
    mem_insert = λ t v x. mem-place o v t.0 t.1 x;
    mem_delete = λ t v x. mem-keep_differs v x t.0;
    has_iff = λ t v. any_iff _ t.0;
    len_eq = λ t. refl;
  }
