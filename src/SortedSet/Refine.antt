-- ===== src/SortedSet/Refine.antt =====
-- The operations of SortedSet (java/gazelle/private/sorted_set/btreeset.go) compute the abstract view.
use rules_jvm.Prelude.{
  ◌≡◌, refl, ◌↔◌, ◌⊎◌, inl, inr, Bool, true, false, none, some, List, [], ◌∷◌, Memᴰ, arith, All,
  All-Memᴰ, Memᴰ-cons, keep, length,
}
use rules_jvm.SortedSet.{
  BTree, SortedSet, add, add_each, new_sorted_set, contains, sorted_slice, add_all, delete_failing,
  filter, len,
}
use rules_jvm.SortedSet.View.{
  StrictOrder, equiv, Ascending, place, place_all, mem-place, Ascending-eq, place-Ascending,
  equiv-eq, mem-keep, keep-Ascending, place_all_same,
}

module _ {A : Type 0} {less : A → A → Bool} (o : StrictOrder less) (b : BTree less) where
  open b use {
    Tree, new, replace_or_insert, delete, ascend, ascend_new, ascend_sorted, mem_insert, mem_delete,
    has_iff, len_eq,
  }

  pub ascend-insert : (t : Tree) (v : A) → ascend (replace_or_insert t v) ≡ place less v (ascend t)
  ascend-insert t v =
      Ascending-eq o _ _ (ascend_sorted _) (place-Ascending o v _ (ascend_sorted t))
        (λ y. ground (arith, mem_insert t v y, mem-place o v (ascend t) (ascend_sorted t) y))

  add_each_view :
      (vs : List A) (t : Tree)
      → (t' : Tree) × (add_each b vs (some t) ≡ some (some t'))
        × (ascend t' ≡ place_all less vs (ascend t))
  unfolding add_each add place_all
  add_each_view [] t = (t, refl, refl)
  add_each_view (v ∷ vs) t =
      let (t', e, view) = add_each_view vs (replace_or_insert t v) in
      (t', e, rw (view, ascend-insert t v))

  -- A new set does not panic and holds the values in ascending order, the later ones in place of
  -- earlier ones that are equal to the order.
  pub new_sorted_set_view :
      (vs : List A)
      → (s : SortedSet b) × (new_sorted_set b vs ≡ some s)
        × (sorted_slice b s ≡ place_all less vs [])
  unfolding new_sorted_set sorted_slice
  new_sorted_set_view vs =
      let (t, e, view) = add_each_view vs new in (some t, e, rw (view, ascend_new))

  -- `AddAll` puts every value of the other set at its place, and nothing if that one is nil.
  pub add_all_view :
      (t : Tree) (other : SortedSet b)
      → (s : SortedSet b) × (add_all b (some t) other ≡ some s)
        × (sorted_slice b s ≡ place_all less (sorted_slice b other) (ascend t))
  unfolding add_all sorted_slice place_all
  add_all_view t none = (some t, refl, refl)
  add_all_view t (some other) =
      let (t', e, view) = add_each_view (ascend other) t in (some t', e, view)

  -- `vs` are the values that the loop of `Filter` still has to look at.
  Survives : (A → Bool) → List A → A → Type 0
  Survives p vs y = All (λ v. (p v ≡ true) ⊎ (equiv less y v ≡ false)) vs

  mem-delete_failing :
      (p : A → Bool) (vs : List A) (t : Tree) (y : A)
      → Memᴰ y (ascend (delete_failing b p vs t)) ↔ (Memᴰ y (ascend t) × Survives p vs y)
  unfolding delete_failing Survives
  mem-delete_failing p [] t y = (λ m. (m, tt), λ h. h.0)
  mem-delete_failing p (v ∷ vs) t y =
      ground (
        arith,
        mem-delete_failing p vs t y,
        mem-delete_failing p vs (delete t v) y,
        mem_delete t v y,
      )

  Survives-iff :
      (p : A → Bool) (xs vs : List A) (y : A)
      → Ascending less xs
      → Memᴰ y xs
      → ((v : A) → Memᴰ v vs → Memᴰ v xs)
      → p y ≡ true
      → Survives p vs y
  unfolding Survives
  Survives-iff p xs [] y h m sub py = tt
  Survives-iff p xs (v ∷ vs) y h m sub py = (
    ground (arith, equiv-eq o xs h y v m (sub v ((Memᴰ-cons v v vs).1 (inl refl)))),
    Survives-iff p xs vs y h m (λ w mw. sub w ((Memᴰ-cons w v vs).1 (inr mw))) py,
  )

  Survives-self : (p : A → Bool) (vs : List A) (y : A) → Memᴰ y vs → Survives p vs y → p y ≡ true
  unfolding Survives
  Survives-self p vs y m h = ground (arith, All-Memᴰ _ vs h y m, o.irrefl y)

  ascend-delete_failing :
      (p : A → Bool) (t : Tree) → ascend (delete_failing b p (ascend t) t) ≡ keep p (ascend t)
  ascend-delete_failing p t =
      Ascending-eq o _ _ (ascend_sorted _) (keep-Ascending o p _ (ascend_sorted t)) (λ y. ground (
        arith,
        mem-delete_failing p (ascend t) t y,
        mem-keep o p (ascend t) y,
        λ (m : Memᴰ y (ascend t)) (q : p y ≡ true).
            Survives-iff p (ascend t) (ascend t) y (ascend_sorted t) m (λ v n. n) q,
        Survives-self p (ascend t) y,
      ))

  -- `Filter` returns a set of exactly the values that pass.
  pub filter_view :
      (t : Tree) (p : A → Bool)
      → (s : SortedSet b) × (filter b (some t) p ≡ some s) × (sorted_slice b s ≡ keep p (ascend t))
  unfolding filter sorted_slice
  filter_view t p = (some (delete_failing b p (ascend t) t), refl, ascend-delete_failing p t)

  -- Under a total order, two new sets of the same values have the same slice, in whatever order
  -- and how often the values were given.
  pub new_sorted_set_same :
      ((x y : A) → equiv less x y ≡ true → x ≡ y)
      → (vs ws : List A) → ((x : A) → Memᴰ x vs ↔ Memᴰ x ws)
      → (s t : SortedSet b) → new_sorted_set b vs ≡ some s
      → new_sorted_set b ws ≡ some t
      → sorted_slice b s ≡ sorted_slice b t
  new_sorted_set_same total vs ws same s t es et =
      let (s', es', vs') = new_sorted_set_view vs in
      let (t', et', ws') = new_sorted_set_view ws in cc (place_all_same o total vs ws same)

  -- A value that was added is contained, and the number of values is the length of the slice.
  pub contains-add :
      (t : Tree) (v : A) (s : SortedSet b)
      → add b (some t) v ≡ some s
      → (contains b s v ≡ true) × (len b s ≡ length (sorted_slice b s))
  unfolding add contains len sorted_slice
  contains-add t v none e = cc
  contains-add t v (some u) e =
      ((has_iff u v).1 (v, ground (arith, mem_insert t v v), ground (arith, o.irrefl v)), len_eq u)
