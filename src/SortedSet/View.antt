-- ===== src/SortedSet/View.antt =====
-- The abstract view of a sorted set (java/gazelle/private/sorted_set/btreeset.go): the list of its
-- values in ascending order. Components that use sorted sets work with this view.
use mathlib.Core.List.Memᴰ
use rules_jvm.Prelude.{
  ◌≡◌, refl, ap₂, ◌↔◌, ◌⊎◌, Bool, true, false, not, ◌&&◌, List, [], ◌∷◌, Memᴰ, arith, if◌then◌else◌,
  All, All-Memᴰ, Memᴰ-cons, keep, not-Memᴰ-nil,
}

-- A strict weak order, which btree asks of a LessFunc.
pub record StrictOrder {A : Type 0} (less : A → A → Bool) : Type 0 where
  pub irrefl : (a : A) → less a a ≡ false
  pub trans : (a b c : A) → less a b ≡ true → less b c ≡ true → less a c ≡ true
  pub divide : (a b c : A) → less a c ≡ true → (less a b ≡ true) ⊎ (less b c ≡ true)

module _ {A : Type 0} (less : A → A → Bool) where
  abbrev pub equiv : A → A → Bool
  equiv a b = not (less a b) && not (less b a)

  abbrev pub Ascending : List A → Type 0
  Ascending [] = Unit
  Ascending (x ∷ xs) = All (λ y. less x y ≡ true) xs × Ascending xs

  -- Puts a value at its place, where it replaces a value equal to it.
  unfoldable pub place : A → List A → List A
  place v [] = v ∷ []
  place v (x ∷ xs) =
      let rest = place v xs in
      if less v x then v ∷ x ∷ xs else if less x v then x ∷ rest else v ∷ xs

  unfoldable pub place_all : List A → List A → List A
  unfolding place
  place_all [] xs = xs
  place_all (v ∷ vs) xs = place_all vs (place v xs)

module _ {A : Type 0} {less : A → A → Bool} (o : StrictOrder less) where
  open o use {irrefl, trans, divide}

  below-Memᴰ : (x y : A) (xs : List A) → All (λ z. less x z ≡ true) xs → Memᴰ y xs → less x y ≡ true
  below-Memᴰ x y xs h m = All-Memᴰ _ xs h y m

  pub mem-place :
      (v : A) (xs : List A)
      → Ascending less xs
      → (y : A) → Memᴰ y (place less v xs) ↔ ((y ≡ v) ⊎ Memᴰ y xs × (equiv less y v ≡ false))
  unfolding place
  mem-place v [] h y = ground (arith, Memᴰ-cons y v [], not-Memᴰ-nil y)
  mem-place v (x ∷ xs) h y = ground (
    arith,
    Memᴰ-cons y v (x ∷ xs),
    Memᴰ-cons y x xs,
    Memᴰ-cons y x (place less v xs),
    Memᴰ-cons y v xs,
    mem-place v xs h.1 y,
    below-Memᴰ x y xs h.0,
    trans v x y,
    divide x v y,
  )

  same_heads :
      (x y : A) (xs ys : List A)
      → Ascending less (x ∷ xs)
      → Ascending less (y ∷ ys)
      → ((a : A) → Memᴰ a (x ∷ xs) ↔ Memᴰ a (y ∷ ys))
      → x ≡ y
  same_heads x y xs ys hx hy same = ground (
    arith,
    same x,
    same y,
    Memᴰ-cons x x xs,
    Memᴰ-cons y y ys,
    Memᴰ-cons x y ys,
    Memᴰ-cons y x xs,
    below-Memᴰ x y xs hx.0,
    below-Memᴰ y x ys hy.0,
    trans x y x,
    irrefl x,
  )

  same_tails :
      (x y : A) (xs ys : List A)
      → Ascending less (x ∷ xs)
      → Ascending less (y ∷ ys)
      → ((a : A) → Memᴰ a (x ∷ xs) ↔ Memᴰ a (y ∷ ys))
      → x ≡ y
      → (a : A) → Memᴰ a xs ↔ Memᴰ a ys
  same_tails x y xs ys hx hy same e a = ground (
    arith,
    same a,
    Memᴰ-cons a x xs,
    Memᴰ-cons a y ys,
    below-Memᴰ x a xs hx.0,
    below-Memᴰ y a ys hy.0,
    irrefl a,
  )

  -- Two ascending lists with the same members are one list.
  pub Ascending-eq :
      (xs ys : List A)
      → Ascending less xs
      → Ascending less ys
      → ((a : A) → Memᴰ a xs ↔ Memᴰ a ys)
      → xs ≡ ys
  Ascending-eq [] [] hx hy same = refl
  Ascending-eq [] (y ∷ ys) hx hy same = absurd (Memᴰ.not-nil ((same y).1 (Memᴰ.head refl)))
  Ascending-eq (x ∷ xs) [] hx hy same = absurd (Memᴰ.not-nil ((same x).0 (Memᴰ.head refl)))
  Ascending-eq (x ∷ xs) (y ∷ ys) hx hy same =
      let e = same_heads x y xs ys hx hy same in
      ap₂ ◌∷◌ e (Ascending-eq xs ys hx.1 hy.1 (same_tails x y xs ys hx hy same e))

  All-place : (P : A → Type 0) (v : A) (xs : List A) → P v → All P xs → All P (place less v xs)
  unfolding place
  All-place P v [] pv h = (pv, tt)
  All-place P v (x ∷ xs) pv h = ground (arith, All-place P v xs pv h.1)

  below_trans :
      (v x : A) (xs : List A)
      → less v x ≡ true
      → All (λ z. less x z ≡ true) xs
      → All (λ z. less v z ≡ true) xs
  below_trans v x [] l h = tt
  below_trans v x (z ∷ xs) l h = (trans v x z l h.0, below_trans v x xs l h.1)

  below_equiv :
      (v x : A) (xs : List A)
      → less x v ≡ false
      → All (λ z. less x z ≡ true) xs
      → All (λ z. less v z ≡ true) xs
  below_equiv v x [] l h = tt
  below_equiv v x (z ∷ xs) l h = (ground (arith, divide x v z h.0), below_equiv v x xs l h.1)

  pub place-Ascending : (v : A) (xs : List A) → Ascending less xs → Ascending less (place less v xs)
  unfolding place
  place-Ascending v [] h = (tt, tt)
  place-Ascending v (x ∷ xs) h = ground (
    arith,
    place-Ascending v xs h.1,
    below_trans v x xs,
    below_equiv v x xs,
    All-place (λ z. less x z ≡ true) v xs,
  )

  -- Members of an ascending list that are equal to the order are equal.
  pub equiv-eq :
      (xs : List A)
      → Ascending less xs
      → (y v : A) → Memᴰ y xs
      → Memᴰ v xs
      → equiv less y v ≡ true
      → y ≡ v
  equiv-eq [] h y v my mv e = absurd (Memᴰ.not-nil my)
  equiv-eq (x ∷ xs) h y v my mv e = ground (
    arith,
    Memᴰ-cons y x xs,
    Memᴰ-cons v x xs,
    below-Memᴰ x y xs h.0,
    below-Memᴰ x v xs h.0,
    equiv-eq xs h.1 y v,
  )

  pub mem-keep :
      (p : A → Bool) (xs : List A) (y : A) → Memᴰ y (keep p xs) ↔ (Memᴰ y xs × (p y ≡ true))
  unfolding keep
  mem-keep p [] y = ground (arith, not-Memᴰ-nil y)
  mem-keep p (x ∷ xs) y =
      ground (arith, mem-keep p xs y, Memᴰ-cons y x xs, Memᴰ-cons y x (keep p xs))

  All-keep : (P : A → Type 0) (p : A → Bool) (xs : List A) → All P xs → All P (keep p xs)
  unfolding keep
  All-keep P p [] h = tt
  All-keep P p (x ∷ xs) h = ground (arith, All-keep P p xs h.1)

  pub keep-Ascending : (p : A → Bool) (xs : List A) → Ascending less xs → Ascending less (keep p xs)
  unfolding keep
  keep-Ascending p [] h = tt
  keep-Ascending p (x ∷ xs) h =
      ground (arith, keep-Ascending p xs h.1, All-keep (λ z. less x z ≡ true) p xs h.0)

  pub place_all-Ascending :
      (vs xs : List A) → Ascending less xs → Ascending less (place_all less vs xs)
  unfolding place_all
  place_all-Ascending [] xs h = h
  place_all-Ascending (v ∷ vs) xs h = place_all-Ascending vs _ (place-Ascending v xs h)

  -- Under a total order nothing is replaced, so the members are those of both lists.
  module _ (total : (a b : A) → equiv less a b ≡ true → a ≡ b) where
    pub mem-place_all :
        (vs xs : List A)
        → Ascending less xs
        → (y : A) → Memᴰ y (place_all less vs xs) ↔ (Memᴰ y vs ⊎ Memᴰ y xs)
    unfolding place_all
    mem-place_all [] xs h y = ground (arith, not-Memᴰ-nil y)
    mem-place_all (v ∷ vs) xs h y = ground (
      arith,
      mem-place_all vs (place less v xs) (place-Ascending v xs h) y,
      mem-place v xs h y,
      Memᴰ-cons y v vs,
      total y v,
    )

    -- The values decide the set: neither their order nor their number matters.
    pub place_all_same :
        (vs ws : List A)
        → ((a : A) → Memᴰ a vs ↔ Memᴰ a ws)
        → place_all less vs [] ≡ place_all less ws []
    place_all_same vs ws same =
        Ascending-eq _ _ (place_all-Ascending vs [] tt) (place_all-Ascending ws [] tt)
          (λ y. ground (arith, mem-place_all vs [] tt y, mem-place_all ws [] tt y, same y))
