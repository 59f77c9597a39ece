-- ===== src/Scc/Naming.antt =====
-- Naming the groups (`assignNames` of java/gazelle/private/scc/scc.go).
use mathlib.Core.List.Memᴰ
use rules_jvm.Prelude.{
  ℕ, zero, suc, ◌+◌, ◌++◌, ◌-◌, ◌<◌, ◌≤◌, ◌≡◌, ◌≢◌, ◌⊎◌, inl, inr, refl, ap, ap₂, ◌∙◌, Bool, true,
  false, Option, none, some, List, [], ◌∷◌, map, Text, subst, sym, any, split, join, length, drop,
  ltb, if◌then◌else◌, arith, Bool-cases, Memᴰ, Memᴰ-cons, All,
}
use rules_jvm.Prelude.{split-ne-nil}
use rules_jvm.Scc.{Group}
use rules_jvm.Scc.Groups.{
  slash, underscore, Naming, name_of, count, grows, deepen, lengthen, room, assign_names,
  first_name, first_dir, min,
}

room-deepen : (all es : List Naming) → room (map (deepen all) es) ≤ room es
unfolding room deepen
room-deepen all [] = omega arith
room-deepen all (e ∷ es) = elim (Bool-cases (grows all e)) [
  | inl g ↦ ground (arith, room-deepen all es)
  | inr n ↦ ground (arith, room-deepen all es)
]

grows-room : (all : List Naming) (e : Naming) → grows all e ≡ true → e.depth < length e.segments
unfolding grows
grows-room all e h = ground arith

-- A round in which a name grows leaves less room.
room-less :
    (all es : List Naming) → any (grows all) es ≡ true → room (map (deepen all) es) < room es
unfolding room deepen any
room-less all [] h = cc
room-less all (e ∷ es) h = elim (Bool-cases (grows all e)) [
  | inl g ↦ ground (arith, room-deepen all es, grows-room all e g)
  | inr n ↦ ground (arith, room-less all es)
]

segments-deepen :
    (all es : List Naming)
    → map (λ (e : Naming). e.segments) (map (deepen all) es) ≡ map (λ (e : Naming). e.segments) es
unfolding deepen
segments-deepen all [] = refl
segments-deepen all (e ∷ es) = ap₂ ◌∷◌ (same_segments (grows all e)) (segments-deepen all es)
  where
    same_segments :
        (b : Bool) → (if b then record e { depth = suc e.depth } else e).segments ≡ e.segments
    same_segments true = refl
    same_segments false = refl

any-Memᴰ :
    (p : Naming → Bool) (es : List Naming)
    → any p es ≡ false
    → (e : Naming) → Memᴰ e es
    → p e ≡ false
unfolding any
any-Memᴰ p [] h e m = absurd (Memᴰ.not-nil m)
any-Memᴰ p (x ∷ xs) h e m = elim (Memᴰ.cases_cons m) [
  | inl eq ↦ ground arith
  | inr later ↦ any-Memᴰ p xs (ground arith) e later
]

segments-first_name :
    (gs : List Group)
    → map (λ (e : Naming). e.segments) (map first_name gs)
      ≡ map (λ (g : Group). split slash (first_dir g.dirs)) gs
segments-first_name [] = refl
segments-first_name (g ∷ gs) = ap (◌∷◌ (split slash (first_dir g.dirs))) (segments-first_name gs)

abbrev names_of : List Naming → List Text
names_of es = map name_of es

-- A name that occurs is counted.
count-name_of : (n : Text) (es : List Naming) → Memᴰ n (names_of es) → 0 < count n es
unfolding count
count-name_of n [] m = absurd (Memᴰ.not-nil m)
count-name_of n (e ∷ es) m =
    ground (arith, count-name_of n es, Memᴰ-cons n (name_of e) (names_of es), m)

-- The names go to the groups one by one. Each consists of the last segments, at least one, of the first directory of its
-- group, and is neither among the names before it nor among those behind it, unless it has all the segments.
pub NamesOf : List Text → List Group → List Text → Type 0
NamesOf before [] [] = Unit
NamesOf before (g ∷ gs) [] = ⊥
NamesOf before [] (n ∷ ns) = ⊥
NamesOf before (g ∷ gs) (n ∷ ns) =
    ((front : List Text) × (last : Text) × (others : List Text) × (split slash (first_dir g.dirs)
        ≡ front ++ last ∷ others)
      × (n ≡ join underscore (last ∷ others))
      × (((¬ Memᴰ n before) × (¬ Memᴰ n ns)) ⊎ (front ≡ [])))
    × NamesOf (n ∷ before) gs ns

-- Every name has a segment.
abbrev IsDeep : List Naming → Type 0
IsDeep es = All (λ e. 0 < e.depth) es

deepen-IsDeep : (all es : List Naming) → IsDeep es → IsDeep (map (deepen all) es)
unfolding deepen
deepen-IsDeep all [] h = tt
deepen-IsDeep all (e ∷ es) (d, h) = (go (grows all e), deepen-IsDeep all es h)
  where
    go : (b : Bool) → 0 < (if b then record e { depth = suc e.depth } else e).depth
    go true = omega arith
    go false = d

lengthen_total :
    (fuel : ℕ) (es : List Naming)
    → room es < fuel
    → IsDeep es
    → (out : List Naming) × (lengthen fuel es ≡ some out)
      × (map (λ (e : Naming). e.segments) out ≡ map (λ (e : Naming). e.segments) es)
      × IsDeep out
      × (any (grows out) out ≡ false)
unfolding lengthen
lengthen_total zero es h deep = absurd (omega arith)
lengthen_total (suc fuel) es h deep = elim (Bool-cases (any (grows es) es)) [
  | inl more ↦
      let less = room-less es es more in
      let (out, run, segs, still, stop) =
        lengthen_total fuel (map (deepen es) es) (omega arith) (deepen-IsDeep es es deep) in
      (out, ground arith, segs ∙ segments-deepen es es, still, stop)
  | inr stop ↦ (es, ground arith, refl, deep, stop)
]

first_name-IsDeep : (gs : List Group) → IsDeep (map first_name gs)
first_name-IsDeep [] = tt
first_name-IsDeep (g ∷ gs) = (omega arith, first_name-IsDeep gs)

-- The last k segments, when there is one.
cut :
    (k : ℕ) (xs : List Text)
    → 0 < k
    → k ≤ length xs
    → (front : List Text) × (last : Text) × (others : List Text) × (xs ≡ front ++ last ∷ others)
      × (drop (length xs - k) xs ≡ last ∷ others)
      × (length xs ≤ k → front ≡ [])
cut k [] p q = absurd (omega arith)
cut k (x ∷ xs) p q = elim (lt_or_eq k (length xs) q) [
  | inl less ↦
      let (front, last, others, eq, dropped, none_left) = cut k xs p less in
      (
        x ∷ front,
        last,
        others,
        ap (◌∷◌ x) eq,
        ap (λ n. drop n (x ∷ xs)) (suc_minus less) ∙ dropped,
        λ h. absurd (omega arith),
      )
  | inr eq ↦ ([], x, xs, refl, ap (λ n. drop n (x ∷ xs)) (no_minus eq), λ h. refl)
]
  where
    lt_or_eq : (k n : ℕ) → k ≤ suc n → (k ≤ n) ⊎ (k ≡ suc n)
    lt_or_eq k n q = omega arith

    suc_minus : k ≤ length xs → suc (length xs) - k ≡ suc (length xs - k)
    suc_minus less = omega arith

    no_minus : k ≡ suc (length xs) → suc (length xs) - k ≡ 0
    no_minus eq = omega arith

min-cases : (a b : ℕ) → (a ≤ b → min a b ≡ a) × (b ≤ a → min a b ≡ b)
min-cases a b = ground arith

min_pos : (a b : ℕ) → 0 < a → 0 < b → 0 < min a b
min_pos a b p q = ground arith

min_le : (a b : ℕ) → min a b ≤ b
min_le a b = ground arith

-- The segments of a directory, of which a name has at least one.
abbrev Cuts : List Text → Text → Type 0 → Type 0
Cuts segments n IsLone =
    (front : List Text) × (last : Text) × (others : List Text) × (segments ≡ front ++ last ∷ others)
    × (n ≡ join underscore (last ∷ others))
    × (IsLone ⊎ (front ≡ []))

abbrev IsFull : Naming → Type 0
IsFull e = length e.segments ≤ e.depth

name_of-Cuts :
    (IsLone : Type 0) (e : Naming)
    → 0 < e.depth
    → 0 < length e.segments
    → IsLone ⊎ IsFull e
    → Cuts e.segments (name_of e) IsLone
unfolding name_of
name_of-Cuts IsLone e p q h =
    let (front, last, others, eq, dropped, whole) =
      cut (min e.depth (length e.segments)) e.segments (min_pos e.depth (length e.segments) p q)
        (min_le e.depth (length e.segments)) in
    (
      front,
      last,
      others,
      eq,
      ap (join underscore) dropped,
      elim h [
        | inl lone ↦ inl lone
        | inr full ↦ inr (
            whole (
              subst (λ k. length e.segments ≤ k)
                (sym ((min-cases e.depth (length e.segments)).1 full)) (omega arith)))
      ],
    )

-- A name that does not grow is counted once at most, or has all segments.
stopped :
    (all : List Naming) (e : Naming) → grows all e ≡ false → (count (name_of e) all ≤ 1) ⊎ IsFull e
unfolding grows
stopped all e h = elim (Bool-cases (ltb 1 (count (name_of e) all))) [
  | inl many ↦ inr (ground arith)
  | inr few ↦ inl (ground arith)
]

-- A name that is counted once is at no other place.
count-lone :
    (n : Text) (es bs : List Naming)
    → count n es + count n bs ≤ 0
    → (¬ Memᴰ n (names_of bs)) × (¬ Memᴰ n (names_of es))
count-lone n es bs h = (
  λ m. absurd (omega (arith, count-name_of n bs m)),
  λ m. absurd (omega (arith, count-name_of n es m)),
)

count_self :
    (e : Naming) (es : List Naming) → count (name_of e) (e ∷ es) ≡ suc (count (name_of e) es)
unfolding count
count_self e es = ground arith

count-move :
    (n : Text) (e : Naming) (es bs : List Naming)
    → count n (e ∷ es) + count n bs ≡ count n es + count n (e ∷ bs)
unfolding count
count-move n e es bs = ground arith

cons-inj : {A : Type 0} {x y : A} {xs ys : List A} → x ∷ xs ≡ y ∷ ys → (x ≡ y) × (xs ≡ ys)
cons-inj h = (cc, cc)

length-ne-nil : (xs : List Text) → xs ≢ [] → 0 < length xs
length-ne-nil [] h = absurd (h refl)
length-ne-nil (x ∷ xs) h = omega arith

names_of-NamesOf :
    (all bs es : List Naming) (gs : List Group)
    → map (λ (e : Naming). e.segments) es ≡ map (λ (g : Group). split slash (first_dir g.dirs)) gs
    → IsDeep es
    → ((e : Naming) → Memᴰ e es → grows all e ≡ false)
    → ((n : Text) → count n all ≡ count n es + count n bs)
    → NamesOf (names_of bs) gs (names_of es)
unfolding NamesOf
names_of-NamesOf all bs [] [] segs deep stop counts = tt
names_of-NamesOf all bs [] (g ∷ gs) segs deep stop counts = cc
names_of-NamesOf all bs (e ∷ es) [] segs deep stop counts = cc
names_of-NamesOf all bs (e ∷ es) (g ∷ gs) segs (d, deep) stop counts = (
  subst
      (λ s.
        Cuts s (name_of e)
          ((¬ Memᴰ (name_of e) (names_of bs)) × (¬ Memᴰ (name_of e) (names_of es))))
      (cons-inj segs).0
      (name_of-Cuts _ e d
        (length-ne-nil e.segments
          (λ h. split-ne-nil slash (first_dir g.dirs) (sym (cons-inj segs).0 ∙ h)))
        (elim (stopped all e (stop e ((Memᴰ-cons e e es).1 (inl refl)))) [
          | inl once ↦
              inl
                (count-lone (name_of e) es bs (omega (arith, counts (name_of e), count_self e es)))
          | inr full ↦ inr full
        ])),
  names_of-NamesOf all (e ∷ bs) es gs (cons-inj segs).1 deep
      (λ x m. stop x ((Memᴰ-cons x e es).1 (inr m))) (λ n. counts n ∙ count-move n e es bs),
)

-- Naming ends for every list of groups, and gives each group one name. The name consists of the last segments, at
-- least one, of the first directory of its group, joined by underscores. No other group of the list has the same name,
-- unless the name has all the segments of that directory.
pub assign_names_total :
    (gs : List Group) → (ns : List Text) × (assign_names gs ≡ some ns) × NamesOf [] gs ns
unfolding assign_names count
assign_names_total gs =
    let (es, run, segs, deep, stop) =
      lengthen_total (suc (room (map first_name gs))) (map first_name gs) (omega arith)
        (first_name-IsDeep gs) in
    (
      names_of es,
      ap all_names run,
      names_of-NamesOf es [] es gs (segs ∙ segments-first_name gs) deep
          (any-Memᴰ (grows es) es stop) (counts es),
    )
  where
    all_names : Option (List Naming) → Option (List Text)
    all_names o = elim o [ none ↦ none | some es ↦ some (map name_of es) ]

    counts : (es : List Naming) (n : Text) → count n es ≡ count n es + count n []
    counts es n = omega arith
