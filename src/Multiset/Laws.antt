-- ===== src/Multiset/Laws.antt =====
-- Proofs about the multisets of java/gazelle/private/sorted_multiset/multiset.go and
-- java/gazelle/private/maven/multiset/multiset.go.
use rules_jvm.Prelude.{
  ◌≡◌, ◌≢◌, ◌∙◌, refl, ◌↔◌, inl, inr, ite, Bool, true, false, Option, none, some, List, [], Memᴰ,
  arith, Text, text_dec, any, lookup, put, lookup-put, lookup-put_self, Bool-cases, Option-cases,
  not-Memᴰ-nil,
}
use rules_jvm.SortedSet.View.{equiv, place, StrictOrder, Ascending, place-Ascending, mem-place}
use rules_jvm.SortedSet.Reference.{any_iff}
use rules_jvm.Multiset.{
  SortedMultiSet, new_sorted_multi_set, add_value, add, sorted_values, StringMultiSet, get,
  add_string,
}

-- The members of a set that may be absent.
abbrev pub get_or_none : Option (List (Text × Unit {0})) → List (Text × Unit {0})
get_or_none none = []
get_or_none (some set) = set

module _ {K V : Type 0} (dec : Discrete K) {less : K → K → Bool} (o : StrictOrder less)
    (total : (a b : K) → equiv less a b ≡ true → a ≡ b) (value_less : V → V → Bool) where
  -- The keys are in ascending order, and they are exactly the keys that the map holds.
  pub record IsValid (s : SortedMultiSet K V) : Type 0 where
    pub ascending : Ascending less s.keys
    pub held : (k : K) → Memᴰ k s.keys ↔ (lookup dec k s.ms ≢ none)

  pub new-IsValid : IsValid new_sorted_multi_set
  unfolding new_sorted_multi_set lookup
  new-IsValid = record {
    ascending = tt;
    held = λ k. (λ m. absurd (not-Memᴰ-nil k m), λ n. absurd (n refl));
  }

  contains_iff :
      (s : SortedMultiSet K V) (k : K) → (any (λ j. equiv less j k) s.keys ≡ true) ↔ Memᴰ k s.keys
  contains_iff s k = (
    λ e.
        let (j, m, q) = (any_iff less o (λ j. equiv less j k) s.keys).0 e in
        ground (arith, total j k),
    λ m. (any_iff less o (λ j. equiv less j k) s.keys).1 (k, m, ground (arith, o.irrefl k)),
  )

  -- Adding to the set of a key that the map holds.
  add_value_lem :
      (s : SortedMultiSet K V) (k : K) (v : V) (vs : List V)
      → lookup dec k s.ms ≡ some vs
      → IsValid s
      → (s' : SortedMultiSet K V) × (add_value dec value_less s k v ≡ some s')
        × IsValid s'
        × ((j : K)
            → sorted_values dec (some s') j
              ≡ ite (dec k j) (place value_less v vs) (sorted_values dec (some s) j))
  unfolding add_value sorted_values
  add_value_lem s k v vs e h = (
    record s { ms = put dec k (place value_less v vs) s.ms },
    ground arith,
    record {
      ascending = h.ascending;
      held = λ j. ground (arith, h.held j, lookup-put dec k j (place value_less v vs) s.ms);
    },
    λ j. ground (arith, lookup-put dec k j (place value_less v vs) s.ms),
  )

  -- The state before the value is added under a new key.
  with_key : SortedMultiSet K V → K → SortedMultiSet K V
  with_key s k = record { ms = put dec k [] s.ms; keys = place less k s.keys }

  with_key-IsValid : (s : SortedMultiSet K V) (k : K) → IsValid s → IsValid (with_key s k)
  unfolding with_key
  with_key-IsValid s k h = record {
    ascending = place-Ascending o k s.keys h.ascending;
    held = λ j. ground (
      arith,
      h.held j,
      lookup-put dec k j [] s.ms,
      mem-place o k s.keys h.ascending j,
      total j k,
      o.irrefl k,
    );
  }

  add-old :
      (s : SortedMultiSet K V) (k : K) (v : V)
      → any (λ j. equiv less j k) s.keys ≡ true
      → add dec value_less less s k v ≡ add_value dec value_less s k v
  unfolding add
  add-old s k v e = rw (e, add)

  add-new :
      (s : SortedMultiSet K V) (k : K) (v : V)
      → any (λ j. equiv less j k) s.keys ≡ false
      → add dec value_less less s k v ≡ add_value dec value_less (with_key s k) k v
  unfolding add with_key
  add-new s k v e = rw (e, add)

  -- On a valid multiset `Add` does not panic, keeps it valid, puts the value into the set of its key,
  -- and leaves the sets of the other keys as they were.
  pub add_lem :
      (s : SortedMultiSet K V) (k : K) (v : V)
      → IsValid s
      → (s' : SortedMultiSet K V) × (add dec value_less less s k v ≡ some s')
        × IsValid s'
        × ((j : K)
            → sorted_values dec (some s') j
              ≡ ite
                  (dec k j)
                  (place value_less v (sorted_values dec (some s) k))
                  (sorted_values dec (some s) j))
  unfolding sorted_values with_key
  add_lem s k v h = elim (Bool-cases (any (λ j. equiv less j k) s.keys)) [
    | inl old ↦ elim (Option-cases (lookup dec k s.ms)) [
      | inl absent ↦ absurd ((h.held k).0 ((contains_iff s k).0 old) absent)
      | inr (vs, e) ↦
          let (s', added, valid, after) = add_value_lem s k v vs e h in
          (s', add-old s k v old ∙ added, valid, λ j. ground (arith, after j))
    ]
    | inr new ↦
        let (s', added, valid, after) =
          add_value_lem (with_key s k) k v [] (lookup-put_self dec k [] s.ms)
            (with_key-IsValid s k h) in
        (
          s',
          add-new s k v new ∙ added,
          valid,
          λ j. ground (arith, after j, lookup-put dec k j [] s.ms, h.held k, contains_iff s k),
        )
  ]

-- After `Add(key, value)` the set of `key` holds that value besides what it held, and `Get` of another
-- key is as before.
pub get-add_string :
    (m : StringMultiSet) (key value : Text) (j w : Text)
    → (lookup text_dec w (get_or_none (get (add_string m key value) j)))
      ≡ ite
          (text_dec key j)
          (ite (text_dec value w) (some tt) (lookup text_dec w (get_or_none (get m j))))
          (lookup text_dec w (get_or_none (get m j)))
unfolding get add_string
get-add_string m key value j w = ground (
  arith,
  lookup-put text_dec key j (put text_dec value tt []) m,
  lookup-put text_dec key j (put text_dec value tt (get_or_none (lookup text_dec key m))) m,
  lookup-put text_dec value w tt [],
  lookup-put text_dec value w tt (get_or_none (lookup text_dec key m)),
)
