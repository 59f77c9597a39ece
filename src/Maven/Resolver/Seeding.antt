-- ===== src/Maven/Resolver/Seeding.antt =====
-- Which artifact the index attributes a class to (`indexKeys` and `seedIndexKey` of
-- java/gazelle/private/maven/resolver.go).
use rules_jvm.Prelude.{
  ◌<◌, ◌+◌, ◌≡◌, ◌⊎◌, ◌↔◌, inl, inr, refl, ap, ◌∙◌, Bool, true, false, ◌||◌, Option, some, List, [],
  ◌∷◌, map, Memᴰ, Text, text_dec, lookup, put, lookup-put, keys, mem-keys-put, arith, any, is_yes,
  All-Memᴰ, Memᴰ-cons, not-Memᴰ-nil, Option-cases, Bool-cases, if◌then◌else◌,
}
use rules_jvm.SortedSet.View.{StrictOrder, equiv, Ascending, place_all-Ascending, mem-place_all}
use rules_jvm.SortedSet.Label.{text_less_order, text_less-equiv}
use rules_jvm.Maven.Coordinate.{Coordinate, parse_index_key, artifact_string}
use rules_jvm.Maven.Lock.{IndexFile, or_empty}
use rules_jvm.Maven.Resolver.{
  Resolver, ready, add_packages, add_classes, count_colons, key_less, index_keys, put_all,
  seen_keys, class_in, add_section_package, seed_classes, seed_index_key, seed_keys,
}

pub key_less_order : StrictOrder key_less
unfolding key_less
key_less_order = record {
  irrefl = λ a. ground (arith, text_less_order.irrefl a);
  trans = λ a b c h k. ground (arith, text_less_order.trans a b c);
  divide = λ a b c h. ground (arith, text_less_order.divide a b c);
}

key_less-equiv : (a b : Text) → equiv key_less a b ≡ true → a ≡ b
unfolding key_less
key_less-equiv a b h = ground (arith, text_less-equiv a b)

-- A later key has no more colons than an earlier one.
key_less-colons : (a b : Text) → key_less a b ≡ true → count_colons b < count_colons a + 1
unfolding key_less
key_less-colons a b h = ground arith

-- Whether a section lists the class `c`.
unfoldable pub lists : Text → List Text → Bool
unfolding any
lists c cs = any (λ d. is_yes (text_dec d c)) cs

unfoldable pub lists_section : Text → List (Text × List Text) → Bool
unfolding lists
lists_section c [] = false
lists_section c ((pkg, classes) ∷ rest) =
    lists c (map (class_in pkg) classes) || lists_section c rest

unfoldable pub lists_key : IndexFile → Text → Text → Bool
lists_key index c key = lists_section c (or_empty (lookup text_dec key index.classes))

class_index-add_packages :
    (pkgs : List Text) (a : Text) (r : Resolver)
    → (add_packages pkgs a r).class_index ≡ r.class_index
unfolding add_packages
class_index-add_packages [] a r = refl
class_index-add_packages (p ∷ pkgs) a r = class_index-add_packages pkgs a _

module _ (c : Text) where
  owner : Resolver → Option Text
  owner r = lookup text_dec c r.class_index

  owner-add_classes :
      (cs : List Text) (a : Text) (r : Resolver)
      → owner (add_classes cs a r) ≡ (if lists c cs then some a else owner r)
  unfolding add_classes lists owner
  owner-add_classes [] a r = refl
  owner-add_classes (d ∷ cs) a r = ground (
    arith,
    owner-add_classes cs a (record r { class_index = put text_dec d a r.class_index }),
    lookup-put text_dec d c a r.class_index,
  )

  owner-add_section_package :
      (pkg a : Text) (r : Resolver) → owner (add_section_package pkg a r) ≡ owner r
  unfolding add_section_package owner
  owner-add_section_package pkg a r = ground arith

  owner-seed_classes :
      (section : List (Text × List Text)) (a : Text) (r : Resolver)
      → owner (seed_classes section a r) ≡ (if lists_section c section then some a else owner r)
  unfolding seed_classes lists_section
  owner-seed_classes [] a r = refl
  owner-seed_classes ((pkg, classes) ∷ rest) a r = ground (
    arith,
    owner-seed_classes rest a
        (add_classes (map (class_in pkg) classes) a (add_section_package pkg a r)),
    owner-add_classes (map (class_in pkg) classes) a (add_section_package pkg a r),
    owner-add_section_package pkg a r,
  )

  owner-seed_index_key :
      (index : IndexFile) (key a : Text) (r : Resolver)
      → owner (seed_index_key index key a r) ≡ (if lists_key index c key then some a else owner r)
  unfolding seed_index_key lists_key owner
  owner-seed_index_key index key a r =
      ap (lookup text_dec c) (class_index-add_packages _ a _) ∙ owner-seed_classes _ a r

  owner-unlisted :
      (index : IndexFile) (keys : List Text) (r r' : Resolver)
      → ((k : Text) → Memᴰ k keys → lists_key index c k ≡ false)
      → seed_keys index keys r ≡ ready r'
      → owner r' ≡ owner r
  unfolding seed_keys
  owner-unlisted index [] r r' n s = ground arith
  owner-unlisted index (k ∷ ks) r r' n s = elim (Option-cases (parse_index_key k)) [
    | inl bad ↦ absurd (ground arith)
    | inr (cs, e) ↦
        let next = seed_index_key index k (artifact_string cs) r in
        owner-unlisted index ks next r' (λ j m. n j ((Memᴰ-cons j k ks).1 (inr m))) (ground arith)
        ∙ ground (
          arith,
          owner-seed_index_key index k (artifact_string cs) r,
          n k ((Memᴰ-cons k k ks).1 (inl refl)),
        )
  ]

  -- A key behind `key` that lists the class would be more qualified and stand before it.
  unlisted_later :
      (index : IndexFile) (key k j : Text)
      → key_less k j ≡ true
      → (lists_key index c j ≡ true → (j ≡ key) ⊎ (count_colons key < count_colons j))
      → key ≡ k
      → lists_key index c j ≡ false
  unlisted_later index key k j less others same = elim (Bool-cases (lists_key index c j)) [
    | inr no_ ↦ no_
    | inl listed ↦ elim (others listed) [
      | inl e ↦ absurd (ground (arith, key_less_order.irrefl k))
      | inr more ↦ absurd (ground (arith, key_less-colons k j less))
    ]
  ]

  -- Over ascending keys, with `key` among them and every other key that lists the class more qualified.
  owner-seed_keys :
      (index : IndexFile) (key : Text) (coords : Coordinate) (keys : List Text) (r r' : Resolver)
      → Ascending key_less keys
      → Memᴰ key keys
      → lists_key index c key ≡ true
      → parse_index_key key ≡ some coords
      → ((k : Text)
          → Memᴰ k keys
          → lists_key index c k ≡ true
          → (k ≡ key) ⊎ (count_colons key < count_colons k))
      → seed_keys index keys r ≡ ready r'
      → owner r' ≡ some (artifact_string coords)
  unfolding seed_keys
  owner-seed_keys index key coords [] r r' asc m l e others s = absurd (not-Memᴰ-nil key m)
  owner-seed_keys index key coords (k ∷ ks) r r' asc m l e others s =
      elim (Option-cases (parse_index_key k)) [
        | inl bad ↦ absurd (ground arith)
        | inr (cs, f) ↦
            let next = seed_index_key index k (artifact_string cs) r in
            elim (text_dec key k) [
              | yes same ↦
                  owner-unlisted index ks next r'
                    (λ j mj.
                      unlisted_later index key k j (All-Memᴰ _ ks asc.0 j mj)
                        (others j ((Memᴰ-cons j k ks).1 (inr mj))) same)
                    (ground arith)
                  ∙ ground (arith, owner-seed_index_key index k (artifact_string cs) r)
              | no other ↦
                  owner-seed_keys index key coords ks next r' asc.1
                    (ground (arith, Memᴰ-cons key k ks)) l e
                    (λ j mj. others j ((Memᴰ-cons j k ks).1 (inr mj))) (ground arith)
            ]
      ]

index_keys-Ascending : (index : IndexFile) → Ascending key_less (index_keys index)
unfolding index_keys
index_keys-Ascending index = place_all-Ascending key_less_order (seen_keys index) [] tt

mem-put_all :
    (ks : List Text) (seen : List (Text × Unit {0})) (k : Text)
    → Memᴰ k (keys (put_all ks seen)) ↔ (Memᴰ k ks ⊎ Memᴰ k (keys seen))
unfolding put_all
mem-put_all [] seen k = ground (arith, not-Memᴰ-nil k)
mem-put_all (j ∷ ks) seen k = ground (
  arith,
  mem-put_all ks (put text_dec j tt seen) k,
  mem-keys-put text_dec j k tt seen,
  Memᴰ-cons k j ks,
)

-- The keys that are seeded are exactly the keys of the two sections, in the order of `key_less`.
pub mem-index_keys :
    (index : IndexFile)
    → Ascending key_less (index_keys index)
      × ((k : Text)
          → Memᴰ k (index_keys index)
            ↔ (Memᴰ k (keys index.packages) ⊎ Memᴰ k (keys index.classes)))
unfolding index_keys seen_keys
mem-index_keys index = (
  index_keys-Ascending index,
  λ k.
      let classes = put_all (keys index.classes) [] in
      ground (
        arith,
        mem-place_all key_less_order key_less-equiv (seen_keys index) [] tt k,
        mem-put_all (keys index.packages) classes k,
        mem-put_all (keys index.classes) [] k,
        not-Memᴰ-nil k,
      ),
)

-- A class that several keys of the index list goes to the artifact of the least qualified one: if the
-- well-formed `key` lists the class and every other key that does has more colons, then whatever was
-- indexed before, seeding the keys in the order of `index_keys`, where it succeeds, attributes the class
-- to the artifact of `key`.
pub class_index-least_qualified :
    (index : IndexFile) (c key : Text) (coords : Coordinate) (r r' : Resolver)
    → Memᴰ key (index_keys index)
    → lists_key index c key ≡ true
    → parse_index_key key ≡ some coords
    → ((k : Text)
        → Memᴰ k (index_keys index)
        → lists_key index c k ≡ true
        → (k ≡ key) ⊎ (count_colons key < count_colons k))
    → seed_keys index (index_keys index) r ≡ ready r'
    → lookup text_dec c r'.class_index ≡ some (artifact_string coords)
unfolding owner
class_index-least_qualified index c key coords r r' m l e others s =
    owner-seed_keys c index key coords (index_keys index) r r' (index_keys-Ascending index) m l e
      others s
