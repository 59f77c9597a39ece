-- ===== src/Kinds/Chain.antt =====
-- The loop of `mappedKind` (java/gazelle/lang.go) ends, and what it finds.
use rules_jvm.Prelude.{
  ℕ, zero, suc, ◌+◌, ◌≤◌, ◌<◌, ◌≡◌, ◌≢◌, ◌⊎◌, ◌↔◌, inl, inr, refl, ap, subst, sym, ◌∙◌, true, false,
  none, some, List, [], ◌∷◌, Text, text_dec, lookup, any, arith, Bool-cases, Option-cases,
}
use rules_jvm.Kinds.{
  MappedKind, KindMap, is_kind, is_seen, follow, size, mapped_kind, same_chain,
  is_kind_or_mapped_kind,
}

-- How many entries of the map stand under keys that the loop has not seen.
unseen : KindMap → List Text → ℕ
unseen [] seen = 0
unseen ((k, _) ∷ m) seen =
    let rest = unseen m seen in elim (is_seen seen k) [ true ↦ rest | false ↦ suc rest ]

unseen-le-size : (m : KindMap) (seen : List Text) → unseen m seen ≤ size m
unfolding unseen size
unseen-le-size [] seen = omega arith
unseen-le-size ((k, v) ∷ m) seen = ground (arith, unseen-le-size m seen)

is_seen-cons :
    (n k : Text) (seen : List Text)
    → is_seen (n ∷ seen) k ≡ true
    → (n ≡ k) ⊎ (is_seen seen k ≡ true)
unfolding is_seen any
is_seen-cons n k seen h = ground arith

is_seen_later :
    (n k : Text) (seen : List Text) → is_seen seen k ≡ true → is_seen (n ∷ seen) k ≡ true
unfolding is_seen any
is_seen_later n k seen h = ground arith

is_seen_self : (n : Text) (seen : List Text) → is_seen (n ∷ seen) n ≡ true
unfolding is_seen any
is_seen_self n seen = ground arith

unseen_later : (m : KindMap) (n : Text) (seen : List Text) → unseen m (n ∷ seen) ≤ unseen m seen
unfolding unseen
unseen_later [] n seen = omega arith
unseen_later ((k, v) ∷ m) n seen = ground (arith, is_seen_later n k seen, unseen_later m n seen)

-- Seeing a new key of the map leaves fewer unseen.
unseen_key :
    (m : KindMap) (n : Text) (seen : List Text) (r : MappedKind)
    → lookup text_dec n m ≡ some r
    → is_seen seen n ≡ false
    → unseen m (n ∷ seen) < unseen m seen
unfolding unseen lookup
unseen_key [] n seen r e h = cc
unseen_key ((k, v) ∷ m) n seen r e h = elim (text_dec k n) [
  | yes p ↦ ground (arith, is_seen_self n seen, unseen_later m n seen)
  | no q ↦ ground (arith, is_seen_later n k seen, unseen_key m n seen r)
]

-- A kind at which the chain stops: it is not mapped, or mapped to itself.
pub IsEnd : KindMap → Text → Type 0
IsEnd m kind =
    (lookup text_dec kind m ≡ none)
    ⊎ ((r : MappedKind) × (lookup text_dec kind m ≡ some r) × (r.kind_name ≡ kind))

-- The kinds of a chain of replacements.
pub data Reaches (m : KindMap) : Text → Text → Type 0 where
  here : (k : Text) → Reaches m k k
  next :
      (k e : Text) (r : MappedKind)
      → lookup text_dec k m ≡ some r
      → Reaches m r.kind_name e
      → Reaches m k e

-- A kind from which the replacements lead back to it through another one.
pub OnCycle : KindMap → Text → Type 0
OnCycle m k =
    (r : MappedKind) × (lookup text_dec k m ≡ some r) × (r.kind_name ≢ k) × Reaches m r.kind_name k

module _ (m : KindMap) where
  Reaches-trans : (a b c : Text) → Reaches m a b → Reaches m b c → Reaches m a c
  Reaches-trans a b c (Reaches.here k) q = q
  Reaches-trans a b c (Reaches.next k e r l p) q =
      Reaches.next k c r l (Reaches-trans r.kind_name e c p q)

  Reaches-snoc :
      (a k : Text) (r : MappedKind)
      → Reaches m a k
      → lookup text_dec k m ≡ some r
      → Reaches m a r.kind_name
  Reaches-snoc a k r p l =
      Reaches-trans a k r.kind_name p (Reaches.next k r.kind_name r l (Reaches.here r.kind_name))

  -- Nothing but an end is reached from it.
  IsEnd-stays : (k e : Text) → IsEnd m k → Reaches m k e → e ≡ k
  unfolding IsEnd
  IsEnd-stays k e h (Reaches.here k') = refl
  IsEnd-stays k e (inl l) (Reaches.next k' e' r l' p) = cc
  IsEnd-stays k e (inr (s, l, q)) (Reaches.next k' e' r l' p) =
      let same : r.kind_name ≡ k = cc in
      IsEnd-stays r.kind_name e (inr (s, ap (λ x. lookup text_dec x m) same ∙ l, q ∙ sym same)) p
      ∙ same

  one_replacement :
      (k : Text) (r s : MappedKind)
      → lookup text_dec k m ≡ some r
      → lookup text_dec k m ≡ some s
      → r ≡ s
  one_replacement k r s l h = cc

  OnCycle-next :
      (k : Text) (r : MappedKind)
      → OnCycle m k
      → lookup text_dec k m ≡ some r
      → OnCycle m r.kind_name
  unfolding OnCycle IsEnd
  OnCycle-next k r (s, l, ne, back) h =
      let same = ap (λ (x : MappedKind). x.kind_name) (one_replacement k s r l h) in
      go r.kind_name k (λ e. ne (same ∙ e)) (subst (λ x. Reaches m x k) same back)
        (λ a p. Reaches-snoc a k r p h)
    where
      go :
          (j k : Text)
          → (j ≢ k)
          → Reaches m j k
          → ((a : Text) → Reaches m a k → Reaches m a j)
          → OnCycle m j
      go j k ne (Reaches.here j') close = absurd (ne refl)
      go j k ne (Reaches.next j' e t l' p) close = (
        t,
        l',
        (λ self. ne (sym (IsEnd-stays j k (inr (t, l', self)) (Reaches.next j k t l' p)))),
        close t.kind_name p,
      )

  OnCycle-no-IsEnd : (k e : Text) → OnCycle m k → Reaches m k e → ¬ IsEnd m e
  unfolding OnCycle IsEnd
  OnCycle-no-IsEnd k e (s, l', ne, back) (Reaches.here k') (inl l) = cc
  OnCycle-no-IsEnd k e (s, l', ne, back) (Reaches.here k') (inr (t, l, q)) =
      ne (ap (λ (x : MappedKind). x.kind_name) (one_replacement k' s t l' l) ∙ q)
  OnCycle-no-IsEnd k e c (Reaches.next k' e' r l p) h =
      OnCycle-no-IsEnd r.kind_name e (OnCycle-next k r c l) p h

  -- The way to an end goes through every kind that is reached before it.
  Reaches-end : (a b e : Text) → Reaches m a b → Reaches m a e → IsEnd m e → Reaches m b e
  Reaches-end a b e (Reaches.here k) q h = q
  Reaches-end a b e (Reaches.next k b' r l p) (Reaches.here k') h =
      subst (λ x. Reaches m x e) (sym (IsEnd-stays a b h (Reaches.next k b' r l p)))
        (Reaches.here e)
  Reaches-end a b e (Reaches.next k b' r l p) (Reaches.next k' e' s l' q) h =
      Reaches-end r.kind_name b e p
        (subst (λ (x : MappedKind). Reaches m x.kind_name e) (one_replacement a s r l' l) q) h

  one_end : (a e e' : Text) → Reaches m a e → IsEnd m e → Reaches m a e' → IsEnd m e' → e ≡ e'
  one_end a e e' p h q h' = sym (IsEnd-stays e e' h (Reaches-end a e e' p q h'))

  -- What the loop may answer for a kind.
  pub Answers : Text → Text → Type 0
  Answers kind res =
      (Reaches m kind res × IsEnd m res)
      ⊎ ((res ≡ []) × ((k : Text) × Reaches m kind k × OnCycle m k))

  is_kind-ne : (a b : Text) → is_kind a b ≡ false → a ≢ b
  is_kind-ne a b h e = ground arith

  follow-unmapped :
      (fuel : ℕ) (kind : Text) (seen : List Text)
      → 0 < fuel
      → lookup text_dec kind m ≡ none
      → follow m fuel kind seen ≡ some kind
  unfolding follow
  follow-unmapped zero kind seen h l = absurd (omega arith)
  follow-unmapped (suc fuel) kind seen h l = rw (l, follow)

  back_cases :
      (kind : Text) (r : MappedKind) (seen : List Text)
      → lookup text_dec kind m ≡ some r
      → ((s : Text) → is_seen seen s ≡ true → Reaches m s kind)
      → (s : Text) → is_seen (r.kind_name ∷ seen) s ≡ true
      → Reaches m s r.kind_name
  back_cases kind r seen l back s h = elim (is_seen-cons r.kind_name s seen h) [
    | inl e ↦ subst (λ x. Reaches m x r.kind_name) e (Reaches.here r.kind_name)
    | inr old ↦ Reaches-snoc s kind r (back s old) l
  ]

  follow_lem :
      (start : Text) (fuel : ℕ) (kind : Text) (seen : List Text)
      → unseen m seen + 2 ≤ fuel
      → Reaches m start kind
      → ((s : Text) → is_seen seen s ≡ true → Reaches m s kind)
      → (res : Text) × (follow m fuel kind seen ≡ some res) × Answers start res
  unfolding follow Answers IsEnd OnCycle
  follow_lem start zero kind seen h p back = absurd (omega arith)
  follow_lem start (suc fuel) kind seen h p back = elim (Option-cases (lookup text_dec kind m)) [
    | inl l ↦ (kind, ground arith, inl (p, inl l))
    | inr (r, l) ↦ elim (Bool-cases (is_kind r.kind_name kind)) [
      | inl self ↦ (kind, ground arith, inl (p, inr (r, l, ground arith)))
      | inr other ↦ elim (Bool-cases (is_seen seen r.kind_name)) [
        | inl again ↦ (
          [],
          ground arith,
          inr (
            refl,
            (
              kind,
              p,
              (r, l, (λ e. absurd (is_kind-ne r.kind_name kind other e)), back r.kind_name again),
            ),
          ),
        )
        | inr new ↦
            let seen' = r.kind_name ∷ seen in
            let back' =
              λ (s : Text) (q : is_seen seen' s ≡ true). back_cases kind r seen l back s q in
            let p' = Reaches-snoc start kind r p l in
            elim (Option-cases (lookup text_dec r.kind_name m)) [
              | inl free ↦
                  let stop = follow-unmapped fuel r.kind_name seen' (omega arith) free in
                  (r.kind_name, ground arith, inl (p', inl free))
              | inr (t, key) ↦
                  let less = unseen_key m r.kind_name seen t key new in
                  let (res, run, a) =
                    follow_lem start fuel r.kind_name seen' (omega arith) p' back' in
                  (res, ground arith, a)
            ]
      ]
    ]
  ]

  seen_first : (kind s : Text) → is_seen (kind ∷ []) s ≡ true → Reaches m s kind
  unfolding is_seen any
  seen_first kind s h = subst (λ x. Reaches m x kind) (same h) (Reaches.here kind)
    where
      same : is_seen (kind ∷ []) s ≡ true → kind ≡ s
      same h = ground arith

  -- The loop ends for every map of kinds. It finds the kind at the end of the chain, or the empty text,
  -- and that only if the chain leads into a cycle of several kinds.
  pub mapped_kind_total :
      (kind : Text) → (res : Text) × (mapped_kind m kind ≡ some res) × Answers kind res
  unfolding mapped_kind
  mapped_kind_total kind =
      let bound = unseen-le-size m (kind ∷ []) in
      follow_lem kind (size m + 2) kind (kind ∷ []) (omega arith) (Reaches.here kind)
        (seen_first kind)

  IsEnd-answer : (kind res : Text) → Answers kind res → res ≢ [] → Reaches m kind res × IsEnd m res
  unfolding Answers
  IsEnd-answer kind res (inl a) ne = a
  IsEnd-answer kind res (inr (e, _)) ne = absurd (ne e)

  answer-IsEnd : (kind res e : Text) → Answers kind res → IsEnd m e → Reaches m kind e → res ≡ e
  unfolding Answers
  answer-IsEnd kind res e (inl (p, end)) h q = one_end kind res e p end q h
  answer-IsEnd kind res e (inr (_, (k, pk, cycle))) h q =
      absurd (OnCycle-no-IsEnd k e cycle (Reaches-end kind k e pk q h) h)

  same_chain→ :
      (kind base b k : Text)
      → mapped_kind m base ≡ some b
      → mapped_kind m kind ≡ some k
      → is_kind_or_mapped_kind m kind base ≡ some true
      → (b ≢ []) × (k ≡ b)
  unfolding is_kind_or_mapped_kind same_chain
  same_chain→ kind base b k eb ek h = (λ z. ground arith, ground arith)

  same_chain← :
      (kind base b k e : Text)
      → mapped_kind m base ≡ some b
      → mapped_kind m kind ≡ some k
      → b ≡ e
      → k ≡ e
      → e ≢ []
      → is_kind_or_mapped_kind m kind base ≡ some true
  unfolding is_kind_or_mapped_kind same_chain
  same_chain← kind base b k e eb ek pb pk ne = ground arith

  -- Two kinds count as the same exactly when their chains end in one kind that is not the empty text.
  pub is_kind_or_mapped_kind_iff :
      (kind base : Text)
      → (is_kind_or_mapped_kind m kind base ≡ some true)
        ↔ ((e : Text) × (e ≢ []) × IsEnd m e × Reaches m kind e × Reaches m base e)
  is_kind_or_mapped_kind_iff kind base =
      let (b, eb, ab) = mapped_kind_total base in
      let (k, ek, ak) = mapped_kind_total kind in
      (
        λ h.
            let (some_end, same) = same_chain→ kind base b k eb ek h in
            let (pb, end) = IsEnd-answer base b ab some_end in
            let (pk, _) = IsEnd-answer kind k ak (λ z. some_end (sym same ∙ z)) in
            (b, some_end, end, subst (λ x. Reaches m kind x) same pk, pb),
        λ (e, ne, end, pk, pb).
            same_chain← kind base b k e eb ek (answer-IsEnd base b e ab end pb)
              (answer-IsEnd kind k e ak end pk) ne,
      )
