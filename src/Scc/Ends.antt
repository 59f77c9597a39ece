-- ===== src/Scc/Ends.antt =====
-- The end of Tarjan's algorithm (`tarjanSCC` of java/gazelle/private/scc/scc.go).
use mathlib.Core.List.Memᴰ
use rules_jvm.Prelude.{
  ℕ, zero, suc, ◌<◌, ◌≤◌, ◌≡◌, ◌≢◌, ◌⊎◌, inl, inr, refl, ap, sym, ◌∙◌, subst, text_less, Bool, true,
  false, Option, none, some, List, [], ◌∷◌, ◌++◌, append_assoc, Text, text_dec, lookup, put,
  lookup-put, if◌then◌else◌, length, ltb, ◌==◌, arith, Bool-cases, Memᴰ, All, All-append,
}
use rules_jvm.Prelude.Sort.{sort}
use rules_jvm.Scc.{
  Adjacency, Tarjan, same, at, number_at, is_indexed, is_on_stack, enter, lower, visit_edges, pop,
  close_component, strong_connect, visit_dirs, new_tarjan,
}

-- How many of the nodes have no index.
pub unindexed : List Text → Tarjan → ℕ
unindexed [] s = 0
unindexed (n ∷ ns) s =
    let rest = unindexed ns s in elim (is_indexed n s) [ true ↦ rest | false ↦ suc rest ]

-- Indices stay, and the stack only has new nodes on top.
pub Extends : Tarjan → Tarjan → Type 0
Extends s t =
    ((x : Text) → is_indexed x s ≡ true → is_indexed x t ≡ true)
    × ((extra : List Text) × (t.stack ≡ extra ++ s.stack) × All (λ x. is_indexed x s ≡ false) extra)

Extends-refl : (s : Tarjan) → Extends s s
unfolding Extends
Extends-refl s = (λ x h. h, ([], refl, tt))

earlier :
    (s t : Tarjan)
    → ((x : Text) → is_indexed x s ≡ true → is_indexed x t ≡ true)
    → (xs : List Text) → All (λ x. is_indexed x t ≡ false) xs
    → All (λ x. is_indexed x s ≡ false) xs
earlier s t h [] a = tt
earlier s t h (x ∷ xs) (a, rest) = (
  elim (Bool-cases (is_indexed x s)) [
    | inl yes_s ↦ absurd (ground (arith, h x yes_s))
    | inr no_s ↦ no_s
  ],
  earlier s t h xs rest,
)

Extends-trans : (s t u : Tarjan) → Extends s t → Extends t u → Extends s u
unfolding Extends
Extends-trans s t u (g, (e, q, a)) (h, (f, r, b)) = (
  λ x i. h x (g x i),
  (
    f ++ e,
    r ∙ ap (λ z. f ++ z) q ∙ sym (append_assoc f e s.stack),
    All-append _ f e (earlier s t g f b) a,
  ),
)

Extends-lower : (v : Text) (n : ℕ) (s : Tarjan) → Extends s (lower v n s)
unfolding lower
Extends-lower v n s = go (ltb n (number_at v s.lowlink))
  where
    go : (b : Bool) → Extends s (if b then record s { lowlink = put text_dec v n s.lowlink } else s)
    go true = unfold Extends is_indexed in (λ x h. h, ([], refl, tt))
    go false = Extends-refl s

is_indexed-enter :
    (v x : Text) (s : Tarjan)
    → is_indexed x (enter v s) ≡ (if same v x then true else is_indexed x s)
unfolding is_indexed enter
is_indexed-enter v x s = ground (arith, lookup-put text_dec v x s.counter s.index)

Extends-enter : (v : Text) (s : Tarjan) → is_indexed v s ≡ false → Extends s (enter v s)
unfolding Extends
Extends-enter v s h =
    (λ x i. ground (arith, is_indexed-enter v x s), (v ∷ [], unfold enter in refl, (h, tt)))

unindexed-Extends : (ns : List Text) (s t : Tarjan) → Extends s t → unindexed ns t ≤ unindexed ns s
unfolding unindexed Extends
unindexed-Extends [] s t e = omega arith
unindexed-Extends (n ∷ ns) s t (g, more) = elim (Bool-cases (is_indexed n s)) [
  | inl i ↦ ground (arith, g n i, unindexed-Extends ns s t (g, more))
  | inr i ↦ ground (arith, unindexed-Extends ns s t (g, more))
]

unindexed-enter :
    (ns : List Text) (v : Text) (s : Tarjan)
    → Memᴰ v ns
    → is_indexed v s ≡ false
    → unindexed ns (enter v s) < unindexed ns s
unfolding unindexed
unindexed-enter [] v s m h = absurd (Memᴰ.not-nil m)
unindexed-enter (n ∷ ns) v s m h = elim (Memᴰ.cases_cons m) [
  | inl e ↦
      ground
        (arith, is_indexed-enter v n s, unindexed-Extends ns s (enter v s) (Extends-enter v s h))
  | inr later ↦ ground (arith, is_indexed-enter v n s, unindexed-enter ns v s later h)
]

pop_total :
    (v : Text) (extra rest : List Text) (m : List (Text × Bool))
    → All (λ x. x ≢ v) extra
    → (c : List Text) × (m' : List (Text × Bool)) × (pop v (extra ++ v ∷ rest) m
        ≡ some (c, rest, m'))
unfolding pop
pop_total v [] rest m a = (v ∷ [], put text_dec v false m, ground arith)
pop_total v (x ∷ xs) rest m (n, a) =
    let (c, m', e) = pop_total v xs rest (put text_dec x false m) a in (x ∷ c, m', ground arith)

-- Closing the component of a node that stands on the stack, with newer nodes on top.
close_component_total :
    (v : Text) (s t : Tarjan) (extra : List Text)
    → t.stack ≡ extra ++ v ∷ s.stack
    → All (λ x. x ≢ v) extra
    → (u : Tarjan) × (close_component v t ≡ some u)
      × ((u ≡ t) ⊎ ((u.stack ≡ s.stack) × (u.index ≡ t.index)))
unfolding close_component
close_component_total v s t extra q a =
    go (number_at v t.lowlink == number_at v t.index) (pop_total v extra s.stack t.on_stack a)
  where
    result : Bool → Option (List Text × List Text × List (Text × Bool)) → Option Tarjan
    result b o = elim b [
      | false ↦ some t
      | true ↦ elim o [
        | none ↦ none
        | some (component, stack, m) ↦ some (record t {
          on_stack = m;
          stack = stack;
          components = sort text_less component ∷ t.components;
        })
      ]
    ]

    go :
        (b : Bool)
        → ((c : List Text) × (m : List (Text × Bool)) × (pop v (extra ++ v ∷ s.stack) t.on_stack
              ≡ some (c, s.stack, m)))
        → (u : Tarjan) × (result b (pop v t.stack t.on_stack) ≡ some u)
          × ((u ≡ t) ⊎ ((u.stack ≡ s.stack) × (u.index ≡ t.index)))
    go false p = (t, refl, inl refl)
    go true (c, m, e) = (
      record t { on_stack = m; stack = s.stack; components = sort text_less c ∷ t.components },
      ap (result true) (ap (λ z. pop v z t.on_stack) q ∙ e),
      inr (refl, refl),
    )

-- What a visit of a node leaves.
Visited : Text → Tarjan → Tarjan → Type 0
Visited v s t = Extends s t × (is_indexed v t ≡ true)

same_index : (t u : Tarjan) → u.index ≡ t.index → (x : Text) → is_indexed x u ≡ is_indexed x t
unfolding is_indexed
same_index t u e x = ap (λ m. elim (lookup text_dec x m) [ none ↦ false | some _ ↦ true ]) e

not_v :
    (v : Text) (s : Tarjan)
    → is_indexed v s ≡ true
    → (xs : List Text) → All (λ x. is_indexed x s ≡ false) xs
    → All (λ x. x ≢ v) xs
not_v v s i [] a = tt
not_v v s i (x ∷ xs) (n, a) = (λ e. absurd (ground arith), not_v v s i xs a)

finish :
    (v : Text) (s t : Tarjan)
    → is_indexed v s ≡ false
    → Extends (enter v s) t
    → (u : Tarjan) × (close_component v t ≡ some u) × Visited v s u
unfolding Extends Visited
finish v s t h (g, (extra, q, a)) =
    let entered : is_indexed v (enter v s) ≡ true = ground (arith, is_indexed-enter v v s) in
    let on : t.stack ≡ extra ++ v ∷ s.stack = q ∙ unfold enter in refl in
    let (u, run, end) =
      close_component_total v s t extra on (not_v v (enter v s) entered extra a) in
    let whole = Extends-trans s (enter v s) t (Extends-enter v s h) (g, (extra, q, a)) in
    (
      u,
      run,
      elim end [
        | inl e ↦ (subst (λ z. Extends s z) (sym e) whole, ap (is_indexed v) e ∙ g v entered)
        | inr (stack, index) ↦ (
          (λ x i. same_index t u index x ∙ whole.0 x i, ([], stack, tt)),
          same_index t u index v ∙ g v entered,
        )
      ],
    )

stays : (v : Text) (s t : Tarjan) → Extends s t → is_indexed v s ≡ true → is_indexed v t ≡ true
unfolding Extends
stays v s t e h = e.0 v h

module _ (nodes : List Text) where
  -- What the recursive call has to do.
  Connects : ℕ → (Text → Tarjan → Option Tarjan) → Type 0
  Connects fuel connect =
      (w : Text) (s : Tarjan)
      → Memᴰ w nodes
      → is_indexed w s ≡ false
      → unindexed nodes s ≤ fuel
      → (t : Tarjan) × (connect w s ≡ some t) × Visited w s t

  visit_edges_total :
      (fuel : ℕ) (connect : Text → Tarjan → Option Tarjan)
      → Connects fuel connect
      → (v : Text) (ws : List Text) (s : Tarjan) → All (λ w. Memᴰ w nodes) ws
      → unindexed nodes s ≤ fuel
      → (t : Tarjan) × (visit_edges connect v ws s ≡ some t) × Extends s t
  unfolding visit_edges Connects Visited
  visit_edges_total fuel connect c v [] s a h = (s, refl, Extends-refl s)
  visit_edges_total fuel connect c v (w ∷ ws) s (m, a) h = elim (Bool-cases (is_indexed w s)) [
    | inl seen ↦
        let s' = (if is_on_stack w s then lower v (number_at w s.index) s else s) in
        let e : Extends s s' = low (is_on_stack w s) v (number_at w s.index) s in
        let (t, run, more) =
          visit_edges_total fuel connect c v ws s' a
            (omega (arith, unindexed-Extends nodes s s' e, h)) in
        (t, ground arith, Extends-trans s s' t e more)
    | inr new ↦
        let (u, call, (x, _)) = c w s m new h in
        let s' = lower v (number_at w u.lowlink) u in
        let e = Extends-trans s u s' x (Extends-lower v (number_at w u.lowlink) u) in
        let (t, run, more) =
          visit_edges_total fuel connect c v ws s' a
            (omega (arith, unindexed-Extends nodes s s' e, h)) in
        (t, ground arith, Extends-trans s s' t e more)
  ]
    where
      low : (b : Bool) (v : Text) (n : ℕ) (s : Tarjan) → Extends s (if b then lower v n s else s)
      low true v n s = Extends-lower v n s
      low false v n s = Extends-refl s

  module _ (adj : Adjacency)
      (closed : (v : Text) → All (λ w. Memᴰ w nodes) (at text_dec v adj)) where
    strong_connect_total : (fuel : ℕ) → Connects fuel (strong_connect adj fuel)
    unfolding Connects strong_connect
    strong_connect_total zero w s m new h = absurd (omega (arith, unindexed-enter nodes w s m new))
    strong_connect_total (suc fuel) w s m new h =
        let less = unindexed-enter nodes w s m new in
        let (t, run, more) =
          visit_edges_total fuel (strong_connect adj fuel) (strong_connect_total fuel) w
            (at text_dec w adj) (enter w s) (closed w) (omega arith) in
        let (u, close, visited) = finish w s t new more in (u, ground arith, visited)

    pub visit_dirs_total :
        (fuel : ℕ) (vs : List Text) (s : Tarjan)
        → All (λ v. Memᴰ v nodes) vs
        → unindexed nodes s ≤ fuel
        → (t : Tarjan) × (visit_dirs adj fuel vs s ≡ some t)
          × Extends s t
          × All (λ v. is_indexed v t ≡ true) vs
    unfolding visit_dirs Connects Visited
    visit_dirs_total fuel [] s a h = (s, refl, Extends-refl s, tt)
    visit_dirs_total fuel (v ∷ vs) s (m, a) h = elim (Bool-cases (is_indexed v s)) [
      | inl seen ↦
          let (t, run, e, all) = visit_dirs_total fuel vs s a h in
          (t, ground arith, e, (stays v s t e seen, all))
      | inr new ↦
          let (u, call, (x, i)) = strong_connect_total fuel v s m new h in
          let (t, run, e, all) =
            visit_dirs_total fuel vs u a (omega (arith, unindexed-Extends nodes s u x, h)) in
          (t, ground arith, Extends-trans s u t x e, (stays v u t e i, all))
    ]

pub unindexed-new : (ns : List Text) → unindexed ns new_tarjan ≡ length ns
unfolding unindexed is_indexed lookup
unindexed-new [] = refl
unindexed-new (n ∷ ns) = ground (arith, unindexed-new ns)

pub All-within :
    (ns vs : List Text) → ((v : Text) → Memᴰ v vs → Memᴰ v ns) → All (λ v. Memᴰ v ns) vs
All-within ns [] h = tt
All-within ns (v ∷ vs) h = (h v (Memᴰ.head refl), All-within ns vs (λ w m. h w (Memᴰ.tail m)))
