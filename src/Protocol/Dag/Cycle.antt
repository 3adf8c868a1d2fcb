-- ===== src/Protocol/Dag/Cycle.antt =====
-- The depth-first search finds a cycle exactly where there is one.
use mathlib.Core.List.{append-nil, append_assoc}
use mathlib.Core.Logic.{∥∥₁_elim}
use rector.Prelude.{
  ℕ, zero, suc, ◌≤◌, ◌<◌, Bool, true, false, not, ◌||◌, ◌&&◌, String, List, [], ◌∷◌, ◌++◌, Dict,
  lookup, has, lookup-has, includes, keep_if, length, if◌then◌else◌, str_eq, eq_iff, ◌≡◌, ◌≢◌, ◌⊎◌,
  inl, inr, ◌↔◌, refl, sym, ap, ◌∙◌, subst, arith, Bool-cases, All, All-imp, All-includes, All-at,
}
use rector.Protocol.Dag.{
  Marks, Visit, clear, cycle, out_of_fuel, and_then, or_empty, set_add, set_delete, visit_each,
  finish, known_dependencies, visit, keys, no_marks, visit_nodes, is_cycle, has_cycle,
}

includes-append_one :
    (v x : String) (xs : List String) → includes v (xs ++ x ∷ []) ≡ (includes v xs || str_eq x v)
unfolding includes
includes-append_one v x [] = ground arith
includes-append_one v x (y ∷ ys) = ground (arith, includes-append_one v x ys)

pub includes-set_add :
    (v x : String) (xs : List String) → includes v (set_add x xs) ≡ (includes v xs || str_eq x v)
unfolding set_add
includes-set_add v x xs = elim (Bool-cases (includes x xs)) [
  | inl old ↦ elim (Bool-cases (str_eq x v)) [
    | inl same ↦
        let e : x ≡ v = (eq_iff x v).0 same in
        let there : includes v xs ≡ true = rw e at old in rw (old, there) refl
    | inr other ↦ rw (old, other) (ground arith)
  ]
  | inr new ↦ rw new (includes-append_one v x xs)
]

includes-set_delete :
    (v x : String) (xs : List String)
    → includes v (set_delete x xs) ≡ (includes v xs && not (str_eq v x))
unfolding includes
includes-set_delete v x [] = refl
includes-set_delete v x (y ∷ ys) =
    ground (arith, includes-set_delete v x ys, eq_iff y v, eq_iff y x, eq_iff v x)

includes-keep_if-true :
    (p : String → Bool) (d : String) (xs : List String)
    → includes d (keep_if p xs) ≡ true
    → p d ≡ true
unfolding includes
includes-keep_if-true p d [] h = cc
includes-keep_if-true p d (x ∷ xs) h = elim (Bool-cases (p x)) [
  | inl yes' ↦ elim (Bool-cases (str_eq x d)) [
    | inl same ↦ subst (λ y. p y ≡ true) ((eq_iff x d).0 same) yes'
    | inr other ↦ includes-keep_if-true p d xs (rw (yes', includes, other) at h)
  ]
  | inr no' ↦ includes-keep_if-true p d xs (rw no' at h)
]

-- The keys that are not visiting.
abbrev free : List String → List String → ℕ
free [] vs = 0
free (k ∷ ks) vs = let rest = free ks vs in if includes k vs then rest else suc rest

free-same :
    (ks a b : List String) → ((v : String) → includes v b ≡ includes v a) → free ks b ≡ free ks a
free-same [] a b h = refl
free-same (k ∷ ks) a b h = rw (h k, free-same ks a b h) refl

free-length : (ks vs : List String) → free ks vs ≤ length ks
free-length [] vs = omega arith
free-length (k ∷ ks) vs = ground (arith, free-length ks vs)

free-add-le :
    (ks : List String) (x : String) (vs : List String) → free ks (set_add x vs) ≤ free ks vs
free-add-le [] x vs = omega arith
free-add-le (k ∷ ks) x vs = rw (includes-set_add k x vs) (ground (arith, free-add-le ks x vs))

free-add-lt :
    (ks : List String) (x : String) (vs : List String)
    → includes x ks ≡ true
    → includes x vs ≡ false
    → free ks (set_add x vs) < free ks vs
unfolding includes
free-add-lt [] x vs h new = cc
free-add-lt (k ∷ ks) x vs h new = elim (Bool-cases (str_eq k x)) [
  | inl same ↦
      let e : k ≡ x = (eq_iff k x).0 same in
      let before : includes k vs ≡ false = rw e new in
      let after : includes k (set_add x vs) ≡ true =
        includes-set_add k x vs ∙ rw (before, e, (eq_iff x x).1 refl) refl in
      rw (before, after) (omega (arith, free-add-le ks x vs))
  | inr other ↦
      let rest = free-add-lt ks x vs (rw other at h) new in
      rw (includes-set_add k x vs) (ground (arith, rest, eq_iff k x, eq_iff x k))
]

is_cycle-cycle : (v : Visit) → is_cycle v ≡ true → v ≡ cycle
is_cycle-cycle (clear a) h = cc
is_cycle-cycle cycle h = refl
is_cycle-cycle out_of_fuel h = cc

length-keys : (m : Dict (List String)) → length (keys m) ≡ length m
length-keys [] = refl
length-keys (e ∷ m) = omega (arith, length-keys m)

module _ (m : Dict (List String)) where
  -- `d` is a dependency of `id` and a node.
  abbrev pub Edge : String → String → Type 0
  Edge id d = includes d (known_dependencies m id) ≡ true

  -- A way along at least one edge.
  pub data Way : String → String → Type 0 where
    one : {x y : String} → Edge x y → Way x y
    more : {x y z : String} → Way x y → Edge y z → Way x z

  -- Every visiting node leads to `id`.
  abbrev LeadsTo : String → Marks → Type 0
  LeadsTo id marks = (v : String) → includes v marks.visiting ≡ true → Way v id

  -- The dependencies of each node stand before it, in `seen` or earlier in the list.
  abbrev Topo : List String → List String → Type 0
  Topo seen [] = Unit
  Topo seen (x ∷ xs) = ((d : String) → Edge x d → includes d seen ≡ true) × Topo (seen ++ x ∷ []) xs

  record Same (a b : Marks) : Type 0 where
    visiting : (v : String) → includes v b.visiting ≡ includes v a.visiting
    visited : (v : String) → includes v a.visited ≡ true → includes v b.visited ≡ true
    sorted : Topo [] b.visited

  -- What a walk on some fuel from the nodes `ids` leaves.
  abbrev Post : ℕ → List String → Marks → Visit → Type 0
  Post n ids marks (clear marks') =
      Same marks marks' × All (λ id. includes id marks'.visited ≡ true) ids
  Post n ids marks cycle = (x : String) × Way x x
  Post n ids marks out_of_fuel = n ≤ free (keys m) marks.visiting

  abbrev Pre : String → Marks → Type 0
  Pre id marks = LeadsTo id marks × (includes id (keys m) ≡ true)

  Topo-snoc :
      (seen xs : List String) (x : String)
      → Topo seen xs
      → ((d : String) → Edge x d → includes d (seen ++ xs) ≡ true)
      → Topo seen (xs ++ x ∷ [])
  Topo-snoc seen [] x h k = (rw append-nil at k, tt)
  Topo-snoc seen (y ∷ ys) x h k = (h.0, Topo-snoc (seen ++ y ∷ []) ys x h.1 (rw append_assoc k))

  Topo-add :
      (x : String) (xs : List String)
      → Topo [] xs
      → ((d : String) → Edge x d → includes d xs ≡ true)
      → Topo [] (set_add x xs)
  unfolding set_add
  Topo-add x xs h k = elim (Bool-cases (includes x xs)) [
    | inl old ↦ rw old h
    | inr new ↦ rw new (Topo-snoc [] xs x h k)
  ]

  Post-weaken :
      (n : ℕ) (id : String) (ids : List String) (a b : Marks) (r : Visit)
      → Same a b
      → includes id b.visited ≡ true
      → Post n ids b r
      → Post n (id ∷ ids) a r
  Post-weaken n id ids a b (clear c) s i p = (
    record {
      visiting = λ v. p.0.visiting v ∙ s.visiting v;
      visited = λ v h. p.0.visited v (s.visited v h);
      sorted = p.0.sorted;
    },
    (p.0.visited id i, p.1),
  )
  Post-weaken n id ids a b cycle s i p = p
  Post-weaken n id ids a b out_of_fuel s i p =
      rw (sym (free-same (keys m) a.visiting b.visiting s.visiting)) p

  and_then-Post :
      (n : ℕ) (id : String) (ids : List String) (a : Marks) (r : Visit) (next : Marks → Visit)
      → Post n (id ∷ []) a r
      → ((b : Marks) → Same a b → Post n ids b (next b))
      → Post n (id ∷ ids) a (and_then r next)
  and_then-Post n id ids a (clear b) next p f =
      Post-weaken n id ids a b (next b) p.0 p.1.0 (f b p.0)
  and_then-Post n id ids a cycle next p f = p
  and_then-Post n id ids a out_of_fuel next p f = p

  each-Post :
      (n : ℕ) (go : String → Marks → Visit) (ids : List String) (a : Marks)
      → ((id : String) (b : Marks) → Pre id b → Topo [] b.visited → Post n (id ∷ []) b (go id b))
      → All (λ id. Pre id a) ids
      → Topo [] a.visited
      → Post n ids a (visit_each go ids a)
  unfolding visit_each
  each-Post n go [] a f p t = (record { visiting = λ v. refl; visited = λ v h. h; sorted = t }, tt)
  each-Post n go (id ∷ ids) a f p t =
      and_then-Post n id ids a (go id a) (λ b. visit_each go ids b) (f id a p.0 t)
        (λ b s.
          each-Post n go ids b f
            (All-imp ids (λ d q. (λ v i. q.0 v (sym (s.visiting v) ∙ i), q.1)) p.1) s.sorted)

  put_back :
      (id v : String) (old now : List String)
      → includes id old ≡ false
      → includes v now ≡ includes v (set_add id old)
      → includes v (set_delete id now) ≡ includes v old
  put_back id v old now new h = elim (Bool-cases (str_eq v id)) [
    | inl same ↦
        let e : v ≡ id = (eq_iff v id).0 same in
        let absent : includes v old ≡ false = rw e new in
        rw (includes-set_delete v id now, same, absent) (ground arith)
    | inr other ↦
        let apart : str_eq id v ≡ false = ground (arith, eq_iff id v, eq_iff v id) in
        rw (includes-set_delete v id now, other, h, includes-set_add v id old, apart) (ground arith)
  ]

  finish-Post :
      (n : ℕ) (id : String) (a : Marks) (r : Visit)
      → includes id (keys m) ≡ true
      → includes id a.visiting ≡ false
      → Post n (known_dependencies m id) (record a { visiting = set_add id a.visiting }) r
      → Post (suc n) (id ∷ []) a (finish id r)
  finish-Post n id a (clear b) k new p = (
    record {
      visiting = λ v. put_back id v a.visiting b.visiting new (p.0.visiting v);
      visited = λ v h. rw (includes-set_add v id b.visited, p.0.visited v h) refl;
      sorted =
          Topo-add id b.visited p.0.sorted
            (λ d e. All-at (λ i. includes i b.visited ≡ true) d _ p.1 e);
    },
    (rw (includes-set_add id id b.visited, (eq_iff id id).1 refl) (ground arith), tt),
  )
  finish-Post n id a cycle k new p = p
  finish-Post n id a out_of_fuel k new p =
      omega (arith, free-add-lt (keys m) id a.visiting k new, p)

  has-keys : (id : String) (ks : Dict (List String)) → includes id (keys ks) ≡ has id ks
  unfolding includes has
  has-keys id [] = refl
  has-keys id ((k, ds) ∷ ks) = rw (has-keys id ks) refl

  Edge-key : (x d : String) → Edge x d → includes d (keys m) ≡ true
  Edge-key x d e = has-keys d m ∙ includes-keep_if-true (λ y. has y m) d (or_empty (lookup x m)) e

  child-LeadsTo :
      (id d v : String) (a : Marks)
      → LeadsTo id a
      → Edge id d
      → includes v (set_add id a.visiting) ≡ true
      → Way v d
  child-LeadsTo id d v a lead e h = elim (Bool-cases (includes v a.visiting)) [
    | inl old ↦ more (lead v old) e
    | inr new ↦
        let same : id ≡ v = (eq_iff id v).0 (ground (arith, includes-set_add v id a.visiting)) in
        subst (λ u. Way u d) same (one e)
  ]

  visit-Post :
      (n : ℕ) (id : String) (a : Marks)
      → Pre id a
      → Topo [] a.visited
      → Post n (id ∷ []) a (visit n m id a)
  unfolding visit
  visit-Post zero id a p t = omega arith
  visit-Post (suc n) id a p t = elim (Bool-cases (includes id a.visited)) [
    | inl old ↦ rw old (record { visiting = λ v. refl; visited = λ v h. h; sorted = t }, (old, tt))
    | inr new ↦ elim (Bool-cases (includes id a.visiting)) [
      | inl again ↦ rw (new, again) (id, p.0 id again)
      | inr first ↦
          let deps = known_dependencies m id in
          let inner = record a { visiting = set_add id a.visiting } in
          let below =
            each-Post n (visit n m) deps inner (visit-Post n)
              (All-includes deps (λ d e. (λ v h. child-LeadsTo id d v a p.0 e h, Edge-key id d e)))
              t in
          rw (new, first) (finish-Post n id a (visit_each (visit n m) deps inner) p.1 first below)
    ]
  ]

  all_nodes-Post : Post (suc (length m)) (keys m) no_marks (visit_nodes m)
  unfolding visit_nodes includes
  all_nodes-Post =
      each-Post (suc (length m)) (visit (suc (length m)) m) (keys m) no_marks
        (visit-Post (suc (length m))) (All-includes (keys m) (λ d e. (λ v h. cc, e))) tt

  -- The place of a text in a list.
  abbrev place : String → List String → ℕ
  place x [] = 0
  place x (y ∷ ys) = let rest = place x ys in if str_eq y x then 0 else suc rest

  Topo-place :
      (seen xs : List String) (x d : String)
      → Topo seen xs
      → includes x xs ≡ true
      → Edge x d
      → (includes d seen ≡ true) ⊎ (place d xs < place x xs)
  unfolding includes
  Topo-place seen [] x d t i e = cc
  Topo-place seen (y ∷ ys) x d t i e = elim (Bool-cases (str_eq y x)) [
    | inl here ↦ inl (t.0 d (subst (λ z. Edge z d) (sym ((eq_iff y x).0 here)) e))
    | inr later ↦
        let rest = Topo-place (seen ++ y ∷ []) ys x d t.1 (rw later at i) e in
        ground (arith, rest, later, includes-append_one d y seen)
  ]

  source-key : (x d : String) → Edge x d → has x m ≡ true
  unfolding includes
  source-key x d e = elim (Bool-cases (has x m)) [
    | inl there ↦ there
    | inr absent ↦ absurd (cc (rw (lookup-has x m absent) at e))
  ]

  Way-place :
      (xs : List String)
      → Topo [] xs
      → ((x : String) → has x m ≡ true → includes x xs ≡ true)
      → {x y : String} → Way x y
      → place y xs < place x xs
  unfolding includes
  Way-place xs t all' (one {x} {y} e) =
      let step = Topo-place [] xs x y t (all' x (source-key x y e)) e in ground (arith, step)
  Way-place xs t all' (more {x} {y} {z} w e) =
      let step = Topo-place [] xs y z t (all' y (source-key y z e)) e in
      let rest = Way-place xs t all' w in ground (arith, step, rest)

  acyclic :
      (v : Visit)
      → Post (suc (length m)) (keys m) no_marks v
      → ¬ (v ≡ cycle)
      → (x : String) → ¬ Way x x
  acyclic (clear a) p n x w =
      let inside = λ (y : String) (h : has y m ≡ true).
        All-at (λ i. includes i a.visited ≡ true) y (keys m) p.1 (has-keys y m ∙ h) in
      omega (arith, Way-place a.visited p.0.sorted inside w)
  acyclic cycle p n x w = n refl
  acyclic out_of_fuel p n x w = omega (arith, free-length (keys m) [], length-keys m, p)

  visit_nodes-ends_lem : (v : Visit) → Post (suc (length m)) (keys m) no_marks v → v ≢ out_of_fuel
  visit_nodes-ends_lem (clear a) p h = cc
  visit_nodes-ends_lem cycle p h = cc
  visit_nodes-ends_lem out_of_fuel p h = omega (arith, free-length (keys m) [], length-keys m, p)

  found :
      (v : Visit) → Post (suc (length m)) (keys m) no_marks v → v ≡ cycle → (x : String) × Way x x
  found (clear a) p h = cc
  found cycle p h = p
  found out_of_fuel p h = cc

  -- The search of all nodes ends: the number of nodes and one is enough fuel for every graph.
  pub visit_nodes-ends : visit_nodes m ≢ out_of_fuel
  visit_nodes-ends = visit_nodes-ends_lem (visit_nodes m) all_nodes-Post

  -- The validation reports a cycle exactly if some node depends on itself, along one or more
  -- dependencies that are nodes.
  pub has_cycle_iff : (has_cycle m ≡ true) ↔ ∥ ((x : String) × Way x x) ∥₁
  unfolding has_cycle
  has_cycle_iff = (
    λ h. ∣ found (visit_nodes m) all_nodes-Post (is_cycle-cycle (visit_nodes m) h) ∣₁,
    λ w. elim (Bool-cases (is_cycle (visit_nodes m))) [
      | inl yes' ↦ yes'
      | inr no' ↦ absurd (
          ∥∥₁_elim w (hlevel)
            (λ p. acyclic (visit_nodes m) all_nodes-Post (λ e. cc (no', ap is_cycle e)) p.0 p.1))
    ],
  )
