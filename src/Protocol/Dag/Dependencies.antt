-- ===== src/Protocol/Dag/Dependencies.antt =====
-- The dependencies of a DAG's nodes said apart from the validation (src/protocol/dag.ts).
use rector.Prelude.{
  Bool, true, false, ◌||◌, String, some, List, [], ◌∷◌, lookup, insert, lookup-insert, includes,
  All, Member, ◌≡◌, ◌≢◌, ◌⊎◌, inl, inr, refl, sym, ap, ◌∙◌, subst, arith, Bool-cases, Option-cases,
  eq_iff, eq_refl, if◌then◌else◌, str_eq,
}
use rector.Protocol.Dag.{DagEdge, DagNode, Dag, set_add}
use rector.Protocol.Dag.Cycle.{includes-set_add}
use rector.Protocol.Dag.Validation.{
  Graph, node_ids, duplicate_ids, set_of, declared, linked, edge_errors, edge_errors_of, is_nil,
  added, append-nil_left,
}

-- Node `x` declares a dependency on `y`, or an edge leads from `y` to `x`.
abbrev pub DependsOn : Dag → String → String → Type 0
DependsOn d x y =
    ((n : DagNode) × Member n d.nodes × (n.id ≡ x) × Member y n.depends_on)
    ⊎ ((e : DagEdge) × Member e d.edges × (e.to ≡ x) × (e.from ≡ y))

-- A way along at least one dependency.
pub data Leads (d : Dag) : String → String → Type 0 where
  at_once : {x y : String} → DependsOn d x y → Leads d x y
  further : {x y z : String} → Leads d x y → DependsOn d y z → Leads d x z

-- No two nodes have the same id.
abbrev pub Distinct : List DagNode → Type 0
Distinct [] = Unit
Distinct (n ∷ ns) = All (λ (m : DagNode). m.id ≢ n.id) ns × Distinct ns

set_add-nil : (x : String) (xs : List String) → set_add x xs ≢ []
unfolding set_add includes
set_add-nil x [] e = cc e
set_add-nil x (y ∷ ys) e = ground (arith, e)

later-apart :
    (id : String) (ids : List String) (ns : List DagNode)
    → All (λ (m : DagNode). includes m.id (set_add id ids) ≡ false) ns
    → All (λ (m : DagNode). m.id ≢ id) ns × All (λ (m : DagNode). includes m.id ids ≡ false) ns
later-apart id ids [] h = (tt, tt)
later-apart id ids (m ∷ ms) h =
    let rest = later-apart id ids ms h.1 in
    let both : (includes m.id ids || str_eq id m.id) ≡ false =
      sym (includes-set_add m.id id ids) ∙ h.0 in
    ((λ same. ground (arith, both, eq_iff id m.id, same), rest.0), (ground (arith, both), rest.1))

pub duplicate_ids-Distinct :
    (ids found : List String) (ns : List DagNode)
    → duplicate_ids ids found ns ≡ []
    → (found ≡ []) × Distinct ns × All (λ (m : DagNode). includes m.id ids ≡ false) ns
unfolding duplicate_ids
duplicate_ids-Distinct ids found [] h = (h, tt, tt)
duplicate_ids-Distinct ids found (n ∷ ns) h = elim (Bool-cases (includes n.id ids)) [
  | inl double ↦
      let ih = duplicate_ids-Distinct (set_add n.id ids) (set_add n.id found) ns (rw double at h) in
      absurd (set_add-nil n.id found ih.0)
  | inr new ↦
      let ih = duplicate_ids-Distinct (set_add n.id ids) found ns (rw new at h) in
      let apart = later-apart n.id ids ns ih.2 in (ih.0, (apart.0, ih.1), (new, apart.1))
]

if-both {ℓ} :
    {A : Type ℓ} (b : Bool) (P : A → Type 0) {x y : A} → P x → P y → P (if b then x else y)
if-both true P h k = h
if-both false P h k = k

-- The set that a node has in a graph has `y`.
abbrev pub Holds : Graph → String → String → Type 0
Holds graph x y = (ds : List String) × (lookup x graph ≡ some ds) × (includes y ds ≡ true)

set_of-kept :
    (y : String) (held ds : List String)
    → includes y held ≡ true
    → includes y (set_of held ds) ≡ true
unfolding set_of
set_of-kept y held [] h = h
set_of-kept y held (d ∷ ds) h =
    set_of-kept y (set_add d held) ds (includes-set_add y d held ∙ ground (arith, h))

pub set_of-Member :
    (y : String) (held ds : List String) → Member y ds → includes y (set_of held ds) ≡ true
unfolding set_of
set_of-Member y held [] h = elim h [ ]
set_of-Member y held (d ∷ ds) (inl here) =
    set_of-kept y (set_add d held) ds
      (includes-set_add y d held ∙ ground (arith, (eq_iff d y).1 here))
set_of-Member y held (d ∷ ds) (inr there) = set_of-Member y (set_add d held) ds there

lookup-same : (x : String) (v : List String) (graph : Graph) → lookup x (insert x v graph) ≡ some v
lookup-same x v graph =
    lookup-insert x x v graph ∙ ap (λ b. if b then some v else lookup x graph) (eq_refl x)

lookup-apart :
    (x k : String) (v : List String) (graph : Graph)
    → k ≢ x
    → lookup x (insert k v graph) ≡ lookup x graph
lookup-apart x k v graph h = elim (Bool-cases (str_eq k x)) [
  | inl same ↦ absurd (h ((eq_iff k x).0 same))
  | inr other ↦ rw (lookup-insert k x v graph, other) refl
]

-- What a graph has of a node stays while only others are declared.
declared-kept :
    (x : String) (graph : Graph) (ns : List DagNode)
    → All (λ (m : DagNode). m.id ≢ x) ns
    → lookup x (declared graph ns) ≡ lookup x graph
unfolding declared
declared-kept x graph [] h = refl
declared-kept x graph (n ∷ ns) h =
    declared-kept x (insert n.id (set_of [] n.depends_on) graph) ns h.1
    ∙ lookup-apart x n.id (set_of [] n.depends_on) graph h.0

pub declared-lookup :
    (n : DagNode) (graph : Graph) (ns : List DagNode)
    → Distinct ns
    → Member n ns
    → lookup n.id (declared graph ns) ≡ some (set_of [] n.depends_on)
unfolding declared
declared-lookup n graph [] u h = elim h [ ]
declared-lookup n graph (m ∷ ns) u (inl here) =
    subst (λ k. lookup k.id (declared graph (m ∷ ns)) ≡ some (set_of [] k.depends_on)) here
      (declared-kept m.id (insert m.id (set_of [] m.depends_on) graph) ns u.0
        ∙ lookup-same m.id (set_of [] m.depends_on) graph)
declared-lookup n graph (m ∷ ns) u (inr there) =
    declared-lookup n (insert m.id (set_of [] m.depends_on) graph) ns u.1 there

added-kept :
    (from to x y : String) (graph : Graph)
    → Holds graph x y
    → Holds (added from to (lookup to graph) graph) x y
added-kept from to x y graph (held, there, has_y) = elim (Option-cases (lookup to graph)) [
  | inl gone ↦ rw gone (held, there, has_y)
  | inr (ds, at_to) ↦ elim (Bool-cases (str_eq to x)) [
    | inl same ↦
        let e : to ≡ x = (eq_iff to x).0 same in
        let same_set : ds ≡ held = cc (sym at_to ∙ ap (λ k. lookup k graph) e ∙ there) in
        rw at_to (
          set_add from ds,
          lookup-insert to x (set_add from ds) graph
              ∙ ap (λ b. if b then some (set_add from ds) else lookup x graph) same,
          includes-set_add y from ds ∙ ground (arith, ap (λ l. includes y l) same_set ∙ has_y),
        )
    | inr other ↦ rw at_to (
      held,
      lookup-insert to x (set_add from ds) graph
          ∙ ap (λ b. if b then some (set_add from ds) else lookup x graph) other
          ∙ there,
      has_y,
    )
  ]
]

pub linked-kept :
    (ids : List String) (x y : String) (graph : Graph) (es : List DagEdge)
    → Holds graph x y
    → Holds (linked ids graph es) x y
unfolding linked
linked-kept ids x y graph [] h = h
linked-kept ids x y graph (e ∷ es) h =
    linked-kept ids x y
      (if is_nil (edge_errors_of ids e) then added e.from e.to (lookup e.to graph) graph else graph)
      es
      (if-both (is_nil (edge_errors_of ids e)) (λ g. Holds g x y)
        (added-kept e.from e.to x y graph h) h)

abbrev pub HasKey : Graph → String → Type 0
HasKey graph x = (ds : List String) × (lookup x graph ≡ some ds)

added-HasKey :
    (from to x : String) (graph : Graph)
    → HasKey graph x
    → HasKey (added from to (lookup to graph) graph) x
added-HasKey from to x graph (held, there) = elim (Option-cases (lookup to graph)) [
  | inl gone ↦ rw gone (held, there)
  | inr (ds, at_to) ↦ rw at_to (
    if str_eq to x then set_add from ds else held,
    lookup-insert to x (set_add from ds) graph ∙ ground (arith, there),
  )
]

pub linked-HasKey :
    (ids : List String) (x : String) (graph : Graph) (es : List DagEdge)
    → HasKey graph x
    → HasKey (linked ids graph es) x
unfolding linked
linked-HasKey ids x graph [] h = h
linked-HasKey ids x graph (e ∷ es) h =
    linked-HasKey ids x
      (if is_nil (edge_errors_of ids e) then added e.from e.to (lookup e.to graph) graph else graph)
      es
      (if-both (is_nil (edge_errors_of ids e)) (λ g. HasKey g x)
        (added-HasKey e.from e.to x graph h) h)

added-Holds :
    (from to : String) (graph : Graph)
    → HasKey graph to
    → Holds (added from to (lookup to graph) graph) to from
added-Holds from to graph (ds, there) = rw there (
  set_add from ds,
  lookup-same to (set_add from ds) graph,
  includes-set_add from from ds ∙ ground (arith, eq_refl from),
)

pub linked-Member :
    (ids : List String) (e : DagEdge) (graph : Graph) (es : List DagEdge)
    → edge_errors ids es ≡ []
    → HasKey graph e.to
    → Member e es
    → Holds (linked ids graph es) e.to e.from
unfolding linked edge_errors
linked-Member ids e graph [] h key there = elim there [ ]
linked-Member ids e graph (f ∷ es) h key (inl here) =
    let clean = append-nil_left (edge_errors_of ids f) (edge_errors ids es) h in
    let step : Graph =
      if is_nil (edge_errors_of ids f)
      then added f.from f.to (lookup f.to graph) graph
      else graph in
    let taken : added f.from f.to (lookup f.to graph) graph ≡ step = sym (
      ap (λ errors. if is_nil errors then added f.from f.to (lookup f.to graph) graph else graph)
        clean.0) in
    let now : Holds step f.to f.from =
      subst (λ g. Holds g f.to f.from) taken
        (added-Holds f.from f.to graph (subst (λ k. HasKey graph k.to) (sym here) key)) in
    subst (λ k. Holds (linked ids step es) k.to k.from) here
      (linked-kept ids f.to f.from step es now)
linked-Member ids e graph (f ∷ es) h key (inr there) =
    let clean = append-nil_left (edge_errors_of ids f) (edge_errors ids es) h in
    linked-Member ids e
      (if is_nil (edge_errors_of ids f) then added f.from f.to (lookup f.to graph) graph else graph)
      es clean.1
      (if-both (is_nil (edge_errors_of ids f)) (λ g. HasKey g e.to)
        (added-HasKey f.from f.to e.to graph key) key)
      there

abbrev pub IsNode : Dag → String → Type 0
IsNode d x = (n : DagNode) × Member n d.nodes × (n.id ≡ x)

node_ids-Member :
    (x : String) (ids : List String) (ns : List DagNode)
    → includes x (node_ids ids ns) ≡ true
    → (includes x ids ≡ true) ⊎ ((n : DagNode) × Member n ns × (n.id ≡ x))
unfolding node_ids
node_ids-Member x ids [] h = inl h
node_ids-Member x ids (n ∷ ns) h = elim (node_ids-Member x (set_add n.id ids) ns h) [
  | inr (m, there, same) ↦ inr (m, inr there, same)
  | inl early ↦
      let both : (includes x ids || str_eq n.id x) ≡ true =
        sym (includes-set_add x n.id ids) ∙ early in
      elim (Bool-cases (str_eq n.id x)) [
        | inl here ↦ inr (n, inl refl, (eq_iff n.id x).0 here)
        | inr other ↦ inl (ground (arith, both, other))
      ]
]

pub node_ids-IsNode : (d : Dag) (x : String) → includes x (node_ids [] d.nodes) ≡ true → IsNode d x
unfolding includes
node_ids-IsNode d x h = elim (node_ids-Member x [] d.nodes h) [
  | inl none_yet ↦ cc
  | inr node ↦ node
]
