-- ===== src/Protocol/Dag/Acyclic.antt =====
-- What a DAG without errors is like (src/protocol/dag.ts), said of its nodes and edges alone.
use rector.Prelude.{
  Bool, true, String, List, [], ◌∷◌, lookup-has, has, includes, keep_if, Member, All, All-at,
  All-lookup, ◌≡◌, ◌≢◌, inl, inr, refl, sym, ap, ◌∙◌, subst, Bool-cases, str_eq, eq_iff,
}
use rector.Protocol.Event.{Runtime}
use rector.Protocol.Dag.{DagEdge, DagNode, Dag}
use rector.Protocol.Dag.Cycle.{Way, one, more, Edge}
use rector.Protocol.Dag.Validation.{
  Graph, IsLinked, node_ids, declared, dependencies_by_node, validate_dag, validate_dag_parts,
  validate_dag_sound,
}
use rector.Protocol.Dag.Dependencies.{
  DependsOn, Leads, at_once, further, Distinct, duplicate_ids-Distinct, Holds, HasKey, IsNode,
  node_ids-IsNode, declared-lookup, linked-kept, linked-HasKey, linked-Member, set_of-Member,
}

All-Member {ℓ} : {A : Type 0} (P : A → Type ℓ) (x : A) (xs : List A) → All P xs → Member x xs → P x
All-Member P x [] h m = elim m [ ]
All-Member P x (y ∷ ys) h (inl here) = subst P here h.0
All-Member P x (y ∷ ys) h (inr there) = All-Member P x ys h.1 there

includes-keep :
    (p : String → Bool) (y : String) (xs : List String)
    → p y ≡ true
    → includes y xs ≡ true
    → includes y (keep_if p xs) ≡ true
unfolding includes
includes-keep p y [] h i = i
includes-keep p y (x ∷ xs) h i = elim (Bool-cases (str_eq x y)) [
  | inl same ↦
      let e : x ≡ y = (eq_iff x y).0 same in
      let kept : p x ≡ true = ap p e ∙ h in rw (kept, includes, same) refl
  | inr other ↦
      let rest = includes-keep p y xs h (rw other at i) in
      elim (Bool-cases (p x)) [
        | inl kept ↦ rw (kept, includes, other) rest
        | inr dropped ↦ rw dropped rest
      ]
]

HasKey-has : (graph : Graph) (x : String) → HasKey graph x → has x graph ≡ true
HasKey-has graph x (ds, there) = elim (Bool-cases (has x graph)) [
  | inl is ↦ is
  | inr missing ↦ cc (sym there ∙ lookup-has x graph missing)
]

module _ (rt : Runtime) (d : Dag) (valid : validate_dag rt d ≡ []) where
  abbrev graph : Graph
  graph = dependencies_by_node d

  distinct : Distinct d.nodes
  distinct = (duplicate_ids-Distinct [] [] d.nodes (validate_dag_parts rt d valid).0).1

  node-declared : (n : DagNode) → Member n d.nodes → HasKey (declared [] d.nodes) n.id
  node-declared n there = (_, declared-lookup n [] d.nodes distinct there)

  node-has : (x : String) → IsNode d x → has x graph ≡ true
  node-has x (n, there, same) = HasKey-has graph x (
      linked-HasKey (node_ids [] d.nodes) x (declared [] d.nodes) d.edges
        (subst (λ k. HasKey (declared [] d.nodes) k) same (node-declared n there)))

  edge-nodes : (e : DagEdge) → Member e d.edges → IsNode d e.from × IsNode d e.to
  edge-nodes e there =
      let link =
        All-Member (IsLinked (node_ids [] d.nodes)) e d.edges (validate_dag_sound rt d e.to valid).0
          there in
      (node_ids-IsNode d e.from link.1, node_ids-IsNode d e.to link.2)

  DependsOn-Holds : (x y : String) → DependsOn d x y → Holds graph x y
  DependsOn-Holds x y (inl (n, there, same, dependency)) =
      linked-kept (node_ids [] d.nodes) x y (declared [] d.nodes) d.edges (
        subst (λ k. Holds (declared [] d.nodes) k y) same
          (
            _,
            declared-lookup n [] d.nodes distinct there,
            set_of-Member y [] n.depends_on dependency,
          ))
  DependsOn-Holds x y (inr (e, there, to, from)) =
      let (n, at_node, same) = (edge-nodes e there).1 in
      subst (λ k. Holds graph k y) to
        (subst (λ k. Holds graph e.to k) from
          (linked-Member (node_ids [] d.nodes) e (declared [] d.nodes) d.edges
            (validate_dag_parts rt d valid).1
            (subst (λ k. HasKey (declared [] d.nodes) k) same (node-declared n at_node)) there))

  DependsOn-IsNode : (x y : String) → DependsOn d x y → IsNode d x × IsNode d y
  DependsOn-IsNode x y step =
      let (ds, there, has_y) = DependsOn-Holds x y step in
      let all_nodes = All-lookup _ x graph (validate_dag_sound rt d x valid).1 there in
      (
        elim step [
          | inl (n, at_node, same, dependency) ↦ (n, at_node, same)
          | inr (e, at_edge, to, from) ↦ subst (λ k. IsNode d k) to (edge-nodes e at_edge).1
        ],
        node_ids-IsNode d y
            (All-at (λ t. includes t (node_ids [] d.nodes) ≡ true) y ds all_nodes has_y),
      )

  DependsOn-Edge : (x y : String) → DependsOn d x y → Edge graph x y
  DependsOn-Edge x y step =
      let (ds, there, has_y) = DependsOn-Holds x y step in
      let known = node-has y (DependsOn-IsNode x y step).1 in
      rw there (includes-keep (λ t. has t graph) y ds known has_y)

  Leads-Way : {x y : String} → Leads d x y → Way graph x y × IsNode d x × IsNode d y
  Leads-Way {x} {y} (at_once step) =
      let nodes = DependsOn-IsNode x y step in (one (DependsOn-Edge x y step), nodes.0, nodes.1)
  Leads-Way {x} {y} (further {y = mid} way step) =
      let before = Leads-Way way in
      (more before.0 (DependsOn-Edge mid y step), before.1, (DependsOn-IsNode mid y step).1)

  -- In a DAG without errors, if a way along dependencies, which a node declares or an edge makes,
  -- leads from `x` to `y`, then `x` and `y` are nodes and they are different: no node depends on itself.
  pub validate_dag-Leads : (x y : String) → Leads d x y → IsNode d x × IsNode d y × (x ≢ y)
  validate_dag-Leads x y way =
      let found = Leads-Way way in
      (
        found.1,
        found.2,
        λ same. (validate_dag_sound rt d x valid).2 (subst (λ k. Way graph x k) (sym same) found.0),
      )
