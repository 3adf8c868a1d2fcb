-- ===== src/Store/Conversations/Lineage.antt =====
-- A lineage has no cycle.
use rector.Prelude.{
  ℕ, zero, suc, String, none, some, List, [], ◌∷◌, Dict, lookup, includes, ltb, length, ◌≡◌, ◌≢◌,
  ◌⊎◌, inl, inr, refl, sym, ap, ◌∙◌, subst, Bool-cases, Option-cases, All, All-imp, All-at,
}
use rector.Store.Conversations.{
  Conversation, lineage_cycle, err, Runtime, empty, given, ids_of, max_conversation_lineage_depth,
  walk_lineage, get_conversation_lineage,
}
use rector.Store.Conversations.Rooted.{parent_of, Rooted, top, under}
use rector.Store.Conversations.Forest.{
  IsForest, ConversationCall, perform_all, perform_all-IsForest,
}

-- `b` is a parent of `a`, or a parent of one.
data Up (table : Dict Conversation) (a : String) : String → Type 0 where
  once : {b : String} → parent_of table a ≡ some b → Up table a b
  again : {b c : String} → Up table a b → parent_of table b ≡ some c → Up table a c

Up-first :
    (table : Dict Conversation) (a p : String) {b : String}
    → parent_of table a ≡ some p
    → Up table a b
    → (b ≡ p) ⊎ Up table p b
Up-first table a p h (once {b} e) = inl (cc (h, e))
Up-first table a p h (again {b} {c} u e) = elim (Up-first table a p h u) [
  | inl same ↦ inr (once (rw (sym same) e))
  | inr above ↦ inr (again above e)
]

Up-some :
    (table : Dict Conversation) (a : String) {b : String} → Up table a b → parent_of table a ≢ none
Up-some table a (once e) h = cc
Up-some table a (again u e) h = Up-some table a u h

Rooted-not-Up : (table : Dict Conversation) {id : String} → Rooted table id → Up table id id → ⊥
Rooted-not-Up table (top {id} h) u = Up-some table id u h
Rooted-not-Up table (under {id} {p} h r) u = elim (Up-first table id p h u) [
  | inl same ↦ Rooted-not-Up table r (once (subst (λ j. parent_of table j ≡ some p) same h))
  | inr above ↦ Rooted-not-Up table r (again above h)
]

walk_lineage-acyclic :
    (table : Dict Conversation) (left : ℕ) (lineage : List Conversation) (c : Conversation)
    → IsForest table
    → lookup c.id table ≡ some c
    → All (λ l. Up table l c.id) (ids_of lineage)
    → walk_lineage table left lineage c ≢ err lineage_cycle
unfolding walk_lineage
walk_lineage-acyclic table zero lineage c f found up h = cc
walk_lineage-acyclic table (suc left) lineage c f found up h =
    elim (Bool-cases (includes c.id (ids_of lineage))) [
      | inl again' ↦
          Rooted-not-Up table (f.rooted c.id)
            (All-at (λ l. Up table l c.id) c.id (ids_of lineage) up again')
      | inr new ↦ elim (Bool-cases (ltb max_conversation_lineage_depth (length (c ∷ lineage)))) [
        | inl deep ↦ cc (rw (new, deep) at h)
        | inr room ↦ elim (Option-cases (given c.parent_conversation_id)) [
          | inl root ↦ cc (rw (new, room, root) at h)
          | inr (p, above) ↦ elim (Option-cases (lookup p table)) [
            | inl gone ↦ cc (rw (new, room, above, gone) at h)
            | inr (d, there) ↦
                let e : d.id ≡ p = f.keyed p d there in
                let step : parent_of table c.id ≡ some d.id = rw (found, e) above in
                walk_lineage-acyclic table left (c ∷ lineage) d f
                  (ap (λ i. lookup i table) e ∙ there)
                  (once step, All-imp (ids_of lineage) (λ l u. again u step) up)
                  (rw (new, room, above, there) at h)
          ]
        ]
      ]
    ]

-- No matter which conversations were created, changed and deleted since the store was empty, each call
-- at its end before the next, `getConversationLineage` never throws that there is a cycle.
pub get_conversation_lineage-acyclic :
    (rt : Runtime) (cs : List ConversationCall) (id : String)
    → get_conversation_lineage id (perform_all rt cs empty) ≢ err lineage_cycle
unfolding get_conversation_lineage lookup
get_conversation_lineage-acyclic rt cs id h =
    let s = perform_all rt cs empty in
    let f =
      perform_all-IsForest rt cs empty
        (record { keyed = λ j c found. cc; rooted = λ j. top refl }) in
    elim (Option-cases (lookup id s.table)) [
      | inl gone ↦ cc (rw (gone, get_conversation_lineage) at h)
      | inr (c, found) ↦
          walk_lineage-acyclic s.table (suc max_conversation_lineage_depth) [] c f
            (ap (λ i. lookup i s.table) (f.keyed id c found) ∙ found) tt
            (rw (found, get_conversation_lineage) at h)
    ]
