-- ===== src/Store/Conversations/Rooted.antt =====
-- The parents of a conversation end at a root.
use rector.Prelude.{
  ℕ, zero, suc, false, ◌||◌, String, Option, none, some, List, [], ◌∷◌, Dict, lookup, insert,
  remove, includes, lookup-insert, lookup-remove, if◌then◌else◌, leb, str_eq, eq_iff, ◌≡◌, inl, inr,
  refl, sym, ◌∙◌, subst, arith, Bool-cases, Option-cases,
}
use rector.Store.Conversations.{
  Conversation, given, in_workspace, max_conversation_lineage_depth, validate_chain,
  validate_parent_conversation, validate_given,
}

abbrev pub parent_in : Option Conversation → Option String
parent_in none = none
parent_in (some c) = given c.parent_conversation_id

-- The parent of an id, if a conversation with one is stored under it.
abbrev pub parent_of : Dict Conversation → String → Option String
parent_of table id = parent_in (lookup id table)

-- Every conversation is stored under its id.
abbrev pub IsKeyed : Dict Conversation → Type 0
IsKeyed table = (id : String) (c : Conversation) → lookup id table ≡ some c → c.id ≡ id

-- The parents of an id end.
pub data Rooted (table : Dict Conversation) : String → Type 0 where
  top : {id : String} → parent_of table id ≡ none → Rooted table id
  under : {id p : String} → parent_of table id ≡ some p → Rooted table p → Rooted table id

-- They end without passing `x`.
pub data Away (table : Dict Conversation) (x : String) : String → Type 0 where
  away_top : {id : String} → str_eq x id ≡ false → parent_of table id ≡ none → Away table x id
  away_under :
      {id p : String}
      → str_eq x id ≡ false
      → parent_of table id ≡ some p
      → Away table x p
      → Away table x id

validate_chain-Away :
    (table : Dict Conversation) (x : String) (w : Option String) (left : ℕ) (seen : List String)
    (id : String) (c : Conversation)
    → IsKeyed table
    → lookup id table ≡ some c
    → validate_chain table x w left seen c ≡ none
    → Away table x id
unfolding validate_chain
validate_chain-Away table x w zero seen id c k found h = cc
validate_chain-Away table x w (suc left) seen id c k found h =
    let e : c.id ≡ id = k id c found in
    elim (Bool-cases (str_eq c.id x || includes c.id seen)) [
      | inl again ↦ cc (rw again at h)
      | inr new ↦
          let ne : str_eq x id ≡ false = ground (arith, eq_iff x id, eq_iff c.id x, e) in
          elim (Bool-cases (leb left 0)) [
            | inl deep ↦ cc (rw (new, deep) at h)
            | inr room ↦ elim (Option-cases (given c.parent_conversation_id)) [
              | inl root ↦ away_top ne (rw found root)
              | inr (p, up) ↦ elim (Option-cases (lookup p table)) [
                | inl gone ↦ cc (rw (new, room, up, gone) at h)
                | inr (d, there) ↦ elim (Bool-cases (in_workspace w d)) [
                  | inl inside ↦ away_under ne (rw found up) (
                      validate_chain-Away table x w left (c.id ∷ seen) p d k there
                        (rw (new, room, up, there, inside) at h))
                  | inr outside ↦ cc (rw (new, room, up, there, outside) at h)
                ]
              ]
            ]
          ]
    ]

parent_of-insert :
    (x j : String) (c : Conversation) (table : Dict Conversation)
    → parent_of (insert x c table) j
      ≡ (if str_eq x j then given c.parent_conversation_id else parent_of table j)
parent_of-insert x j c table = elim (Bool-cases (str_eq x j)) [
  | inl same ↦ rw (lookup-insert x j c table, same) refl
  | inr other ↦ rw (lookup-insert x j c table, other) refl
]

parent_of-remove :
    (x j : String) (table : Dict Conversation)
    → parent_of (remove x table) j ≡ (if str_eq x j then none else parent_of table j)
parent_of-remove x j table = elim (Bool-cases (str_eq x j)) [
  | inl same ↦ rw (lookup-remove x j table, same) refl
  | inr other ↦ rw (lookup-remove x j table, other) refl
]

Away-Rooted :
    (x : String) (c : Conversation) (table : Dict Conversation) {id : String}
    → Away table x id
    → Rooted (insert x c table) id
Away-Rooted x c table (away_top {id} ne h) = top (rw (parent_of-insert x id c table, ne) h)
Away-Rooted x c table (away_under {id} {p} ne h a) =
    under (rw (parent_of-insert x id c table, ne) h) (Away-Rooted x c table a)

-- A parent that the check admits.
abbrev pub Admitted : Dict Conversation → String → Option String → Type 0
Admitted table x none = Unit
Admitted table x (some p) = Away table x p

insert_self :
    (x : String) (c : Conversation) (table : Dict Conversation) (o : Option String)
    → given c.parent_conversation_id ≡ o
    → Admitted table x o
    → Rooted (insert x c table) x
insert_self x c table none e a = top (rw (parent_of-insert x x c table, (eq_iff x x).1 refl) e)
insert_self x c table (some p) e a =
    under (rw (parent_of-insert x x c table, (eq_iff x x).1 refl) e) (Away-Rooted x c table a)

insert-elsewhere :
    (x : String) (c : Conversation) (table : Dict Conversation) (id : String)
    → Admitted table x (given c.parent_conversation_id)
    → (str_eq x id ≡ false → Rooted (insert x c table) id)
    → Rooted (insert x c table) id
insert-elsewhere x c table id a f = elim (Bool-cases (str_eq x id)) [
  | inl same ↦
      subst (Rooted (insert x c table)) ((eq_iff x id).0 same)
        (insert_self x c table (given c.parent_conversation_id) refl a)
  | inr other ↦ f other
]

pub insert-Rooted :
    (x : String) (c : Conversation) (table : Dict Conversation)
    → Admitted table x (given c.parent_conversation_id)
    → {id : String} → Rooted table id
    → Rooted (insert x c table) id
insert-Rooted x c table a (top {id} h) =
    insert-elsewhere x c table id a (λ other. top (rw (parent_of-insert x id c table, other) h))
insert-Rooted x c table a (under {id} {p} h up) =
    let rest = insert-Rooted x c table a up in
    insert-elsewhere x c table id a
      (λ other. under (rw (parent_of-insert x id c table, other) h) rest)

pub remove-Rooted :
    (x : String) (table : Dict Conversation) {id : String}
    → Rooted table id
    → Rooted (remove x table) id
remove-Rooted x table (top {id} h) = top (rw (parent_of-remove x id table) (ground (arith, h)))
remove-Rooted x table (under {id} {p} h up) = elim (Bool-cases (str_eq x id)) [
  | inl same ↦ top (rw (parent_of-remove x id table, same) refl)
  | inr other ↦ under (rw (parent_of-remove x id table, other) h) (remove-Rooted x table up)
]

pub insert-IsKeyed :
    (x : String) (c : Conversation) (table : Dict Conversation)
    → c.id ≡ x
    → IsKeyed table
    → IsKeyed (insert x c table)
insert-IsKeyed x c table e k id d found = elim (Bool-cases (str_eq x id)) [
  | inl same ↦
      let now : some c ≡ some d = cc (rw (lookup-insert x id c table, same) at found) in
      let one : c ≡ d = cc now in rw (sym one) (e ∙ (eq_iff x id).0 same)
  | inr other ↦ k id d (rw (lookup-insert x id c table, other) at found)
]

pub remove-IsKeyed :
    (x : String) (table : Dict Conversation) → IsKeyed table → IsKeyed (remove x table)
remove-IsKeyed x table k id d found = elim (Bool-cases (str_eq x id)) [
  | inl same ↦ cc (rw (lookup-remove x id table, same) at found)
  | inr other ↦ k id d (rw (lookup-remove x id table, other) at found)
]

pub validate_given-Admitted :
    (table : Dict Conversation) (x : String) (o w : Option String)
    → IsKeyed table
    → validate_given table x o w ≡ none
    → Admitted table x o
unfolding validate_parent_conversation
validate_given-Admitted table x none w k h = tt
validate_given-Admitted table x (some p) w k h = elim (Option-cases (lookup p table)) [
  | inl gone ↦ cc (rw (gone, validate_parent_conversation) at h)
  | inr (c, found) ↦ elim (Bool-cases (in_workspace w c)) [
    | inl inside ↦
        validate_chain-Away table x w max_conversation_lineage_depth [] p c k found
          (rw (found, inside, validate_parent_conversation) at h)
    | inr outside ↦ cc (rw (found, outside, validate_parent_conversation) at h)
  ]
]
