-- ===== src/Store/Conversations.antt =====
-- Conversations and their lineage: the methods of `InMemoryRectorStore` on them
-- (src/store/inMemoryRectorStore.ts) and src/store/lineage.ts. The text of a number in an id, and the
-- check of the schema, are arguments. A call runs to its end before the next one begins; the two halves
-- of `createConversation` around its `await` are functions of their own.
pub mod Rooted
pub mod Forest
pub mod Lineage
pub mod Races
mod Tests
use rector.Prelude.{
  ℕ, zero, suc, ◌+◌, ◌-◌, ◌≤◌, Bool, true, false, not, ◌&&◌, ◌||◌, String, Option, none, some, List,
  [], ◌∷◌, ◌++◌, map, Dict, lookup, insert, remove, has, includes, keep_if, length, if◌then◌else◌,
  ltb, leb, str_eq,
}

pub record Conversation : Type 0 where
  pub id : String
  pub title : String
  pub workspace_id : String
  pub parent_conversation_id : Option String
  pub compression_generation : Option ℕ
  pub compression_summary_artifact_id : Option String
  pub created_at : String
  pub updated_at : String
  pub retention_policy : String

pub record ConversationInput : Type 0 where
  pub title : String
  pub workspace_id : String
  pub parent_conversation_id : Option String
  pub compression_generation : Option ℕ
  pub compression_summary_artifact_id : Option String
  pub retention_policy : String

-- A property of a patch: it is absent, or it is present with a value, which may be `undefined`.
pub data Patched {ℓ} (A : Type ℓ) : Type ℓ where
  keep : Patched A
  set : A → Patched A

pub record ConversationPatch : Type 0 where
  pub title : Patched String
  pub workspace_id : Patched String
  pub parent_conversation_id : Patched (Option String)
  pub compression_generation : Patched (Option ℕ)
  pub compression_summary_artifact_id : Patched (Option String)
  pub retention_policy : Patched String

pub data LineageError : Type 0 where
  parent_not_found : String → LineageError
  other_workspace crosses_workspaces lineage_cycle missing_parent schema_error : LineageError
  exceeds_depth : ℕ → LineageError

pub data Result {ℓ} (A : Type ℓ) : Type ℓ where
  ok : A → Result A
  err : LineageError → Result A

pub record Runtime : Type 0 where
  pub conversation_id : ℕ → String
  pub is_conversation : Conversation → Bool

pub record Conversations : Type 0 where
  pub table : Dict Conversation
  pub counter : ℕ

abbrev pub empty : Conversations
empty = record { table = []; counter = 0 }

abbrev pub max_conversation_lineage_depth : ℕ
max_conversation_lineage_depth = 10

-- An id that is present and not empty.
abbrev pub given : Option String → Option String
given none = none
given (some s) = if str_eq s "" then none else some s

abbrev in_workspace : Option String → Conversation → Bool
in_workspace none c = true
in_workspace (some w) c = str_eq w "" || str_eq c.workspace_id w

-- The loop of `validateParentConversation` at `current`, with the depth that is left. It ends in time,
-- since it throws when nothing is left.
pub validate_chain :
    Dict Conversation
    → String
    → Option String
    → ℕ
    → List String
    → Conversation
    → Option LineageError
validate_chain table child workspace zero seen current =
    some (exceeds_depth max_conversation_lineage_depth)
validate_chain table child workspace (suc left) seen current =
    let up =
      λ (c : Conversation). validate_chain table child workspace left (current.id ∷ seen) c in
    if str_eq current.id child || includes current.id seen
    then some lineage_cycle
    else if leb left 0
    then some (exceeds_depth max_conversation_lineage_depth)
    else elim (given current.parent_conversation_id) [
      | none ↦ none
      | some p ↦ elim (lookup p table) [
        | none ↦ some missing_parent
        | some c ↦ if in_workspace workspace c then up c else some crosses_workspaces
      ]
    ]

pub validate_parent_conversation :
    Dict Conversation → String → String → Option String → Option LineageError
unfolding validate_chain
validate_parent_conversation table child parent workspace = elim (lookup parent table) [
  | none ↦ some (parent_not_found parent)
  | some c ↦
      if in_workspace workspace c
      then validate_chain table child workspace max_conversation_lineage_depth [] c
      else some other_workspace
]

-- The check of a parent id that may be absent.
abbrev pub validate_given :
    Dict Conversation → String → Option String → Option String → Option LineageError
validate_given table child none workspace = none
validate_given table child (some parent) workspace =
    validate_parent_conversation table child parent workspace

abbrev or_zero : Option ℕ → ℕ
or_zero none = 0
or_zero (some n) = n

abbrev pub peek_next_id : Runtime → Conversations → String
peek_next_id rt s = rt.conversation_id (s.counter + 1)

abbrev pub new_conversation : ConversationInput → String → String → Conversation
new_conversation input id now = record {
  id = id;
  title = input.title;
  workspace_id = input.workspace_id;
  parent_conversation_id = input.parent_conversation_id;
  compression_generation = some (or_zero input.compression_generation);
  compression_summary_artifact_id = input.compression_summary_artifact_id;
  created_at = now;
  updated_at = now;
  retention_policy = input.retention_policy;
}

-- `createConversation` up to its `await`: the id that it takes, and the check of the parent.
pub begin_create : Runtime → ConversationInput → Conversations → String × Option LineageError
unfolding validate_parent_conversation
begin_create rt input s =
    let id = peek_next_id rt s in
    (id, validate_given s.table id (given input.parent_conversation_id) (some input.workspace_id))

-- What `createConversation` does after the check.
pub finish_create :
    Runtime
    → ConversationInput
    → String
    → String
    → Conversations
    → Result Conversation × Conversations
finish_create rt input now id s =
    let c = new_conversation input id now in
    let counted = record s { counter = s.counter + 1 } in
    if rt.is_conversation c
    then (ok c, record counted { table = insert id c s.table })
    else (err schema_error, counted)

abbrev pub after_check :
    Option LineageError
    → Result Conversation × Conversations
    → Conversations
    → Result Conversation × Conversations
after_check none done s = done
after_check (some e) done s = (err e, s)

pub create_conversation :
    Runtime → ConversationInput → String → Conversations → Result Conversation × Conversations
unfolding begin_create finish_create
create_conversation rt input now s =
    let (id, error) = begin_create rt input s in
    after_check error (finish_create rt input now id s) s

abbrev pub or_kept {ℓ} : {A : Type ℓ} → Patched A → A → A
or_kept keep a = a
or_kept (set b) a = b

abbrev pub patched : Conversation → ConversationPatch → String → Conversation
patched c p now = record {
  id = c.id;
  title = or_kept p.title c.title;
  workspace_id = or_kept p.workspace_id c.workspace_id;
  parent_conversation_id = or_kept p.parent_conversation_id c.parent_conversation_id;
  compression_generation = or_kept p.compression_generation c.compression_generation;
  compression_summary_artifact_id =
      or_kept p.compression_summary_artifact_id c.compression_summary_artifact_id;
  created_at = c.created_at;
  updated_at = now;
  retention_policy = or_kept p.retention_policy c.retention_policy;
}

abbrev pub write_patched :
    Runtime → String → Conversation → Conversations → Result (Option Conversation) × Conversations
write_patched rt id updated s =
    if rt.is_conversation updated
    then (ok (some updated), record s { table = insert id updated s.table })
    else (err schema_error, s)

abbrev pub after_patch_check :
    Option LineageError
    → Result (Option Conversation) × Conversations
    → Conversations
    → Result (Option Conversation) × Conversations
after_patch_check none done s = done
after_patch_check (some e) done s = (err e, s)

pub update_conversation :
    Runtime
    → String
    → ConversationPatch
    → String
    → Conversations
    → Result (Option Conversation) × Conversations
update_conversation rt id patch now s = elim (lookup id s.table) [
  | none ↦ (ok none, s)
  | some c ↦
      let updated = patched c patch now in
      after_patch_check
        (validate_given s.table c.id (given updated.parent_conversation_id)
          (some updated.workspace_id))
        (write_patched rt id updated s) s
]

abbrev pub delete_conversation : String → Conversations → Bool × Conversations
delete_conversation id s = (has id s.table, record s { table = remove id s.table })

abbrev pub get_conversation : String → Conversations → Option Conversation
get_conversation id s = lookup id s.table

abbrev pub list_conversations : Option String → Conversations → List Conversation
list_conversations none s = map (λ (e : String × Conversation). e.1) s.table
list_conversations (some w) s =
    keep_if (λ c. str_eq c.workspace_id w) (map (λ (e : String × Conversation). e.1) s.table)

abbrev pub ids_of : List Conversation → List String
ids_of cs = map (λ (c : Conversation). c.id) cs

-- The loop of `getConversationLineage`; `lineage` has the latest first. It throws when the list is
-- longer than the depth, so one more than the depth is enough fuel.
pub walk_lineage :
    Dict Conversation → ℕ → List Conversation → Conversation → Result (List Conversation)
walk_lineage table zero lineage current = err (exceeds_depth max_conversation_lineage_depth)
walk_lineage table (suc left) lineage current =
    let up = λ (c : Conversation). walk_lineage table left (current ∷ lineage) c in
    if includes current.id (ids_of lineage)
    then err lineage_cycle
    else if ltb max_conversation_lineage_depth (length (current ∷ lineage))
    then err (exceeds_depth max_conversation_lineage_depth)
    else elim (given current.parent_conversation_id) [
      | none ↦ ok (current ∷ lineage)
      | some p ↦ elim (lookup p table) [ none ↦ err missing_parent | some c ↦ up c ]
    ]

pub get_conversation_lineage : String → Conversations → Result (List Conversation)
unfolding walk_lineage
get_conversation_lineage id s = elim (lookup id s.table) [
  | none ↦ ok []
  | some c ↦ walk_lineage s.table (suc max_conversation_lineage_depth) [] c
]
