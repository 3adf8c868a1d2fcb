-- ===== src/Store/Conversations/Forest.antt =====
-- The calls on conversations keep their parents ending.
use rector.Prelude.{
  String, Option, none, some, List, [], ◌∷◌, Dict, lookup, insert, ◌≡◌, inl, inr, refl, Bool-cases,
  Option-cases,
}
use rector.Store.Conversations.{
  Conversation, ConversationInput, ConversationPatch, Runtime, Conversations, given, validate_given,
  begin_create, finish_create, new_conversation, peek_next_id, create_conversation, patched,
  update_conversation, delete_conversation,
}
use rector.Store.Conversations.Rooted.{
  IsKeyed, Rooted, insert-Rooted, remove-Rooted, insert-IsKeyed, remove-IsKeyed,
  validate_given-Admitted,
}

-- Conversations under their ids, from each of which the parents end.
pub record IsForest (table : Dict Conversation) : Type 0 where
  pub keyed : IsKeyed table
  pub rooted : (id : String) → Rooted table id

insert-IsForest :
    (x : String) (c : Conversation) (table : Dict Conversation) (w : Option String)
    → c.id ≡ x
    → validate_given table x (given c.parent_conversation_id) w ≡ none
    → IsForest table
    → IsForest (insert x c table)
insert-IsForest x c table w e v f =
    let a = validate_given-Admitted table x (given c.parent_conversation_id) w f.keyed v in
    record {
      keyed = insert-IsKeyed x c table e f.keyed;
      rooted = λ id. insert-Rooted x c table a (f.rooted id);
    }

-- The calls that change the conversations.
pub data ConversationCall : Type 0 where
  create : ConversationInput → String → ConversationCall
  update : String → ConversationPatch → String → ConversationCall
  delete : String → ConversationCall

abbrev pub perform : Runtime → ConversationCall → Conversations → Conversations
perform rt (create input now) s = (create_conversation rt input now s).1
perform rt (update id patch now) s = (update_conversation rt id patch now s).1
perform rt (delete id) s = (delete_conversation id s).1

abbrev pub perform_all : Runtime → List ConversationCall → Conversations → Conversations
perform_all rt [] s = s
perform_all rt (c ∷ cs) s = perform_all rt cs (perform rt c s)

create-IsForest :
    (rt : Runtime) (input : ConversationInput) (now : String) (s : Conversations)
    → IsForest s.table
    → IsForest (create_conversation rt input now s).1.table
unfolding create_conversation begin_create finish_create
create-IsForest rt input now s f =
    let id = peek_next_id rt s in
    let c = new_conversation input id now in
    let check =
      validate_given s.table id (given input.parent_conversation_id) (some input.workspace_id) in
    elim (Option-cases check) [
      | inl fine ↦ elim (Bool-cases (rt.is_conversation c)) [
        | inl good ↦
            rw (fine, good) (insert-IsForest id c s.table (some input.workspace_id) refl fine f)
        | inr bad ↦ rw (fine, bad) f
      ]
      | inr (e, wrong) ↦ rw wrong f
    ]

update-IsForest :
    (rt : Runtime) (id : String) (patch : ConversationPatch) (now : String) (s : Conversations)
    → IsForest s.table
    → IsForest (update_conversation rt id patch now s).1.table
unfolding update_conversation
update-IsForest rt id patch now s f = elim (Option-cases (lookup id s.table)) [
  | inl gone ↦ rw (gone, update_conversation) f
  | inr (c, found) ↦
      let u = patched c patch now in
      let e : c.id ≡ id = f.keyed id c found in
      elim (Option-cases
        (validate_given s.table c.id (given u.parent_conversation_id) (some u.workspace_id))) [
          | inl fine ↦ elim (Bool-cases (rt.is_conversation u)) [
            | inl good ↦
                rw (found, fine, good, update_conversation)
                  (insert-IsForest id u s.table (some u.workspace_id) e (rw e at fine) f)
            | inr bad ↦ rw (found, fine, bad, update_conversation) f
          ]
          | inr (e', wrong) ↦ rw (found, wrong, update_conversation) f
        ]
]

pub perform_all-IsForest :
    (rt : Runtime) (cs : List ConversationCall) (s : Conversations)
    → IsForest s.table
    → IsForest (perform_all rt cs s).table
perform_all-IsForest rt [] s f = f
perform_all-IsForest rt (create input now ∷ cs) s f =
    perform_all-IsForest rt cs _ (create-IsForest rt input now s f)
perform_all-IsForest rt (update id patch now ∷ cs) s f =
    perform_all-IsForest rt cs _ (update-IsForest rt id patch now s f)
perform_all-IsForest rt (delete id ∷ cs) s f = perform_all-IsForest rt cs _ (record {
  keyed = remove-IsKeyed id s.table f.keyed;
  rooted = λ j. remove-Rooted id s.table (f.rooted j);
})
