-- ===== src/Store/Conversations/Races.antt =====
-- Two creations at a time.
use rector.Prelude.{◌+◌, true, String, some, lookup-insert, ◌≡◌, refl, eq_iff}
use rector.Store.Conversations.{
  ConversationInput, Runtime, Conversations, begin_create, finish_create, new_conversation,
  get_conversation,
}

-- Two creations that are both begun before one is finished, as they may be when each has a parent to
-- wait for, take the same id: the second write replaces the first conversation.
pub finish_create-collides :
    (rt : Runtime) (a b : ConversationInput) (now later : String) (s : Conversations)
    → rt.is_conversation (new_conversation b (begin_create rt b s).0 later) ≡ true
    → get_conversation
        (begin_create rt a s).0
        (finish_create rt b later
          (begin_create rt b s).0
          (finish_create rt a now (begin_create rt a s).0 s).1).1
      ≡ some (new_conversation b (begin_create rt a s).0 later)
unfolding begin_create finish_create
finish_create-collides rt a b now later s good =
    let id = rt.conversation_id (s.counter + 1) in
    let self = (eq_iff id id).1 refl in rw (good, lookup-insert, self) refl
