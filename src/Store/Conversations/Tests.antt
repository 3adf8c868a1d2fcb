-- ===== src/Store/Conversations/Tests.antt =====
-- A conversation with a child, a loop that is refused, and two creations at a time.
use rector.Prelude.{
  true, some, none, String, Option, List, [], ◌∷◌, ◌==◌, ◌≡◌, ◌≢◌, refl, if◌then◌else◌, lookup,
  insert, includes,
}
use rector.Store.Conversations.{
  ConversationInput, ConversationPatch, keep, set, err, lineage_cycle, Runtime, Conversations,
  empty, begin_create, finish_create, new_conversation, create_conversation, update_conversation,
  get_conversation, get_conversation_lineage,
}
use rector.Store.Conversations.Forest.{ConversationCall, create, update, perform_all}
use rector.Store.Conversations.Lineage.{get_conversation_lineage-acyclic}
use rector.Store.Conversations.Races.{finish_create-collides}

abbrev runtime : Runtime
runtime = record {
  conversation_id = λ n. if n == 1 then "conv-1" else "conv-2";
  is_conversation = λ c. true;
}

abbrev input_of : Option String → ConversationInput
input_of parent = record {
  title = "talk";
  workspace_id = "w";
  parent_conversation_id = parent;
  compression_generation = none;
  compression_summary_artifact_id = none;
  retention_policy = "default";
}

abbrev move_under : String → ConversationPatch
move_under parent = record {
  title = keep;
  workspace_id = keep;
  parent_conversation_id = set (some parent);
  compression_generation = keep;
  compression_summary_artifact_id = keep;
  retention_policy = keep;
}

abbrev calls : List ConversationCall
calls =
    create (input_of none) "12:00"
    ∷ create (input_of (some "conv-1")) "12:01"
    ∷ update "conv-1" (move_under "conv-2") "12:02"
    ∷ []

get_conversation_lineage-acyclic_example :
    get_conversation_lineage "conv-2" (perform_all runtime calls empty) ≢ err lineage_cycle
get_conversation_lineage-acyclic_example = get_conversation_lineage-acyclic runtime calls "conv-2"

loop_refused :
    (update_conversation runtime "conv-1" (move_under "conv-2") "12:02" (
      perform_all runtime
        (create (input_of none) "12:00" ∷ create (input_of (some "conv-1")) "12:01" ∷ [])
        empty)).0
    ≡ err lineage_cycle
unfolding update_conversation lookup create_conversation insert includes
loop_refused = refl

abbrev one_stored : Conversations
one_stored = (create_conversation runtime (input_of none) "12:00" empty).1

finish_create-collides_example :
    get_conversation
      (begin_create runtime (input_of (some "conv-1")) one_stored).0
      (finish_create runtime
        (input_of (some "conv-1"))
        "12:02"
        (begin_create runtime (input_of (some "conv-1")) one_stored).0
        (finish_create runtime
          (input_of (some "conv-1"))
          "12:01"
          (begin_create runtime (input_of (some "conv-1")) one_stored).0
          one_stored).1).1
    ≡ some (
        new_conversation
          (input_of (some "conv-1"))
          (begin_create runtime (input_of (some "conv-1")) one_stored).0
          "12:02")
finish_create-collides_example =
    finish_create-collides runtime (input_of (some "conv-1")) (input_of (some "conv-1")) "12:01"
      "12:02" one_stored refl
