-- ===== src/Tests/Pool.antt =====
-- A run of the message pool: a message is taken, retained, and released twice.
use mblue.Common.{refl, false, [], ◌∷◌}
use mblue.Message.Pool.{
  MessageList, zero_message, get_mblue_message_list_instance, get_mblue_message,
  mblue_message_alloc, mblue_message_get, mblue_message_init, link_from, take_first,
}
use mblue.Message.Pool.Conservation.{IsPool, Reach, Reach-IsPool}

-- The pool before it is first used.
abbrev unset : MessageList
unset = record { ready = false; count = 0; msg_list = []; mblue_message_pool = λ i. zero_message }

abbrev fresh : MessageList
fresh = get_mblue_message_list_instance unset

abbrev taken : MessageList
taken = (mblue_message_alloc fresh).1

fresh-Reach : Reach fresh []
fresh-Reach = Reach.start unset refl

taken-Reach : Reach taken (0 ∷ [])
unfolding mblue_message_alloc mblue_message_get get_mblue_message_list_instance mblue_message_init
    link_from take_first
taken-Reach = Reach.alloc fresh-Reach refl

retained-Reach : Reach (get_mblue_message (get_mblue_message taken 0) 0) (0 ∷ [])
retained-Reach = Reach.retain 0 (Reach.retain 0 taken-Reach)

Reach-IsPool_example : IsPool (get_mblue_message (get_mblue_message taken 0) 0) (0 ∷ [])
Reach-IsPool_example = Reach-IsPool retained-Reach
