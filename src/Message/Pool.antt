-- ===== src/Message/Pool.antt =====
-- mblue_message.c: the pool of messages. A message is named by its place in
-- `mblue_message_pool`, and `msg_list` is the free messages in link order: `list_add_tail` of
-- mblue_list.h appends, `list_del` of the first node drops it. The critical sections make each
-- operation one step. `_ASSERT` is empty in the release build.
pub mod Conservation
use mblue.Common.{
  ℕ, zero, suc, ◌+◌, ◌-◌, Bool, true, false, Option, none, some, List, [], ◌∷◌, ◌++◌, ◌==◌,
  if◌then◌else◌, update,
}
use mblue.Common.Words.{u16}

-- `struct mblue_message`; pointers are addresses, 0 is NULL, and `extra` is the union of `extra`,
-- `ipc_return` and `pn`.
pub record Message : Type 0 where
  pub seq : ℕ
  pub ref : ℕ
  pub code : ℕ
  pub src : ℕ
  pub dst : ℕ
  pub smart_payload : ℕ
  pub extra : ℕ

-- what `memset` leaves
abbrev pub zero_message : Message
zero_message = record { seq = 0; ref = 0; code = 0; src = 0; dst = 0; smart_payload = 0; extra = 0 }

-- `struct mblue_message_list`; `ready` is `mlist != NULL`.
pub record MessageList : Type 0 where
  pub ready : Bool
  pub count : ℕ
  pub msg_list : List ℕ
  pub mblue_message_pool : ℕ → Message

abbrev pub max_message_num : ℕ
max_message_num = 32

-- the loop of `mblue_message_init`: `n` more messages from number `i` on are linked at the tail
unfoldable pub link_from : ℕ → ℕ → List ℕ → List ℕ
link_from zero i l = l
link_from (suc n) i l = link_from n (i + 1) (l ++ (i ∷ []))

unfoldable pub mblue_message_init : MessageList → MessageList
mblue_message_init l = record l {
  count = max_message_num;
  msg_list = link_from max_message_num 0 [];
}

unfoldable pub get_mblue_message_list_instance : MessageList → MessageList
unfolding mblue_message_init
get_mblue_message_list_instance l =
    if l.ready then l else record (mblue_message_init l) { ready = true }

-- `list->msg_list.next` unlinked; on an empty list C would unlink the list head itself, which the
-- invariant of `Conservation` excludes.
unfoldable pub take_first : MessageList → List ℕ → Option ℕ × MessageList
take_first l [] = (none, record l { count = l.count - 1 })
take_first l (i ∷ rest) = (some i, record l { count = l.count - 1; msg_list = rest })

unfoldable pub mblue_message_get : MessageList → Option ℕ × MessageList
unfolding take_first
mblue_message_get l = if l.count == 0 then (none, l) else take_first l l.msg_list

unfoldable pub mblue_message_put : MessageList → ℕ → MessageList
mblue_message_put l i = record l { msg_list = l.msg_list ++ (i ∷ []); count = l.count + 1 }

-- `get_mblue_message` and `put_mblue_message` of one message
unfoldable pub get_ref : Message → Message
get_ref m = record m { ref = u16 (m.ref + 1) }

unfoldable pub put_ref : Message → Message
put_ref m = if m.ref == 0 then m else record m { ref = m.ref - 1 }

abbrev pub write : MessageList → ℕ → Message → MessageList
write l i m = record l { mblue_message_pool = update l.mblue_message_pool i m }

unfoldable pub get_mblue_message : MessageList → ℕ → MessageList
unfolding get_ref
get_mblue_message l i = write l i (get_ref (l.mblue_message_pool i))

unfoldable pub mblue_message_alloc : MessageList → Option ℕ × MessageList
unfolding get_mblue_message_list_instance mblue_message_get
mblue_message_alloc l =
    let (got, l') = mblue_message_get (get_mblue_message_list_instance l) in
    elim got [ none ↦ (none, l') | some i ↦ (some i, write l' i zero_message) ]

unfoldable pub mblue_message_release : MessageList → ℕ → MessageList
unfolding get_mblue_message_list_instance mblue_message_put put_ref
mblue_message_release l i =
    let ready = get_mblue_message_list_instance l in
    let m = put_ref (ready.mblue_message_pool i) in
    let l' = write ready i m in if m.ref == 0 then mblue_message_put l' i else l'
