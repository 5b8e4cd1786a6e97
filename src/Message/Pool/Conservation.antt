-- ===== src/Message/Pool/Conservation.antt =====
-- The pool neither loses nor duplicates a message: the free list and the messages that clients
-- hold are together always the whole pool.
use mathlib.Core.List.{
  Perm, Mem, Nodup, Nodup-nil, Nodup-cons, mem-cons, not-mem-nil, append_assoc, perm_middle,
}
use mathlib.Core.HLevel.{⊥_prop}
use mathlib.Core.Logic.Or
use mathlib.Core.List.Perm
use mathlib.Core.Path.{subst}
use mblue.Common.{
  suc, ℕ, ◌+◌, ◌≤◌, ◌<◌, ◌≡◌, true, false, none, some, List, [], ◌∷◌, ◌++◌, arith, length, sym, ◌∙◌,
  ◌-◌, ap, ◌-◌, ◌⊎◌, inl, inr, refl, update, length-append,
}
use mblue.Message.Pool.{
  MessageList, max_message_num, zero_message, link_from, get_mblue_message_list_instance,
  get_mblue_message, mblue_message_alloc, mblue_message_release,
}

abbrev pub all_messages : List ℕ
all_messages = link_from max_message_num 0 []

-- `used` are the messages that clients hold.
pub record IsPool (l : MessageList) (used : List ℕ) : Type 0 where
  pub is_ready : l.ready ≡ true
  pub counted : l.count ≡ length l.msg_list
  pub whole : Perm (l.msg_list ++ used) all_messages

-- what `mblue_message_alloc` leaves when it hands out the first free message
abbrev pub without_first : MessageList → ℕ → List ℕ → MessageList
without_first l i rest = record l {
  count = l.count - 1;
  msg_list = rest;
  mblue_message_pool = update l.mblue_message_pool i zero_message;
}

module _ {l : MessageList} {used : List ℕ} (v : IsPool l used) where
  -- From a pool with a free message `mblue_message_alloc` takes the one that has been free longest,
  -- and leaves it zeroed; from an exhausted pool it returns NULL and changes nothing.
  pub alloc_cases :
      ((l.msg_list ≡ []) × (mblue_message_alloc l ≡ (none, l)))
      ⊎ ((i : ℕ) × (rest : List ℕ) × (l.msg_list ≡ i ∷ rest)
          × (mblue_message_alloc l ≡ (some i, without_first l i rest)))
  unfolding mblue_message_alloc
  alloc_cases = split l.msg_list refl
    where
      split :
          (free : List ℕ)
          → l.msg_list ≡ free
          → ((l.msg_list ≡ []) × (mblue_message_alloc l ≡ (none, l)))
            ⊎ ((i : ℕ) × (rest : List ℕ) × (l.msg_list ≡ i ∷ rest)
                × (mblue_message_alloc l ≡ (some i, without_first l i rest)))
      split [] e = inl (e, ground (arith, v.is_ready, v.counted))
      split (i ∷ rest) e = inr (i, rest, e, ground (arith, v.is_ready, v.counted))

  without_first-IsPool :
      (i : ℕ) (rest : List ℕ) → l.msg_list ≡ i ∷ rest → IsPool (without_first l i rest) (i ∷ used)
  without_first-IsPool i rest e = record {
    is_ready = v.is_ready;
    counted = omega (arith, v.counted, ap length e);
    whole =
        Perm.trans (perm_middle rest used)
          (subst (λ (xs : List ℕ). Perm (xs ++ used) all_messages) e v.whole);
  }

  -- The call that drops the last reference puts the message at the end of the free list.
  pub release_last :
      (i : ℕ)
      → (l.mblue_message_pool i).ref ≤ 1
      → ((mblue_message_release l i).msg_list ≡ l.msg_list ++ (i ∷ []))
        × ((mblue_message_release l i).count ≡ l.count + 1)
        × ((mblue_message_release l i).ready ≡ true)
  unfolding mblue_message_release
  release_last i h = ground (arith, v.is_ready)

  -- With more references left, only the count of the message falls.
  pub release_shared :
      (i : ℕ)
      → 1 < (l.mblue_message_pool i).ref
      → ((mblue_message_release l i).msg_list ≡ l.msg_list)
        × ((mblue_message_release l i).count ≡ l.count)
        × ((mblue_message_release l i).ready ≡ true)
        × (((mblue_message_release l i).mblue_message_pool i).ref
            ≡ (l.mblue_message_pool i).ref - 1)
  unfolding mblue_message_release
  release_shared i h = ground (arith, v.is_ready)

  release_last-IsPool :
      (i : ℕ) {rest : List ℕ}
      → Perm used (i ∷ rest)
      → (l.mblue_message_pool i).ref ≤ 1
      → IsPool (mblue_message_release l i) rest
  release_last-IsPool i {rest} held h =
      let (listed, count, is_ready) = release_last i h in
      record {
        is_ready = is_ready;
        counted =
            omega (arith, count, v.counted, ap length listed, length-append l.msg_list (i ∷ []));
        whole =
            rw (listed, append_assoc l.msg_list (i ∷ []) rest)
              (Perm.trans (Perm.append_left l.msg_list (Perm.symm held)) v.whole);
      }

  release_shared-IsPool :
      (i : ℕ) → 1 < (l.mblue_message_pool i).ref → IsPool (mblue_message_release l i) used
  release_shared-IsPool i h =
      let (listed, count, is_ready, _) = release_shared i h in
      record {
        is_ready = is_ready;
        counted = omega (arith, count, v.counted, ap length listed);
        whole = rw listed v.whole;
      }

-- The states that clients of the pool reach, with the messages that they hold. A client releases
-- what it holds; a release that drops the last reference ends the holding.
pub data Reach : MessageList → List ℕ → Type 0 where
  start : (l : MessageList) → l.ready ≡ false → Reach (get_mblue_message_list_instance l) []
  alloc :
      {l l' : MessageList} {used : List ℕ} {i : ℕ}
      → Reach l used
      → mblue_message_alloc l ≡ (some i, l')
      → Reach l' (i ∷ used)
  retain :
      {l : MessageList} {used : List ℕ} (i : ℕ) → Reach l used → Reach (get_mblue_message l i) used
  release :
      {l : MessageList} {used rest : List ℕ} (i : ℕ)
      → Reach l used
      → Perm used (i ∷ rest)
      → (l.mblue_message_pool i).ref ≤ 1
      → Reach (mblue_message_release l i) rest
  drop_ref :
      {l : MessageList} {used : List ℕ} (i : ℕ)
      → Reach l used
      → 1 < (l.mblue_message_pool i).ref
      → Reach (mblue_message_release l i) used

start-IsPool : (l : MessageList) → l.ready ≡ false → IsPool (get_mblue_message_list_instance l) []
unfolding get_mblue_message_list_instance link_from
start-IsPool l h =
    rw (h, get_mblue_message_list_instance)
      (record { is_ready = refl; counted = refl; whole = Perm.refl _ })

alloc-IsPool :
    {l l' : MessageList} {used : List ℕ} {i : ℕ}
    → IsPool l used
    → mblue_message_alloc l ≡ (some i, l')
    → IsPool l' (i ∷ used)
alloc-IsPool {l} {l'} {used} {i} v e = elim (alloc_cases v) [
  | inl (_, failed) ↦ cc
  | inr (j, rest, first, got) ↦
      let same : i ≡ j = ground (arith, e, got) in
      let left : l' ≡ without_first l j rest = ap (λ r. r.1) (sym e ∙ got) in
      rw (same, left) (without_first-IsPool v j rest first)
]

retain-IsPool :
    {l : MessageList} {used : List ℕ} (i : ℕ) → IsPool l used → IsPool (get_mblue_message l i) used
unfolding get_mblue_message
retain-IsPool i v = record { is_ready = v.is_ready; counted = v.counted; whole = v.whole }

-- In every state that clients reach, the free messages and the held ones are together the 32
-- messages of the pool, each exactly once, and `count` is the number of free ones.
pub Reach-IsPool : {l : MessageList} {used : List ℕ} → Reach l used → IsPool l used
Reach-IsPool (start l h) = start-IsPool l h
Reach-IsPool (alloc r e) = alloc-IsPool (Reach-IsPool r) e
Reach-IsPool (retain i r) = retain-IsPool i (Reach-IsPool r)
Reach-IsPool (release i r held h) = release_last-IsPool (Reach-IsPool r) i held h
Reach-IsPool (drop_ref i r h) = release_shared-IsPool (Reach-IsPool r) i h

-- Numbers that rise along the list, from `b` on.
abbrev Rises : ℕ → List ℕ → Type 0
Rises b [] = Unit {0}
Rises b (x ∷ xs) = (b ≤ x) × Rises (suc x) xs

not-mem_below : (a b : ℕ) (xs : List ℕ) → Rises b xs → a < b → ¬ (Mem a xs)
not-mem_below a b [] r h m = not-mem-nil m
not-mem_below a b (x ∷ xs) r h m =
    Or.elim ⊥_prop (mem-cons.0 m) (λ e. omega arith) (not-mem_below a (suc x) xs r.1 (omega arith))

Rises-Nodup : (b : ℕ) (xs : List ℕ) → Rises b xs → Nodup xs
Rises-Nodup b [] r = Nodup-nil
Rises-Nodup b (x ∷ xs) r =
    Nodup-cons.1 (not-mem_below x (suc x) xs r.1 (omega arith), Rises-Nodup (suc x) xs r.1)

-- No message is held twice, or held while it is free.
pub Reach-Nodup : {l : MessageList} {used : List ℕ} → Reach l used → Nodup (l.msg_list ++ used)
unfolding link_from
Reach-Nodup r =
    Perm.nodup (Perm.symm (Reach-IsPool r).whole) (Rises-Nodup 0 all_messages (omega arith))
