-- ===== src/Task/Served.antt =====
-- The loop of a task between the posts of the others: every message is taken in its turn.
use mblue.Common.{
  ℕ, suc, ◌<◌, ◌≡◌, ◌≢◌, refl, sym, ap, ◌∙◌, inl, inr, List, [], ◌∷◌, ◌++◌, append_assoc, Option,
  none, some, length, ltb, if_intro, if◌then◌else◌, arith,
}
use mblue.MessageQueue.Refines.{contents, length-contents}
use mblue.Task.{Task, pointer, template_msg_post, template_proc_round}
use mblue.Task.Loop.{IsTask, template_msg_post_lem, template_proc_round_lem}

-- What happens to a task: another task posts it a message, or its loop makes a round.
pub data Event : Type 0 where
  post : ℕ → Event
  round : Event

-- A round that blocks changes nothing; the list is what the loop takes.
abbrev pub after_round : Task → Option (ℕ × Task) → List ℕ × Task
after_round t none = ([], t)
after_round t (some (m, t')) = (m ∷ [], t')

abbrev pub run : List Event → Task → List ℕ
run [] t = []
run (post msg ∷ events) t = run events (template_msg_post t msg).1
run (round ∷ events) t =
    let (taken, t') = after_round t (template_proc_round t) in taken ++ run events t'

abbrev pub rounds : List Event → ℕ
rounds [] = 0
rounds (post msg ∷ events) = rounds events
rounds (round ∷ events) = suc (rounds events)

abbrev Takes : List ℕ → ℕ → List ℕ → Type 0
Takes before m taken = (rest : List ℕ) × (taken ≡ before ++ (m ∷ rest))

-- A post leaves what waits in front.
posted :
    (t : Task) (msg m : ℕ) (before after : List ℕ)
    → IsTask t
    → contents t.mq ≡ before ++ (m ∷ after)
    → (after' : List ℕ) × (contents (template_msg_post t msg).1.mq ≡ before ++ (m ∷ after'))
posted t msg m before after w e =
    let (replied, holds, valid) = template_msg_post_lem t msg w in
    let both : (after' : List ℕ) × ((if ltb t.mq.size t.mq.capacity
            then contents t.mq ++ (pointer msg ∷ [])
            else contents t.mq)
          ≡ before ++ (m ∷ after')) =
      if_intro (λ c. (after' : List ℕ) × (c ≡ before ++ (m ∷ after'))) (ltb t.mq.size t.mq.capacity)
        (λ room. (
          after ++ (pointer msg ∷ []),
          ap (λ (l : List ℕ). l ++ (pointer msg ∷ [])) e
              ∙ append_assoc before (m ∷ after) (pointer msg ∷ []),
        ))
        (λ full. (after, e)) in
    (both.0, holds ∙ both.1)

head_of : List ℕ → ℕ
head_of [] = 0
head_of (x ∷ xs) = x

tail_of : List ℕ → List ℕ
tail_of [] = []
tail_of (x ∷ xs) = xs

nonempty : (xs : List ℕ) (b : ℕ) (rest : List ℕ) → xs ≡ [] → xs ≢ b ∷ rest
nonempty xs b rest e e' = absurd (omega (arith, ap (λ (l : List ℕ). length l) (sym e ∙ e')))

-- A round takes the first message.
served :
    (t : Task) (b : ℕ) (rest : List ℕ)
    → IsTask t
    → contents t.mq ≡ b ∷ rest
    → (t' : Task) × (template_proc_round t ≡ some (b, t')) × (contents t'.mq ≡ rest) × IsTask t'
unfolding head_of tail_of
served t b rest w e = elim (template_proc_round_lem t w) [
  | inl (blocked, empty) ↦ absurd (nonempty (contents t.mq) b rest empty e)
  | inr (m, t', taken, ne, holds, valid) ↦ (
    t',
    taken ∙ ap (λ (x : ℕ). some (x, t')) (ap head_of (sym holds ∙ e)),
    ap tail_of (sym holds ∙ e),
    valid,
  )
]

-- The rest of a run behind a round.
abbrev after_all : Task → List Event → Option (ℕ × Task) → List ℕ
after_all t events o = let (taken, t') = after_round t o in taken ++ run events t'

run-Takes :
    (events : List Event) (t : Task) (m : ℕ) (before after : List ℕ)
    → IsTask t
    → contents t.mq ≡ before ++ (m ∷ after)
    → length before < rounds events
    → Takes before m (run events t)
run-Takes [] t m before after w e enough = absurd (omega arith)
run-Takes (post msg ∷ events) t m before after w e enough =
    let (after', e') = posted t msg m before after w e in
    run-Takes events (template_msg_post t msg).1 m before after' (template_msg_post_lem t msg w).2
      e' enough
run-Takes (round ∷ events) t m [] after w e enough =
    let (t', taken, left, valid) = served t m after w e in
    (run events t', ap (λ (o : Option (ℕ × Task)). after_all t events o) taken)
run-Takes (round ∷ events) t m (b ∷ before) after w e enough =
    let (t', taken, left, valid) = served t b (before ++ (m ∷ after)) w e in
    let (rest, e') = run-Takes events t' m before after valid left (omega (arith, enough)) in
    (
      rest,
      ap (λ (o : Option (ℕ × Task)). after_all t events o) taken ∙ ap (λ (l : List ℕ). b ∷ l) e',
    )

-- A message that is posted to a task with room in its queue is taken by the task's loop: whatever is
-- posted before, between and after, and wherever the rounds of the loop stand, once there have been
-- more rounds than messages were waiting when it was posted, the loop has taken these in their order
-- and then the message.
pub posted-Takes :
    (events : List Event) (t : Task) (msg : ℕ)
    → IsTask t
    → t.mq.size < t.mq.capacity
    → t.mq.size < rounds events
    → (rest : List ℕ) × (run (post msg ∷ events) t ≡ contents t.mq ++ (pointer msg ∷ rest))
posted-Takes events t msg w room enough =
    let (replied, holds, valid) = template_msg_post_lem t msg w in
    run-Takes events (template_msg_post t msg).1 (pointer msg) (contents t.mq) [] valid
      (holds
        ∙ if_intro (λ c. c ≡ contents t.mq ++ (pointer msg ∷ [])) (ltb t.mq.size t.mq.capacity)
            (λ free. refl) (λ full. absurd (ground (arith, full))))
      (omega (arith, enough, length-contents t.mq))
