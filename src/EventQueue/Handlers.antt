-- ===== src/EventQueue/Handlers.antt =====
-- The call chain of an element: which handlers `event_queue_wakeup` calls on it.
use mblue.Common.{ℕ, zero, suc, ◌≡◌, ◌≢◌, refl, List, [], ◌∷◌, ◌==◌, arith, Bool-cases, inl, inr}
use mblue.Common.Int.{pos, negsuc}
use mblue.Errcode.{Errcode, element_exit}
use mblue.EventQueue.{
  Element, Client, run_chain, chain, call_wakeup, call_finish, call_cancel, after_wakeup,
}

-- The handlers that a wakeup calls on the element `e`, in order, and the code that decides: the
-- CALL_WAKEUP handler, and the one at the place that it answers with; without it the CALL_FINISH
-- handler, without that the CALL_CANCEL handler, and MBLUE_ELEMENT_EXIT without any.
pub data Handled (c : Client) (param : ℕ) (e : Element) : Errcode → List ℕ → Type 0 where
  fails :
      (n : ℕ)
      → chain e call_wakeup ≢ 0
      → c.handle (chain e call_wakeup) e param ≡ negsuc n
      → Handled c param e (negsuc n) (chain e call_wakeup ∷ [])
  stays :
      chain e call_wakeup ≢ 0
      → c.handle (chain e call_wakeup) e param ≡ pos 0
      → Handled c param e (pos 0) (chain e call_wakeup ∷ [])
  ends_there :
      (n : ℕ)
      → chain e call_wakeup ≢ 0
      → c.handle (chain e call_wakeup) e param ≡ pos (suc n)
      → chain e (suc n) ≡ 0
      → Handled c param e (pos (suc n)) (chain e call_wakeup ∷ [])
  goes_on :
      (n : ℕ)
      → chain e call_wakeup ≢ 0
      → c.handle (chain e call_wakeup) e param ≡ pos (suc n)
      → chain e (suc n) ≢ 0
      → Handled c param e
          (c.handle (chain e (suc n)) e param)
          (chain e call_wakeup ∷ chain e (suc n) ∷ [])
  finishes :
      chain e call_wakeup ≡ 0
      → chain e call_finish ≢ 0
      → Handled c param e (c.handle (chain e call_finish) e param) (chain e call_finish ∷ [])
  cancels :
      chain e call_wakeup ≡ 0
      → chain e call_finish ≡ 0
      → chain e call_cancel ≢ 0
      → Handled c param e (c.handle (chain e call_cancel) e param) (chain e call_cancel ∷ [])
  unhandled :
      chain e call_wakeup ≡ 0
      → chain e call_finish ≡ 0
      → chain e call_cancel ≡ 0
      → Handled c param e element_exit []

module _ (c : Client) (param : ℕ) (e : Element) where
  after_wakeup-Handled :
      (rc : Errcode)
      → chain e call_wakeup ≢ 0
      → c.handle (chain e call_wakeup) e param ≡ rc
      → Handled c param e (after_wakeup c e param rc).0 (after_wakeup c e param rc).1
  unfolding after_wakeup
  after_wakeup-Handled (negsuc n) there answers = fails n there answers
  after_wakeup-Handled (pos zero) there answers = stays there answers
  after_wakeup-Handled (pos (suc n)) there answers = elim (Bool-cases (chain e (suc n) == 0)) [
    | inl missing ↦ rw missing (ends_there n there answers (ground (arith, missing)))
    | inr next ↦ rw next (goes_on n there answers (ground (arith, next)))
  ]

  pub run_chain-Handled : Handled c param e (run_chain c e param).0 (run_chain c e param).1
  unfolding run_chain
  run_chain-Handled = elim (Bool-cases (chain e call_wakeup == 0)) [
    | inr wakes ↦
        rw wakes (
          after_wakeup-Handled (c.handle (chain e call_wakeup) e param) (ground (arith, wakes))
            refl)
    | inl asleep ↦ elim (Bool-cases (chain e call_finish == 0)) [
      | inr ends ↦ rw (asleep, ends) (finishes (ground (arith, asleep)) (ground (arith, ends)))
      | inl open_ended ↦ elim (Bool-cases (chain e call_cancel == 0)) [
        | inr cancelled ↦
            rw (asleep, open_ended, cancelled)
              (cancels (ground (arith, asleep)) (ground (arith, open_ended))
                (ground (arith, cancelled)))
        | inl nothing ↦
            rw (asleep, open_ended, nothing)
              (unhandled (ground (arith, asleep)) (ground (arith, open_ended))
                (ground (arith, nothing)))
      ]
    ]
  ]
