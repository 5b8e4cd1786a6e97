-- ===== src/Tests/Semaphore.antt =====
-- A run of a semaphore over numbers.
use mblue.Common.{
  ℕ, zero, suc, ◌≡◌, ◌≢◌, refl, sym, ap, ◌∙◌, ◌⊎◌, inl, inr, true, false, List, [], ◌∷◌, Option,
  none, some, ◌==◌, if◌then◌else◌, Bool-cases, arith,
}
use mblue.Common.Int.{ℤ, pos, negsuc}
use mblue.Semaphore.{Posix, mblue_semaphore_alloc, mblue_semaphore_free}
use mblue.Semaphore.Counting.{
  IsCounting, Call, Counts, pend, post, semaphore_run, set_up, mblue_semaphore_alloc-run,
}

abbrev wait : ℕ → Option (ℤ × ℕ)
wait zero = none
wait (suc n) = some (pos 0, n)

abbrev numbers : Posix ℕ
numbers = record {
  cleared = 7;
  sem_init = λ s. (pos 0, 0);
  sem_wait = wait;
  sem_post = λ s. (pos 0, suc s);
  sem_destroy = λ s. (pos 0, s);
}

-- A semaphore of which a wait is interrupted at 5.
abbrev interrupted : ℕ → Option (ℤ × ℕ)
interrupted s = if s == 5 then some (negsuc 0, s) else wait s

abbrev signals : Posix ℕ
signals = record numbers { sem_wait = interrupted }

first_of : Option (ℤ × ℕ) → ℤ × ℕ
first_of none = (pos 0, 0)
first_of (some r) = r

same_first : (r r' : ℤ × ℕ) → some r ≡ some r' → r ≡ r'
unfolding first_of
same_first r r' e = ap first_of e

wait_takes : (s : ℕ) (r : ℤ × ℕ) → wait s ≡ some r → s ≡ suc r.1
wait_takes zero r e = cc
wait_takes (suc s) r e = ap (λ (x : ℤ × ℕ). suc x.1) (same_first (pos 0, s) r e)

wait_answers : (s : ℕ) (r : ℤ × ℕ) → wait s ≡ some r → r.0 ≡ pos 0
wait_answers zero r e = cc
wait_answers (suc s) r e = ap (λ (x : ℤ × ℕ). x.0) (sym (same_first (pos 0, s) r e))

wait_blocks : (s : ℕ) → wait s ≡ none → s ≡ 0
wait_blocks zero e = refl
wait_blocks (suc s) e = cc

at_5_is : (s : ℕ) → (s == 5) ≡ true → interrupted s ≡ some (negsuc 0, s)
at_5_is s at_5 = rw at_5 refl

interrupted_fails :
    (s : ℕ) (r : ℤ × ℕ) → (s == 5) ≡ true → interrupted s ≡ some r → r ≡ (negsuc 0, s)
interrupted_fails s r at_5 e = sym (same_first (negsuc 0, s) r (sym (at_5_is s at_5) ∙ e))

some_ne : (s : ℕ) → (s == 5) ≡ true → interrupted s ≢ none
some_ne s at_5 e = absurd (cc (at_5_is s at_5, e))

interrupted_waits : (s : ℕ) → (s == 5) ≡ false → interrupted s ≡ wait s
interrupted_waits s off_5 = rw off_5 refl

not_zero : negsuc 0 ≢ pos 0
not_zero e = cc

signals-IsCounting : IsCounting signals (λ s. s)
signals-IsCounting = record {
  init_value = λ s e. refl;
  post_adds = λ s e. refl;
  post_fails = λ s ne. absurd (ne refl);
  wait_takes = λ s r e done. elim (Bool-cases (s == 5)) [
    | inl at_5 ↦
        absurd (not_zero (ap (λ (x : ℤ × ℕ). x.0) (sym (interrupted_fails s r at_5 e)) ∙ done))
    | inr off_5 ↦ wait_takes s r (sym (interrupted_waits s off_5) ∙ e)
  ];
  wait_fails = λ s r e failed. elim (Bool-cases (s == 5)) [
    | inl at_5 ↦ ap (λ (x : ℤ × ℕ). x.1) (sym (interrupted_fails s r at_5 e))
    | inr off_5 ↦ absurd (failed (wait_answers s r (sym (interrupted_waits s off_5) ∙ e)))
  ];
  wait_blocks = λ s e. elim (Bool-cases (s == 5)) [
    | inl at_5 ↦ absurd (some_ne s at_5 e)
    | inr off_5 ↦ wait_blocks s (sym (interrupted_waits s off_5) ∙ e)
  ];
}

abbrev calls : List Call
calls = post ∷ post ∷ pend ∷ pend ∷ pend ∷ post ∷ []

mblue_semaphore_alloc-run_example :
    ((pos 0 ≡ pos 0)
      × (mblue_semaphore_alloc signals 64 (some []) ≡ (some (64, set_up signals), some (64 ∷ [])))
      × Counts 0 calls (semaphore_run signals (set_up signals) calls)
      × ((mblue_semaphore_free signals 64 (set_up signals) (some (64 ∷ []))).2 ≡ some []))
    ⊎ ((pos 0 ≢ pos 0) × (mblue_semaphore_alloc signals 64 (some []) ≡ (none, some (64 ∷ []))))
mblue_semaphore_alloc-run_example =
    mblue_semaphore_alloc-run signals (λ s. s) 64 [] calls signals-IsCounting (λ e. omega arith)
