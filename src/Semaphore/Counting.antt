-- ===== src/Semaphore/Counting.antt =====
-- Over POSIX semaphores, a semaphore of the middleware is a counter whose calls may fail.
use mblue.Common.{
  ℕ, suc, ◌≡◌, ◌≢◌, refl, sym, ap, ◌∙◌, ◌⊎◌, inl, inr, false, List, [], ◌∷◌, Option, none, some,
  ◌==◌, Bool-cases, Option-cases, arith,
}
use mathlib.Core.Path.{subst}
use mblue.Common.Int.{ℤ, pos, int_eq, int_eq_iff}
use mblue.Errcode.{Errcode, ok, err_semaphore}
use mblue.Schema.{mblue_free, remove}
use mblue.Semaphore.{
  Posix, MblueSemaphore, mblue_semaphore_magic, answer_wait, semaphore_init, semaphore_pend,
  semaphore_post, platform_semaphore_init, platform_semaphore_post, platform_semaphore_pend,
  mblue_semaphore_alloc, mblue_semaphore_free,
}

-- What POSIX documents of a semaphore that is not shared, with its value: a call that succeeds sets
-- it to 0, adds 1 to it or takes 1 from it, a call that fails, as an interrupted sem_wait, leaves it
-- as it is, and sem_wait blocks only at 0.
pub record IsCounting {Sem : Type 0} (px : Posix Sem) (value : Sem → ℕ) : Type 0 where
  pub init_value : (s : Sem) → (px.sem_init s).0 ≡ pos 0 → value (px.sem_init s).1 ≡ 0
  pub post_adds : (s : Sem) → (px.sem_post s).0 ≡ pos 0 → value (px.sem_post s).1 ≡ suc (value s)
  pub post_fails : (s : Sem) → (px.sem_post s).0 ≢ pos 0 → value (px.sem_post s).1 ≡ value s
  pub wait_takes :
      (s : Sem) (r : ℤ × Sem) → px.sem_wait s ≡ some r → r.0 ≡ pos 0 → value s ≡ suc (value r.1)
  pub wait_fails :
      (s : Sem) (r : ℤ × Sem) → px.sem_wait s ≡ some r → r.0 ≢ pos 0 → value s ≡ value r.1
  pub wait_blocks : (s : Sem) → px.sem_wait s ≡ none → value s ≡ 0

pub data Call : Type 0 where
  pend : Call
  post : Call

-- What the calls return in order, up to the first pend that blocks.
abbrev pub semaphore_run :
    {Sem : Type 0} → Posix Sem → MblueSemaphore Sem → List Call → List (Option Errcode)
semaphore_run px sem [] = []
semaphore_run px sem (post ∷ calls) =
    let (rc, sem') = semaphore_post px sem in some rc ∷ semaphore_run px sem' calls
semaphore_run px sem (pend ∷ calls) = elim (semaphore_pend px sem) [
  | none ↦ none ∷ []
  | some (rc, sem') ↦ some rc ∷ semaphore_run px sem' calls
]

-- The calls of a number that may fail, with their answers: a post that succeeds adds 1, a pend that
-- succeeds takes 1, a call that fails is told so and changes nothing, and a pend blocks only at 0.
pub data Counts : ℕ → List Call → List (Option Errcode) → Type 0 where
  ends : (n : ℕ) → Counts n [] []
  posted :
      (n : ℕ) (calls : List Call) (answers : List (Option Errcode))
      → Counts (suc n) calls answers
      → Counts n (post ∷ calls) (some ok ∷ answers)
  post_failed :
      (n : ℕ) (calls : List Call) (answers : List (Option Errcode))
      → Counts n calls answers
      → Counts n (post ∷ calls) (some err_semaphore ∷ answers)
  taken_one :
      (n : ℕ) (calls : List Call) (answers : List (Option Errcode))
      → Counts n calls answers
      → Counts (suc n) (pend ∷ calls) (some ok ∷ answers)
  pend_failed :
      (n : ℕ) (calls : List Call) (answers : List (Option Errcode))
      → Counts n calls answers
      → Counts n (pend ∷ calls) (some err_semaphore ∷ answers)
  blocked : (calls : List Call) → Counts 0 (pend ∷ calls) (none ∷ [])

abbrev after_wait :
    {Sem : Type 0} → Posix Sem → ℕ → List Call → Option (ℤ × Sem) → List (Option Errcode)
after_wait px magic calls o = elim (answer_wait magic o) [
  | none ↦ none ∷ []
  | some (rc, sem') ↦ some rc ∷ semaphore_run px sem' calls
]

int_ne : (x y : ℤ) → int_eq x y ≡ false → x ≢ y
int_ne x y apart same = cc ((int_eq_iff x y).1 same)

module _ {Sem : Type 0} (px : Posix Sem) (value : Sem → ℕ) (magic : ℕ) (calls : List Call) (n : ℕ)
    (s : Sem) (w : IsCounting px value) (e : value s ≡ n) where
  -- The sum is what the rest of the calls does behind the post or the pend.
  post-Counts :
      ((m : ℕ)
        → value (px.sem_post s).1 ≡ m
        → Counts m calls
            (semaphore_run px (record { magic = magic; obj = (px.sem_post s).1 }) calls))
      → Counts n
          (post ∷ calls)
          (semaphore_run px (record { magic = magic; obj = s }) (post ∷ calls))
  unfolding semaphore_post platform_semaphore_post
  post-Counts rest = elim (Bool-cases (int_eq (px.sem_post s).0 (pos 0))) [
    | inl done ↦ rw done (
        posted n calls _
          (rest (suc n) (w.post_adds s ((int_eq_iff (px.sem_post s).0 (pos 0)).0 done) ∙ ap suc e)))
    | inr failed ↦ rw failed (
        post_failed n calls _
          (rest n (w.post_fails s (int_ne (px.sem_post s).0 (pos 0) failed) ∙ e)))
  ]

  waited-Counts :
      (r : ℤ × Sem)
      → px.sem_wait s ≡ some r
      → ((m : ℕ)
          → value r.1 ≡ m
          → Counts m calls (semaphore_run px (record { magic = magic; obj = r.1 }) calls))
      → Counts n (pend ∷ calls) (after_wait px magic calls (some r))
  waited-Counts r waits rest = elim (Bool-cases (int_eq r.0 (pos 0))) [
    | inl done ↦ rw done (
        subst
          (λ (k : ℕ).
            Counts k (pend ∷ calls)
              (some ok ∷ semaphore_run px (record { magic = magic; obj = r.1 }) calls))
          (sym (w.wait_takes s r waits ((int_eq_iff r.0 (pos 0)).0 done)) ∙ e)
          (taken_one (value r.1) calls _ (rest (value r.1) refl)))
    | inr failed ↦ rw failed (
        pend_failed n calls _
          (rest n (sym (w.wait_fails s r waits (int_ne r.0 (pos 0) failed)) ∙ e)))
  ]

semaphore_run-Counts :
    {Sem : Type 0} (px : Posix Sem) (value : Sem → ℕ) (magic n : ℕ) (s : Sem) (calls : List Call)
    → IsCounting px value
    → value s ≡ n
    → Counts n calls (semaphore_run px (record { magic = magic; obj = s }) calls)
unfolding semaphore_pend platform_semaphore_pend
semaphore_run-Counts px value magic n s [] w e = ends n
semaphore_run-Counts px value magic n s (post ∷ calls) w e =
    post-Counts px value magic calls n s w e
      (λ m e'. semaphore_run-Counts px value magic m (px.sem_post s).1 calls w e')
semaphore_run-Counts {Sem} px value magic n s (pend ∷ calls) w e =
    elim (Option-cases (px.sem_wait s)) [
      | inl blocks ↦
          subst (λ (o : Option (ℤ × Sem)). Counts n (pend ∷ calls) (after_wait px magic calls o))
            (sym blocks)
            (subst (λ (k : ℕ). Counts k (pend ∷ calls) (none ∷ []))
              (sym (w.wait_blocks s blocks) ∙ e) (blocked calls))
      | inr (r, waits) ↦
          subst (λ (o : Option (ℤ × Sem)). Counts n (pend ∷ calls) (after_wait px magic calls o))
            (sym waits)
            (waited-Counts px value magic calls n s w e r waits
              (λ m e'. semaphore_run-Counts px value magic m r.1 calls w e'))
    ]

free_first : (p : ℕ) (blocks : List ℕ) → mblue_free p (some (p ∷ blocks)) ≡ some blocks
unfolding mblue_free remove
free_first p blocks = ground arith

-- The semaphore that `mblue_semaphore_alloc` sets up in its block.
abbrev pub set_up : {Sem : Type 0} → Posix Sem → MblueSemaphore Sem
set_up px = record { magic = mblue_semaphore_magic; obj = (px.sem_init px.cleared).1 }

-- Over POSIX semaphores as documented, whose calls may fail: when `sem_init` succeeds
-- `mblue_semaphore_alloc` hands out a semaphore that starts at 0 and answers every sequence of pends
-- and posts as a number does, with MBLUE_OK to a post that adds 1 and to a pend that takes 1, and
-- with MBLUE_ERR_SEMAPHORE to a call that fails and changes nothing; a pend blocks only when no post
-- is left. Freeing the semaphore gives back its block. When `sem_init` fails NULL is returned, and
-- the block is not given back.
pub mblue_semaphore_alloc-run :
    {Sem : Type 0} (px : Posix Sem) (value : Sem → ℕ) (p : ℕ) (blocks : List ℕ) (calls : List Call)
    → IsCounting px value
    → p ≢ 0
    → (((px.sem_init px.cleared).0 ≡ pos 0)
        × (mblue_semaphore_alloc px p (some blocks) ≡ (some (p, set_up px), some (p ∷ blocks)))
        × Counts 0 calls (semaphore_run px (set_up px) calls)
        × ((mblue_semaphore_free px p (set_up px) (some (p ∷ blocks))).2 ≡ some blocks))
      ⊎ (((px.sem_init px.cleared).0 ≢ pos 0)
          × (mblue_semaphore_alloc px p (some blocks) ≡ (none, some (p ∷ blocks))))
unfolding mblue_semaphore_alloc semaphore_init platform_semaphore_init mblue_semaphore_free
    mblue_free remove
mblue_semaphore_alloc-run px value p blocks calls w ne =
    let there : (p == 0) ≡ false = ground (ne, arith) in
    elim (Bool-cases (int_eq (px.sem_init px.cleared).0 (pos 0))) [
      | inl done ↦
          let started = (int_eq_iff (px.sem_init px.cleared).0 (pos 0)).0 done in
          inl (
            started,
            rw (there, done) refl,
            semaphore_run-Counts px value mblue_semaphore_magic 0 (px.sem_init px.cleared).1 calls w
                (w.init_value px.cleared started),
            free_first p blocks,
          )
      | inr failed ↦ inr (int_ne (px.sem_init px.cleared).0 (pos 0) failed, rw (there, failed) refl)
    ]
