-- ===== src/Semaphore.antt =====
-- pal/semaphore: mblue_semaphore.c over the POSIX semaphores of custom_semaphore.h, which are the
-- parameter `Posix`. The assertions are empty in the release build.
pub mod Counting
use mblue.Common.{ℕ, ◌-◌, ◌^◌, List, [], ◌∷◌, Option, none, some, ◌==◌, if◌then◌else◌}
use mblue.Common.Int.{ℤ, pos, int_eq}
use mblue.Errcode.{Errcode, ok, err_semaphore}
use mblue.Schema.{Heap, mblue_free, taken}

-- What the POSIX functions answer and make of a `sem_t`; a `sem_wait` that blocks is `none`.
pub record Posix (Sem : Type 0) : Type 0 where
  pub cleared : Sem
  pub sem_init : Sem → ℤ × Sem
  pub sem_wait : Sem → Option (ℤ × Sem)
  pub sem_post : Sem → ℤ × Sem
  pub sem_destroy : Sem → ℤ × Sem

abbrev pub mblue_semaphore_magic : ℕ
mblue_semaphore_magic = 0xFEEEAAA0

-- `struct mblue_semaphore`, less its methods.
pub record MblueSemaphore (Sem : Type 0) : Type 0 where
  pub magic : ℕ
  pub obj : Sem

-- The answer of a POSIX function as a code.
abbrev pub posix_answer : {Sem : Type 0} → ℕ → ℤ × Sem → Errcode × MblueSemaphore Sem
posix_answer magic r =
    (if int_eq r.0 (pos 0) then ok else err_semaphore, record { magic = magic; obj = r.1 })

abbrev pub answer_wait :
    {Sem : Type 0} → ℕ → Option (ℤ × Sem) → Option (Errcode × MblueSemaphore Sem)
answer_wait magic none = none
answer_wait magic (some r) = some (posix_answer magic r)

unfoldable pub platform_semaphore_init :
    {Sem : Type 0} → Posix Sem → MblueSemaphore Sem → Errcode × MblueSemaphore Sem
platform_semaphore_init px sem = posix_answer sem.magic (px.sem_init sem.obj)

unfoldable pub platform_semaphore_pend :
    {Sem : Type 0} → Posix Sem → MblueSemaphore Sem → Option (Errcode × MblueSemaphore Sem)
platform_semaphore_pend px sem = answer_wait sem.magic (px.sem_wait sem.obj)

unfoldable pub platform_semaphore_post :
    {Sem : Type 0} → Posix Sem → MblueSemaphore Sem → Errcode × MblueSemaphore Sem
platform_semaphore_post px sem = posix_answer sem.magic (px.sem_post sem.obj)

unfoldable pub platform_semaphore_uninit :
    {Sem : Type 0} → Posix Sem → MblueSemaphore Sem → Errcode × MblueSemaphore Sem
platform_semaphore_uninit px sem = posix_answer sem.magic (px.sem_destroy sem.obj)

unfoldable pub semaphore_init :
    {Sem : Type 0} → Posix Sem → MblueSemaphore Sem → Errcode × MblueSemaphore Sem
unfolding platform_semaphore_init
semaphore_init px sem =
    platform_semaphore_init px (record { magic = mblue_semaphore_magic; obj = sem.obj })

-- `none` is a task that stays blocked.
unfoldable pub semaphore_pend :
    {Sem : Type 0} → Posix Sem → MblueSemaphore Sem → Option (Errcode × MblueSemaphore Sem)
unfolding platform_semaphore_pend
semaphore_pend px sem = platform_semaphore_pend px sem

unfoldable pub semaphore_post :
    {Sem : Type 0} → Posix Sem → MblueSemaphore Sem → Errcode × MblueSemaphore Sem
unfolding platform_semaphore_post
semaphore_post px sem = platform_semaphore_post px sem

unfoldable pub semaphore_uninit :
    {Sem : Type 0} → Posix Sem → MblueSemaphore Sem → Errcode × MblueSemaphore Sem
unfolding platform_semaphore_uninit
semaphore_uninit px sem =
    let (rc, sem') = platform_semaphore_uninit px sem in (ok, record { magic = 0; obj = sem'.obj })

-- `mblue_semaphore_alloc`: `p` is the answer of `mblue_malloc`, which clears the block; the address
-- is 0 for NULL.
unfoldable pub mblue_semaphore_alloc :
    {Sem : Type 0} → Posix Sem → ℕ → Heap → Option (ℕ × MblueSemaphore Sem) × Heap
unfolding semaphore_init
mblue_semaphore_alloc px p heap =
    let (rc, sem) = semaphore_init px (record { magic = 0; obj = px.cleared }) in
    if p == 0
    then (none, heap)
    else if int_eq rc (pos 0)
    then (some (p, sem), taken p heap)
    else (none, taken p heap)

-- `mblue_semaphore_free`, with what is left in the block that is free.
unfoldable pub mblue_semaphore_free :
    {Sem : Type 0} → Posix Sem → ℕ → MblueSemaphore Sem → Heap → Errcode × MblueSemaphore Sem × Heap
unfolding semaphore_uninit mblue_free
mblue_semaphore_free px p sem heap = (ok, (semaphore_uninit px sem).1, mblue_free p heap)

unfoldable pub mblue_semaphore_construct :
    {Sem : Type 0} → Posix Sem → MblueSemaphore Sem → Errcode × MblueSemaphore Sem
unfolding semaphore_init
mblue_semaphore_construct px sem =
    let (rc, sem') = semaphore_init px sem in
    (if int_eq rc (pos 0) then ok else err_semaphore, sem')

unfoldable pub mblue_semaphore_destruct :
    {Sem : Type 0} → Posix Sem → MblueSemaphore Sem → Errcode × MblueSemaphore Sem
unfolding semaphore_uninit
mblue_semaphore_destruct px sem = semaphore_uninit px sem
