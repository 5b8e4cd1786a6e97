-- ===== src/Heap.antt =====
-- pal/heap/mblue_heap.c with MBLUE_ALIGN of middleware/common/mblue_macro.h: the wrapper of the
-- platform's allocator. What the allocator answers for a size is an argument, 0 is NULL; the memory is
-- a function from addresses to bytes. `_ASSERT` is empty in the release build.
pub mod Align
use mblue.Common.{ℕ, zero, suc, ◌+◌, ◌-◌, ◌^◌, bit_and, ◌==◌, if◌then◌else◌, update}
use mblue.Common.Words.{u32, not32}

unfoldable pub alignment_up : ℕ → ℕ → ℕ
alignment_up a size = bit_and (u32 (a + size - 1)) (not32 (size - 1))

unfoldable pub mblue_align : ℕ → ℕ
unfolding alignment_up
mblue_align a = alignment_up a 16

-- `memset` of `n` bytes with 0
unfoldable pub clear : (ℕ → ℕ) → ℕ → ℕ → ℕ → ℕ
clear memory p zero = memory
clear memory p (suc n) = update (clear memory p n) (p + n) 0

-- `mblue_malloc`
unfoldable pub mblue_malloc : (ℕ → ℕ) → (ℕ → ℕ) → ℕ → ℕ × (ℕ → ℕ)
unfolding mblue_align clear
mblue_malloc imalloc memory size =
    let p = imalloc (mblue_align size) in if p == 0 then (0, memory) else (p, clear memory p size)
