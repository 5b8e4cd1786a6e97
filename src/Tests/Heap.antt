-- ===== src/Tests/Heap.antt =====
-- Runs of the wrapper of the heap.
use mblue.Common.{◌≡◌, refl, arith}
use mblue.Heap.{alignment_up, mblue_align, mblue_malloc}
use mblue.Heap.Align.{IsZeroed, mblue_malloc-IsZeroed}

align_33 : mblue_align 33 ≡ 48
unfolding mblue_align alignment_up
align_33 = refl

-- Behind 2 ^ 32 - 16 the size that is asked for is 0, and all the bytes are cleared all the same.
align_too_large : mblue_align 0xFFFFFFF1 ≡ 0
unfolding mblue_align alignment_up
align_too_large = refl

mblue_malloc-IsZeroed_example :
    IsZeroed (λ a. 7) 4096 33 (mblue_align 33) (mblue_malloc (λ size. 4096) (λ a. 7) 33)
mblue_malloc-IsZeroed_example =
    mblue_malloc-IsZeroed (λ size. 4096) (λ a. 7) 33 (omega arith)
      (λ (e : 4096 ≡ 0). absurd (omega arith))
