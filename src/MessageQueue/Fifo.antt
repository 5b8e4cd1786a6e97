-- ===== src/MessageQueue/Fifo.antt =====
-- What a message queue promises: a list of at most `capacity` pointers, oldest first.
use mblue.Common.{ℕ, List, [], ◌∷◌, ◌++◌, leb, if◌then◌else◌, length}
use mblue.Common.Int.{ℤ, pos, negsuc}

-- The calls of a client, and what it sees of them.
pub data Call : Type 0 where
  add : ℕ → Call
  remove : Call
  peek : Call
  get_size : Call

pub data Reply : Type 0 where
  status : ℤ → Reply
  pointer : ℕ → Reply
  number : ℕ → Reply

unfoldable pub first : List ℕ → ℕ
first [] = 0
first (x ∷ xs) = x

unfoldable pub rest : List ℕ → List ℕ
rest [] = []
rest (x ∷ xs) = xs

unfoldable pub fifo_step : ℕ → List ℕ → Call → Reply × List ℕ
fifo_step capacity xs (add v) =
    if leb capacity (length xs) then (status (negsuc 0), xs) else (status (pos 0), xs ++ (v ∷ []))
fifo_step capacity xs remove = (pointer (first xs), rest xs)
fifo_step capacity xs peek = (pointer (first xs), xs)
fifo_step capacity xs get_size = (number (length xs), xs)

unfoldable pub fifo_run : ℕ → List ℕ → List Call → List Reply
fifo_run capacity xs [] = []
fifo_run capacity xs (c ∷ cs) = let (r, ys) = fifo_step capacity xs c in r ∷ fifo_run capacity ys cs
