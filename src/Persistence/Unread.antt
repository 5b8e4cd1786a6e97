-- ===== src/Persistence/Unread.antt =====
-- What is left to read of the ring of mb_persistence.c, and the conditions on the reader's address.
use mblue.Common.{
  ℕ, zero, suc, ◌+◌, ◌-◌, ◌^◌, ◌≤◌, ◌<◌, ◌≡◌, ◌≢◌, refl, ap, ◌∙◌, ◌⊎◌, List, [], ◌∷◌, ◌++◌, arith,
  leb, ltb, ◌==◌, if◌then◌else◌,
}
use mblue.Persistence.{Section, DeviceCall, write, read, erase}

-- The addresses of the section are in order. Either the reader is not behind the end of the log, or
-- the log goes around the end of the section and the reader is in its upper part.
pub record IsReadable (s : Section) : Type 0 where
  pub read_low : s.start_addr ≤ s.cur_read_addr
  pub read_high : s.cur_read_addr ≤ s.end_addr
  pub data_low : s.start_addr ≤ s.data_start_addr
  pub end_low : s.start_addr ≤ s.data_end_addr
  pub end_high : s.data_end_addr ≤ s.end_addr
  pub small : s.end_addr < 2 ^ 31
  pub place :
      (s.cur_read_addr ≤ s.data_end_addr)
      ⊎ ((s.data_end_addr ≤ s.data_start_addr) × (s.data_start_addr ≤ s.cur_read_addr))

-- `n` addresses from `a` on.
abbrev pub interval : ℕ → ℕ → List ℕ
interval a zero = []
interval a (suc n) = a ∷ interval (suc a) n

-- The addresses that are left to read, in order, and a bound on the calls it takes.
unfoldable pub unread : Section → List ℕ
unread s =
    if s.cur_read_addr == s.data_end_addr
    then []
    else if ltb s.data_start_addr s.data_end_addr
    then interval s.cur_read_addr (s.data_end_addr - s.cur_read_addr)
    else if leb s.data_start_addr s.cur_read_addr
    then interval s.cur_read_addr (s.end_addr - s.cur_read_addr)
      ++ interval s.start_addr (s.data_end_addr - s.start_addr)
    else interval s.cur_read_addr (s.data_end_addr - s.cur_read_addr)

unfoldable pub steps : Section → ℕ
steps s =
    if s.cur_read_addr == s.data_end_addr
    then 0
    else if ltb s.data_start_addr s.data_end_addr
    then s.data_end_addr - s.cur_read_addr
    else if leb s.data_start_addr s.cur_read_addr
    then s.end_addr - s.cur_read_addr + 1 + (s.data_end_addr - s.start_addr)
    else s.data_end_addr - s.cur_read_addr

-- The addresses of the reads.
abbrev pub addresses : List DeviceCall → List ℕ
addresses [] = []
addresses (write addr bytes ∷ calls) = addresses calls
addresses (read addr len ∷ calls) = interval addr len ++ addresses calls
addresses (erase addr len ∷ calls) = addresses calls

pub interval_eq : {a b m n : ℕ} → a ≡ b → m ≡ n → interval a m ≡ interval b n
interval_eq e f = cc

pub interval-append : (a m n : ℕ) → interval a (m + n) ≡ interval a m ++ interval (a + m) n
interval-append a zero n = interval_eq (omega arith) (omega arith)
interval-append a (suc m) n =
    interval_eq {a = a} {b = a} {m = suc m + n} {n = suc (m + n)} refl (omega arith)
    ∙ ap (λ (l : List ℕ). a ∷ l)
        (interval-append (suc a) m n
          ∙ ap (λ (b : ℕ). interval (suc a) m ++ interval b n) (omega arith))

abbrev pub stand : Section → ℕ → Section
stand s to = record s { cur_read_addr = to }

pub unread_below :
    (s : Section)
    → s.cur_read_addr ≤ s.data_end_addr
    → unread s ≡ interval s.cur_read_addr (s.data_end_addr - s.cur_read_addr)
unfolding unread
unread_below s low = ground arith

pub steps_below :
    (s : Section) → s.cur_read_addr ≤ s.data_end_addr → steps s ≡ s.data_end_addr - s.cur_read_addr
unfolding steps
steps_below s low = ground arith

pub steps_above :
    (s : Section)
    → s.data_end_addr ≤ s.data_start_addr
    → s.data_start_addr ≤ s.cur_read_addr
    → s.cur_read_addr ≢ s.data_end_addr
    → steps s ≡ s.end_addr - s.cur_read_addr + 1 + (s.data_end_addr - s.start_addr)
unfolding steps
steps_above s around up more = ground arith

pub unread_above :
    (s : Section)
    → s.data_end_addr ≤ s.data_start_addr
    → s.data_start_addr ≤ s.cur_read_addr
    → s.cur_read_addr ≢ s.data_end_addr
    → unread s
      ≡ interval s.cur_read_addr (s.end_addr - s.cur_read_addr)
        ++ interval s.start_addr (s.data_end_addr - s.start_addr)
unfolding unread
unread_above s around up more = ground arith

-- The first `n` addresses of an interval.
pub interval_front :
    (a b n : ℕ) → a + n ≤ b → interval a (b - a) ≡ interval a n ++ interval (a + n) (b - (a + n))
interval_front a b n fits =
    interval_eq {a = a} {b = a} {m = b - a} {n = n + (b - (a + n))} refl (omega arith)
    ∙ interval-append a n (b - (a + n))
