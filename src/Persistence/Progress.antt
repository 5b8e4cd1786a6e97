-- ===== src/Persistence/Progress.antt =====
-- A call of persistence_read that takes the front of what is left to read, in its cases.
use mblue.Common.{
  ℕ, ◌+◌, ◌-◌, ◌≤◌, ◌<◌, ◌≡◌, ◌≢◌, sym, ap, ◌∙◌, Bool, true, inl, inr, List, [], ◌∷◌, ◌++◌, arith,
  append-nil, append_assoc,
}
use mblue.Persistence.{DeviceCall, read, Persistence}
use mblue.Persistence.Unread.{
  IsReadable, interval, unread, steps, addresses, stand, unread_below, unread_above, steps_below,
  steps_above, interval_front,
}

-- What a successful call with something left to read does.
pub record IsProgress (lg : Persistence) (result : Bool × Persistence) : Type 0 where
  pub to : ℕ
  pub more : List DeviceCall
  pub done : result ≡ (true, record { section = stand lg.section to; calls = lg.calls ++ more })
  pub readable : IsReadable (stand lg.section to)
  pub fewer : steps (stand lg.section to) < steps lg.section
  pub front : unread lg.section ≡ addresses more ++ unread (stand lg.section to)

pub IsProgress-below :
    (lg : Persistence) (result : Bool × Persistence) (n : ℕ)
    → IsReadable lg.section
    → 0 < n
    → lg.section.cur_read_addr + n ≤ lg.section.data_end_addr
    → result ≡ (
      true,
      record {
        section = stand lg.section (lg.section.cur_read_addr + n);
        calls = lg.calls ++ (read lg.section.cur_read_addr n ∷ []);
      },
    )
    → IsProgress lg result
IsProgress-below lg result n r some fits e =
    let s = lg.section in
    let s' = stand s (s.cur_read_addr + n) in
    record {
      to = s.cur_read_addr + n;
      more = read s.cur_read_addr n ∷ [];
      done = e;
      readable = record {
        read_low = omega (arith, r.read_low);
        read_high = omega (arith, r.end_high);
        data_low = r.data_low;
        end_low = r.end_low;
        end_high = r.end_high;
        small = r.small;
        place = inl fits;
      };
      fewer = omega (arith, steps_below s (omega arith), steps_below s' fits);
      front =
          unread_below s (omega arith)
          ∙ interval_front s.cur_read_addr s.data_end_addr n fits
          ∙ ap (λ (l : List ℕ). interval s.cur_read_addr n ++ l) (sym (unread_below s' fits))
          ∙ ap (λ (l : List ℕ). l ++ unread s') (sym (append-nil (interval s.cur_read_addr n)));
    }

pub IsProgress-above :
    (lg : Persistence) (result : Bool × Persistence) (n : ℕ)
    → IsReadable lg.section
    → lg.section.data_end_addr ≤ lg.section.data_start_addr
    → lg.section.data_start_addr ≤ lg.section.cur_read_addr
    → lg.section.cur_read_addr ≢ lg.section.data_end_addr
    → 0 < n
    → lg.section.cur_read_addr + n ≤ lg.section.end_addr
    → result ≡ (
      true,
      record {
        section = stand lg.section (lg.section.cur_read_addr + n);
        calls = lg.calls ++ (read lg.section.cur_read_addr n ∷ []);
      },
    )
    → IsProgress lg result
IsProgress-above lg result n r around up more some fits e =
    let s = lg.section in
    let s' = stand s (s.cur_read_addr + n) in
    let upper = interval s'.cur_read_addr (s.end_addr - s'.cur_read_addr) in
    let lower = interval s.start_addr (s.data_end_addr - s.start_addr) in
    record {
      to = s.cur_read_addr + n;
      more = read s.cur_read_addr n ∷ [];
      done = e;
      readable = record {
        read_low = omega (arith, r.read_low);
        read_high = fits;
        data_low = r.data_low;
        end_low = r.end_low;
        end_high = r.end_high;
        small = r.small;
        place = inr (around, omega arith);
      };
      fewer = omega (
        arith,
        steps_above s around up more,
        steps_above s' around (omega arith)
            (λ (h : s.cur_read_addr + n ≡ s.data_end_addr). absurd (omega arith)),
      );
      front =
          unread_above s around up more
          ∙ ap (λ (l : List ℕ). l ++ lower) (interval_front s.cur_read_addr s.end_addr n fits)
          ∙ append_assoc (interval s.cur_read_addr n) upper lower
          ∙ ap (λ (l : List ℕ). interval s.cur_read_addr n ++ l)
              (sym (
                unread_above s' around (omega arith)
                  (λ (h : s.cur_read_addr + n ≡ s.data_end_addr). absurd (omega arith))))
          ∙ ap (λ (l : List ℕ). l ++ unread s') (sym (append-nil (interval s.cur_read_addr n)));
    }

pub IsProgress-around :
    (lg : Persistence) (result : Bool × Persistence) (calls : List DeviceCall)
    → IsReadable lg.section
    → lg.section.data_end_addr ≤ lg.section.data_start_addr
    → lg.section.data_start_addr ≤ lg.section.cur_read_addr
    → lg.section.cur_read_addr ≢ lg.section.data_end_addr
    → addresses calls
      ≡ interval lg.section.cur_read_addr (lg.section.end_addr - lg.section.cur_read_addr)
    → result ≡ (
      true,
      record { section = stand lg.section lg.section.start_addr; calls = lg.calls ++ calls },
    )
    → IsProgress lg result
IsProgress-around lg result calls r around up more read_all e =
    let s = lg.section in
    let s' = stand s s.start_addr in
    record {
      to = s.start_addr;
      more = calls;
      done = e;
      readable = record {
        read_low = omega arith;
        read_high = omega (arith, r.end_low, r.end_high);
        data_low = r.data_low;
        end_low = r.end_low;
        end_high = r.end_high;
        small = r.small;
        place = inl r.end_low;
      };
      fewer = omega (arith, steps_above s around up more, steps_below s' r.end_low);
      front = unread_above s around up more ∙ cc (read_all, unread_below s' r.end_low);
    }
