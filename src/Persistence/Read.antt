-- ===== src/Persistence/Read.antt =====
-- One call of persistence_read on a ring that is not read to its end.
use mblue.Common.{
  ℕ, ◌+◌, ◌-◌, ◌^◌, ◌≤◌, ◌<◌, ◌≡◌, ◌≢◌, refl, sym, ap, ◌∙◌, true, inl, inr, ◌⊎◌, [], ◌∷◌, ◌++◌,
  arith, leb, ◌==◌, Bool-cases, append-nil,
}
use mblue.Persistence.{
  read, Device, Persistence, log_call, set_section, read_to, read_until, read_upper,
  persistence_read,
}
use mblue.Persistence.Unread.{IsReadable, interval_eq, stand}
use mblue.Persistence.Progress.{IsProgress, IsProgress-below, IsProgress-above, IsProgress-around}

read_until_lem :
    (d : Device) (lg : Persistence) (len limit next : ℕ)
    → ((addr n : ℕ) → d.read_cb addr n ≢ 0)
    → len < 2 ^ 31
    → limit < 2 ^ 31
    → lg.section.cur_read_addr ≤ limit
    → ((lg.section.cur_read_addr + len ≤ limit)
        × (read_until d lg len limit next ≡ (
          true,
          log_call
              (set_section lg (stand lg.section (lg.section.cur_read_addr + len)))
              (read lg.section.cur_read_addr len),
        )))
      ⊎ ((limit < lg.section.cur_read_addr + len)
          × (read_until d lg len limit next ≡ (
            true,
            log_call
                (set_section lg (stand lg.section next))
                (read lg.section.cur_read_addr (limit - lg.section.cur_read_addr)),
          )))
unfolding read_until read_to
read_until_lem d lg len limit next answers short small low =
    let s = lg.section in
    elim (Bool-cases (leb (s.cur_read_addr + len) limit)) [
      | inl fits ↦ inl (ground (arith, fits), ground (arith, fits, answers s.cur_read_addr len))
      | inr beyond ↦ inr (
        ground (arith, beyond),
        ground (arith, beyond, answers s.cur_read_addr (limit - s.cur_read_addr)),
      )
    ]

persistence_read_below :
    (d : Device) (lg : Persistence) (len : ℕ)
    → lg.section.cur_read_addr < lg.section.data_end_addr
    → persistence_read d lg len
      ≡ read_until d lg len lg.section.data_end_addr lg.section.data_end_addr
unfolding persistence_read
persistence_read_below d lg len low = ground arith

persistence_read_above :
    (d : Device) (lg : Persistence) (len : ℕ)
    → lg.section.data_end_addr ≤ lg.section.data_start_addr
    → lg.section.data_start_addr ≤ lg.section.cur_read_addr
    → lg.section.cur_read_addr ≢ lg.section.data_end_addr
    → persistence_read d lg len ≡ read_upper d lg len
unfolding persistence_read
persistence_read_above d lg len around up more = ground arith

reads_below :
    (d : Device) (lg : Persistence) (len : ℕ)
    → ((addr n : ℕ) → d.read_cb addr n ≢ 0)
    → 0 < len
    → len < 2 ^ 31
    → IsReadable lg.section
    → lg.section.cur_read_addr < lg.section.data_end_addr
    → IsProgress lg (persistence_read d lg len)
reads_below d lg len answers some short r low =
    let s = lg.section in
    elim (read_until_lem d lg len s.data_end_addr s.data_end_addr answers short
      (omega (arith, r.end_high, r.small)) (omega arith)) [
        | inl all ↦
            IsProgress-below lg _ len r some all.0 (persistence_read_below d lg len low ∙ all.1)
        | inr rest ↦
            IsProgress-below lg _ (s.data_end_addr - s.cur_read_addr) r (omega arith) (omega arith)
              (persistence_read_below d lg len low
                ∙ rest.1
                ∙ ap
                    (λ (to : ℕ). (
                      true,
                      log_call (set_section lg (stand s to))
                          (read s.cur_read_addr (s.data_end_addr - s.cur_read_addr)),
                    ))
                    (omega arith))
      ]

read_upper_before :
    (d : Device) (lg : Persistence) (len : ℕ)
    → lg.section.cur_read_addr < lg.section.end_addr
    → read_upper d lg len ≡ read_until d lg len lg.section.end_addr lg.section.start_addr
unfolding read_upper
read_upper_before d lg len before = ground arith

read_upper_end :
    (d : Device) (lg : Persistence) (len : ℕ)
    → 0 < len
    → len < 2 ^ 31
    → lg.section.end_addr < 2 ^ 31
    → lg.section.end_addr ≡ lg.section.cur_read_addr
    → read_upper d lg len
      ≡ (true, record { section = stand lg.section lg.section.start_addr; calls = lg.calls ++ [] })
unfolding read_upper
read_upper_end d lg len some short small e = rw (append-nil lg.calls) (ground arith)

reads_above :
    (d : Device) (lg : Persistence) (len : ℕ)
    → ((addr n : ℕ) → d.read_cb addr n ≢ 0)
    → 0 < len
    → len < 2 ^ 31
    → IsReadable lg.section
    → lg.section.data_end_addr ≤ lg.section.data_start_addr
    → lg.section.data_start_addr ≤ lg.section.cur_read_addr
    → lg.section.cur_read_addr ≢ lg.section.data_end_addr
    → IsProgress lg (persistence_read d lg len)
reads_above d lg len answers some short r around up more =
    let s = lg.section in
    elim (Bool-cases (s.end_addr == s.cur_read_addr)) [
      | inl at_end ↦
          IsProgress-around lg _ [] r around up more
            (sym (
              interval_eq {a = s.cur_read_addr} {b = s.cur_read_addr}
                {m = s.end_addr - s.cur_read_addr} {n = 0} refl (ground (arith, at_end))))
            (persistence_read_above d lg len around up more
              ∙ read_upper_end d lg len some short r.small (ground (arith, at_end)))
      | inr before ↦
          elim (read_until_lem d lg len s.end_addr s.start_addr answers short
            (omega (arith, r.small)) (omega (arith, r.read_high))) [
              | inl all ↦ IsProgress-above lg _ len r around up more some all.0 (
                  persistence_read_above d lg len around up more
                  ∙ read_upper_before d lg len (ground (arith, before, r.read_high))
                  ∙ all.1)
              | inr rest ↦
                  IsProgress-around lg _ (read s.cur_read_addr (s.end_addr - s.cur_read_addr) ∷ [])
                    r around up more (append-nil _)
                    (persistence_read_above d lg len around up more
                      ∙ read_upper_before d lg len (ground (arith, before, r.read_high))
                      ∙ rest.1)
            ]
    ]

-- A call with something left to read, on a device that always reads, succeeds and reads the front of
-- what was left.
pub persistence_read-IsProgress :
    (d : Device) (lg : Persistence) (len : ℕ)
    → ((addr n : ℕ) → d.read_cb addr n ≢ 0)
    → 0 < len
    → len < 2 ^ 31
    → IsReadable lg.section
    → lg.section.cur_read_addr ≢ lg.section.data_end_addr
    → IsProgress lg (persistence_read d lg len)
persistence_read-IsProgress d lg len answers some short r more = elim r.place [
  | inl low ↦ reads_below d lg len answers some short r (omega arith)
  | inr up ↦ reads_above d lg len answers some short r up.0 up.1 more
]
