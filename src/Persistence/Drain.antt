-- ===== src/Persistence/Drain.antt =====
-- A reader that calls persistence_read until it answers 0.
use mblue.Common.{
  ℕ, zero, suc, ◌^◌, ◌≤◌, ◌<◌, ◌≡◌, ◌≢◌, refl, sym, ap, ◌∙◌, Bool, true, false, inl, inr, List, [],
  ◌∷◌, ◌++◌, arith, Option, none, some, ◌==◌, if◌then◌else◌, Bool-cases, append_assoc, append-nil,
}
use mblue.Persistence.{
  Section, DeviceCall, write, read, erase, Device, Persistence, persistence_read,
}
use mblue.Persistence.Unread.{IsReadable, interval, unread, steps, addresses, stand}
use mblue.Persistence.Progress.{IsProgress}
use mblue.Persistence.Read.{persistence_read-IsProgress}

-- Calls with buffers of `len` bytes until one answers 0, at most `fuel` of them before it.
unfoldable pub drain : ℕ → Device → ℕ → Persistence → Option Persistence
drain zero d len lg = elim ((persistence_read d lg len).0) [ true ↦ none | false ↦ some lg ]
drain (suc fuel) d len lg =
    let result = persistence_read d lg len in
    let rest = drain fuel d len (result.1) in if result.0 then rest else some lg

addresses-append : (xs ys : List DeviceCall) → addresses (xs ++ ys) ≡ addresses xs ++ addresses ys
addresses-append [] ys = refl
addresses-append (write addr bytes ∷ xs) ys = addresses-append xs ys
addresses-append (read addr len ∷ xs) ys =
    cc (addresses-append xs ys, append_assoc (interval addr len) (addresses xs) (addresses ys))
addresses-append (erase addr len ∷ xs) ys = addresses-append xs ys

persistence_read_end :
    (d : Device) (lg : Persistence) (len : ℕ)
    → lg.section.cur_read_addr ≡ lg.section.data_end_addr
    → persistence_read d lg len ≡ (false, lg)
unfolding persistence_read
persistence_read_end d lg len e = ground arith

unread_end : (s : Section) → s.cur_read_addr ≡ s.data_end_addr → unread s ≡ []
unfolding unread
unread_end s e = ground arith

pub record IsDrained (lg : Persistence) (result : Option Persistence) : Type 0 where
  pub last : Persistence
  pub returned : result ≡ some last
  pub at_end : last.section.cur_read_addr ≡ last.section.data_end_addr
  pub all : addresses last.calls ≡ addresses lg.calls ++ unread lg.section

drain_end :
    (fuel : ℕ) (d : Device) (len : ℕ) (lg : Persistence)
    → lg.section.cur_read_addr ≡ lg.section.data_end_addr
    → drain fuel d len lg ≡ some lg
unfolding drain
drain_end zero d len lg e = rw (drain, persistence_read_end d lg len e) refl
drain_end (suc fuel) d len lg e = rw (drain, persistence_read_end d lg len e) refl

nothing_left :
    (lg : Persistence)
    → lg.section.cur_read_addr ≡ lg.section.data_end_addr
    → IsDrained lg (some lg)
nothing_left lg e = record {
  last = lg;
  returned = refl;
  at_end = e;
  all =
      sym (append-nil (addresses lg.calls))
      ∙ ap (λ (l : List ℕ). addresses lg.calls ++ l) (sym (unread_end lg.section e));
}

-- The log after a call that makes progress.
abbrev after : (lg : Persistence) (result : Bool × Persistence) → IsProgress lg result → Persistence
after lg result p = record { section = stand lg.section p.to; calls = lg.calls ++ p.more }

drain_more :
    (fuel : ℕ) (d : Device) (len : ℕ) (lg : Persistence)
    (p : IsProgress lg (persistence_read d lg len))
    → IsDrained
        (after lg (persistence_read d lg len) p)
        (drain fuel d len (after lg (persistence_read d lg len) p))
    → IsDrained lg (drain (suc fuel) d len lg)
unfolding drain
drain_more fuel d len lg p rest = record {
  last = rest.last;
  returned = rw (drain, p.done) rest.returned;
  at_end = rest.at_end;
  all =
      rest.all
      ∙ cc (
        addresses-append lg.calls p.more,
        append_assoc (addresses lg.calls) (addresses p.more) (unread (stand lg.section p.to)),
        p.front,
      );
}

-- A reader with a buffer of 1 byte or more, on a device that always reads, comes to the end of the
-- log and stops, after `steps` calls at most; what it reads is all that was left, once and in order.
pub drain_lem :
    (fuel : ℕ) (d : Device) (len : ℕ) (lg : Persistence)
    → ((addr n : ℕ) → d.read_cb addr n ≢ 0)
    → 0 < len
    → len < 2 ^ 31
    → IsReadable lg.section
    → steps lg.section ≤ fuel
    → IsDrained lg (drain fuel d len lg)
drain_lem zero d len lg answers filled short r enough =
    elim (Bool-cases (lg.section.cur_read_addr == lg.section.data_end_addr)) [
      | inl e ↦
          rw (drain_end zero d len lg (ground (arith, e))) (nothing_left lg (ground (arith, e)))
      | inr more ↦
          let p =
            persistence_read-IsProgress d lg len answers filled short r (ground (arith, more)) in
          absurd (omega (arith, p.fewer))
    ]
drain_lem (suc fuel) d len lg answers filled short r enough =
    elim (Bool-cases (lg.section.cur_read_addr == lg.section.data_end_addr)) [
      | inl e ↦
          rw (drain_end (suc fuel) d len lg (ground (arith, e)))
            (nothing_left lg (ground (arith, e)))
      | inr more ↦
          let p =
            persistence_read-IsProgress d lg len answers filled short r (ground (arith, more)) in
          drain_more fuel d len lg p (
            drain_lem fuel d len (after lg _ p) answers filled short p.readable
              (omega (arith, p.fewer)))
    ]
