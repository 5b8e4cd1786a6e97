-- ===== src/Persistence/Write.antt =====
-- persistence_write keeps to the section, whatever the flash driver answers.
use mblue.Common.{
  true, false, if◌then◌else◌, ◌==◌, ℕ, ◌+◌, ◌-◌, ◌^◌, ◌≤◌, ◌<◌, ◌≡◌, refl, sym, ap, ◌∙◌, inl, inr,
  List, [], ◌∷◌, ◌++◌, arith, length, take, drop, leb, ltb, Bool-cases, append-nil, append_assoc,
  take_append_drop, length-take, length-drop,
}
use mblue.Common.Words.{u32, sub32}
use mblue.Persistence.{
  Section, DeviceCall, write, read, erase, Device, Persistence, erase_ahead, write_here,
  write_around, persistence_write,
}

-- The write position lies in the section, and the log ends there.
abbrev pub IsRange : Section → Type 0
IsRange s =
    (s.start_addr ≤ s.cur_write_addr) × (s.cur_write_addr ≤ s.end_addr) × (s.end_addr < 2 ^ 31)

-- Every write lies between `low` and `high`.
abbrev pub AreWithin : ℕ → ℕ → List DeviceCall → Type 0
AreWithin low high [] = Unit {0}
AreWithin low high (write addr bytes ∷ calls) =
    (low ≤ addr) × (addr + length bytes ≤ high) × AreWithin low high calls
AreWithin low high (read addr len ∷ calls) = AreWithin low high calls
AreWithin low high (erase addr len ∷ calls) = AreWithin low high calls

-- The bytes given to the driver, in order.
abbrev pub written : List DeviceCall → List ℕ
written [] = []
written (write addr bytes ∷ calls) = bytes ++ written calls
written (read addr len ∷ calls) = written calls
written (erase addr len ∷ calls) = written calls

AreWithin-append :
    (low high : ℕ) (xs ys : List DeviceCall)
    → AreWithin low high xs
    → AreWithin low high ys
    → AreWithin low high (xs ++ ys)
AreWithin-append low high [] ys within_xs within_ys = within_ys
AreWithin-append low high (write addr bytes ∷ xs) ys within_xs within_ys =
    (within_xs.0, within_xs.1, AreWithin-append low high xs ys within_xs.2 within_ys)
AreWithin-append low high (read addr len ∷ xs) ys within_xs within_ys =
    AreWithin-append low high xs ys within_xs within_ys
AreWithin-append low high (erase addr len ∷ xs) ys within_xs within_ys =
    AreWithin-append low high xs ys within_xs within_ys

written-append : (xs ys : List DeviceCall) → written (xs ++ ys) ≡ written xs ++ written ys
written-append [] ys = refl
written-append (write addr bytes ∷ xs) ys =
    ap (λ (l : List ℕ). bytes ++ l) (written-append xs ys)
    ∙ sym (append_assoc bytes (written xs) (written ys))
written-append (read addr len ∷ xs) ys = written-append xs ys
written-append (erase addr len ∷ xs) ys = written-append xs ys

-- The bytes given to the driver with their addresses, in order.
abbrev pub pieces : List DeviceCall → List (ℕ × List ℕ)
pieces [] = []
pieces (write addr bytes ∷ calls) = (addr, bytes) ∷ pieces calls
pieces (read addr len ∷ calls) = pieces calls
pieces (erase addr len ∷ calls) = pieces calls

pieces-append : (xs ys : List DeviceCall) → pieces (xs ++ ys) ≡ pieces xs ++ pieces ys
pieces-append [] ys = refl
pieces-append (write addr bytes ∷ xs) ys =
    ap (λ (l : List (ℕ × List ℕ)). (addr, bytes) ∷ l) (pieces-append xs ys)
pieces-append (read addr len ∷ xs) ys = pieces-append xs ys
pieces-append (erase addr len ∷ xs) ys = pieces-append xs ys

-- Where a buffer goes: to the write position if it ends in the section, and otherwise its first bytes
-- up to the end of the section and the others to its start.
abbrev pub places : Section → List ℕ → List (ℕ × List ℕ)
places s buffer =
    let left = s.end_addr - s.cur_write_addr in
    if leb (s.cur_write_addr + length buffer) s.end_addr
    then (s.cur_write_addr, buffer) ∷ []
    else (s.cur_write_addr, take left buffer) ∷ (s.start_addr, drop left buffer) ∷ []

-- Where the next write begins: behind the bytes, when the driver takes the last of them, and where
-- they would have begun when it does not.
abbrev pub next_position : Device → Section → List ℕ → ℕ
next_position d s buffer =
    let left = s.end_addr - s.cur_write_addr in
    if leb (s.cur_write_addr + length buffer) s.end_addr
    then (if d.write_cb s.cur_write_addr buffer == 0
        then s.cur_write_addr
        else s.cur_write_addr + length buffer)
    else if d.write_cb s.start_addr (drop left buffer) == 0
    then s.start_addr
    else s.start_addr + (length buffer - left)

-- What a write of `buffer` makes of a log: the section is the same and in range, the log ends at the
-- write position, every write lies in the section, and `buffer` is what was added, at its
-- places; the next write begins behind it.
pub record IsWritten (d : Device) (lg : Persistence) (buffer : List ℕ) (lg' : Persistence)
    : Type 0 where
  pub start_kept : lg'.section.start_addr ≡ lg.section.start_addr
  pub end_kept : lg'.section.end_addr ≡ lg.section.end_addr
  pub in_range : IsRange lg'.section
  pub data_end : lg'.section.data_end_addr ≡ lg'.section.cur_write_addr
  pub within : AreWithin lg.section.start_addr lg.section.end_addr lg'.calls
  pub bytes : written lg'.calls ≡ written lg.calls ++ buffer
  pub placed : pieces lg'.calls ≡ pieces lg.calls ++ places lg.section buffer
  pub position : lg'.section.cur_write_addr ≡ next_position d lg.section buffer

fitting : (a n e : ℕ) → a + n ≤ e → leb (a + n) e ≡ true
fitting a n e fits = ground arith

write_here-IsWritten :
    (d : Device) (lg : Persistence) (buffer : List ℕ)
    → IsRange lg.section
    → AreWithin lg.section.start_addr lg.section.end_addr lg.calls
    → lg.section.cur_write_addr + length buffer ≤ lg.section.end_addr
    → IsWritten d lg buffer ((write_here d lg buffer).1)
unfolding write_here
write_here-IsWritten d lg buffer range within fits =
    let s = lg.section in
    let e = u32 (s.cur_write_addr + length buffer) in
    let ret = d.write_cb s.cur_write_addr buffer in
    record {
      start_kept = refl;
      end_kept = refl;
      in_range = (ground arith, ground arith, range.2);
      data_end = refl;
      within =
          AreWithin-append s.start_addr s.end_addr lg.calls (write s.cur_write_addr buffer ∷ [])
            within (range.0, fits, tt);
      bytes =
          written-append lg.calls (write s.cur_write_addr buffer ∷ [])
          ∙ ap (λ (l : List ℕ). written lg.calls ++ l) (append-nil buffer);
      placed =
          rw (fitting s.cur_write_addr (length buffer) s.end_addr fits)
            (pieces-append lg.calls (write s.cur_write_addr buffer ∷ []));
      position = rw (fitting s.cur_write_addr (length buffer) s.end_addr fits) (ground arith);
    }

write_around-IsWritten :
    (d : Device) (lg : Persistence) (buffer : List ℕ)
    → IsRange lg.section
    → AreWithin lg.section.start_addr lg.section.end_addr lg.calls
    → length buffer ≤ lg.section.end_addr - lg.section.start_addr
    → leb (lg.section.cur_write_addr + length buffer) lg.section.end_addr ≡ false
    → IsWritten d lg buffer ((write_around d lg buffer).1)
unfolding write_around
write_around-IsWritten d lg buffer range within fits beyond =
    let s = lg.section in
    let n = sub32 s.end_addr s.cur_write_addr in
    let size = d.sector_size s.start_addr in
    let more = drop n buffer in
    let left : n ≡ s.end_addr - s.cur_write_addr = ground arith in
    record {
      start_kept = refl;
      end_kept = refl;
      in_range =
          (ground (arith, length-drop n buffer), ground (arith, length-drop n buffer), range.2);
      data_end = refl;
      within =
          AreWithin-append s.start_addr s.end_addr lg.calls
            (write s.cur_write_addr (take n buffer)
              ∷ erase s.start_addr size
              ∷ write s.start_addr more
              ∷ [])
            within
            (
              range.0,
              omega (arith, length-take n buffer),
              (omega arith, omega (arith, length-drop n buffer), tt),
            );
      bytes =
          written-append lg.calls (
            write s.cur_write_addr (take n buffer)
            ∷ erase s.start_addr size
            ∷ write s.start_addr more
            ∷ [])
          ∙ ap (λ (l : List ℕ). written lg.calls ++ (take n buffer ++ l)) (append-nil more)
          ∙ ap (λ (l : List ℕ). written lg.calls ++ l) (take_append_drop n buffer);
      placed =
          rw (beyond, ← left)
            (pieces-append lg.calls (
              write s.cur_write_addr (take n buffer)
              ∷ erase s.start_addr size
              ∷ write s.start_addr more
              ∷ []));
      position = rw (beyond, ← left) (ground (arith, length-drop n buffer));
    }

erase_ahead-IsWritten :
    (d : Device) (lg lg' : Persistence) (buffer : List ℕ)
    → IsWritten d (erase_ahead d lg) buffer lg'
    → IsWritten d lg buffer lg'
unfolding erase_ahead
erase_ahead-IsWritten d lg lg' buffer w = record {
  start_kept = w.start_kept;
  end_kept = w.end_kept;
  in_range = w.in_range;
  data_end = w.data_end;
  within = w.within;
  bytes =
      w.bytes
      ∙ ap (λ (l : List ℕ). l ++ buffer)
          (written-append lg.calls (erase _ _ ∷ []) ∙ append-nil (written lg.calls));
  placed =
      w.placed
      ∙ ap (λ (l : List (ℕ × List ℕ)). l ++ places lg.section buffer)
          (pieces-append lg.calls (erase _ _ ∷ []) ∙ append-nil (pieces lg.calls));
  position = w.position;
}

-- A buffer that fits into the section is written whole and in order, and only inside the section: at
-- the write position if it ends in the section, and otherwise up to the end of the section and on
-- from its start. The section stays the same, the end of the log is the write position, and this has
-- moved behind the bytes, when the driver takes the last of them, and otherwise to where these would
-- have begun. This holds for any answers of the flash driver.
pub persistence_write-IsWritten :
    (d : Device) (lg : Persistence) (buffer : List ℕ)
    → IsRange lg.section
    → AreWithin lg.section.start_addr lg.section.end_addr lg.calls
    → length buffer ≤ lg.section.end_addr - lg.section.start_addr
    → IsWritten d lg buffer ((persistence_write d lg buffer).1)
unfolding persistence_write
persistence_write-IsWritten d lg buffer range within fits =
    let s = lg.section in
    let e = u32 (s.cur_write_addr + length buffer) in
    elim (Bool-cases (leb e s.end_addr)) [
      | inr beyond ↦
          rw beyond (write_around-IsWritten d lg buffer range within fits (ground (arith, beyond)))
      | inl here ↦ elim (Bool-cases (ltb s.erase_addr e)) [
        | inr erased ↦
            rw (here, erased) (write_here-IsWritten d lg buffer range within (ground (arith, here)))
        | inl ahead ↦
            rw (here, ahead)
              (erase_ahead-IsWritten d lg _ buffer (
                write_here-IsWritten d (erase_ahead d lg) buffer range
                  (AreWithin-append s.start_addr s.end_addr lg.calls (erase _ _ ∷ []) within tt)
                  (ground (arith, here))))
      ]
    ]
