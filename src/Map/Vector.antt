-- ===== src/Map/Vector.antt =====
-- Integers that are put into a vector through its iterator come back when the vector is parsed.
use mblue.Common.{
  ℕ, zero, suc, ◌+◌, ◌*◌, ◌/◌, ◌^◌, ◌≤◌, ◌<◌, ◌≡◌, ◌≢◌, ◌⊎◌, inl, inr, refl, sym, ap, ◌∙◌, Bool,
  true, false, not, ◌&&◌, List, [], ◌∷◌, map, ltb, ◌==◌, if◌then◌else◌, Option, some, update,
  length, update_other, arith, lt→ltb,
}
use mblue.Common.Words.{u32, sub32}
use mblue.SmartData.{integer_p, get_integer}
use mblue.Map.{
  Memory, VectorIter, guard_magic, set_word, payload_vector_iter_next, parse_item, parse_loop,
}

-- Words that INTEGER_P accepts and that are not the guard.
abbrev pub AreIntegers : List ℕ → Type 0
AreIntegers [] = Unit {0}
AreIntegers (v ∷ vs) = (integer_p v ≡ true) × (v ≢ guard_magic) × AreIntegers vs

-- The words of `vs` stand at `addr`; none of `n` words at `addr` is the guard.
abbrev pub Holds : (ℕ → ℕ) → ℕ → List ℕ → Type 0
Holds words addr [] = Unit {0}
Holds words addr (v ∷ vs) = (words addr ≡ v) × Holds words (addr + 4) vs

abbrev pub IsClear : (ℕ → ℕ) → ℕ → ℕ → Type 0
IsClear words addr zero = Unit {0}
IsClear words addr (suc n) = (words addr ≢ guard_magic) × IsClear words (addr + 4) n

Holds-update :
    (words : ℕ → ℕ) (addr value a : ℕ) (vs : List ℕ)
    → (addr < a) ⊎ (a + 4 * length vs ≤ addr)
    → Holds words a vs
    → Holds (update words addr value) a vs
Holds-update words addr value a [] apart h = tt
Holds-update words addr value a (v ∷ vs) apart h = (
  update_other words addr value a (apart_from addr a (length vs) apart) ∙ h.0,
  Holds-update words addr value (a + 4) vs (next_apart addr a (length vs) apart) h.1,
)
  where
    apart_from : (addr a n : ℕ) → (addr < a) ⊎ (a + 4 * suc n ≤ addr) → a ≢ addr
    apart_from addr a n apart e = ground arith

    next_apart :
        (addr a n : ℕ)
        → (addr < a) ⊎ (a + 4 * suc n ≤ addr)
        → (addr < a + 4) ⊎ (a + 4 + 4 * n ≤ addr)
    next_apart addr a n (inl lo) = inl (omega arith)
    next_apart addr a n (inr hi) = inr (omega arith)

IsClear-update :
    (words : ℕ → ℕ) (addr value a n : ℕ)
    → addr < a
    → IsClear words a n
    → IsClear (update words addr value) a n
IsClear-update words addr value a zero lo clear = tt
IsClear-update words addr value a (suc n) lo clear = (
  (λ e. clear.0 (sym (update_other words addr value a (omega arith)) ∙ e)),
  IsClear-update words addr value (a + 4) n (omega arith) clear.1,
)

zero_no_integer : (v : ℕ) → integer_p v ≡ true → v ≢ 0
unfolding integer_p
zero_no_integer v int e =
    let no : integer_p 0 ≡ false = refl in cc (ap (λ x. integer_p x) e, int, no)

pub not_equal : (a b : ℕ) → a ≢ b → (a == b) ≡ false
not_equal a b ne = ground arith

-- The memory behind an integer that is parsed.
abbrev stored : Memory → ℕ → ℕ → Memory
stored m p v = set_word m p (get_integer v)

abbrev pub onward : VectorIter → VectorIter
onward iter = record iter { pos = iter.pos + 4 }

parse_item_integer :
    (m : Memory) (p v : ℕ) → integer_p v ≡ true → parse_item m p v ≡ (stored m p v, u32 (p + 4))
unfolding parse_item
parse_item_integer m p v int = rw (parse_item, int) refl

pub small : (n : ℕ) → n < 2 ^ 32 → u32 n ≡ n
small n low = omega arith

pub next_of :
    (m : Memory) (iter : VectorIter)
    → iter.pos + 4 < 2 ^ 32
    → payload_vector_iter_next m iter ≡ (
      ltb (sub32 (iter.pos + 4) (m.payloads iter.mp).elts / 4) (m.payloads iter.mp).length
          && not (m.words (iter.pos + 4) == guard_magic),
      onward iter,
    )
unfolding payload_vector_iter_next
next_of m iter low = rw (payload_vector_iter_next, small (iter.pos + 4) low) refl

and_not : (a b : Bool) → a ≡ true → b ≡ false → (a && not b) ≡ true
and_not a b yes_a no_b = rw (yes_a, no_b) refl

and_false : (a b : Bool) → a ≡ false → (a && b) ≡ false
and_false a b no_a = rw no_a refl

not_ltb : (a b : ℕ) → b ≤ a → ltb a b ≡ false
not_ltb a b le = ground arith

next_more :
    (m : Memory) (iter : VectorIter) (k : ℕ)
    → iter.pos + 4 * suc (suc k) ≡ (m.payloads iter.mp).elts + 4 * (m.payloads iter.mp).length
    → (m.payloads iter.mp).elts ≤ iter.pos
    → (m.payloads iter.mp).elts + 4 * (m.payloads iter.mp).length < 2 ^ 32
    → m.words (iter.pos + 4) ≢ guard_magic
    → payload_vector_iter_next m iter ≡ (true, onward iter)
next_more m iter k at_end low bound ne =
    next_of m iter (omega arith)
    ∙ ap (λ (b : Bool). (b, onward iter))
        (and_not _ _
          (lt→ltb (sub32 (iter.pos + 4) (m.payloads iter.mp).elts / 4) (m.payloads iter.mp).length
            (omega arith))
          (not_equal (m.words (iter.pos + 4)) guard_magic ne))

next_last :
    (m : Memory) (iter : VectorIter)
    → iter.pos + 4 ≡ (m.payloads iter.mp).elts + 4 * (m.payloads iter.mp).length
    → (m.payloads iter.mp).elts + 4 * (m.payloads iter.mp).length < 2 ^ 32
    → payload_vector_iter_next m iter ≡ (false, onward iter)
next_last m iter at_end bound =
    next_of m iter (omega arith)
    ∙ ap (λ (b : Bool). (b, onward iter))
        (and_false _ (not (m.words (iter.pos + 4) == guard_magic)) (
          not_ltb (sub32 (iter.pos + 4) (m.payloads iter.mp).elts / 4) (m.payloads iter.mp).length
            (omega arith)))

-- What the loop does behind an item.
abbrev goes_on : ℕ → VectorIter → Memory × ℕ → Option (Bool × Memory)
goes_on fuel iter item =
    if (payload_vector_iter_next item.0 iter).0
    then parse_loop fuel item.0 ((payload_vector_iter_next item.0 iter).1) item.1
    else some (true, item.0)

parse_loop_item :
    (fuel : ℕ) (m : Memory) (iter : VectorIter) (p : ℕ)
    → (m.words p == guard_magic) ≡ false
    → (m.words iter.pos == 0) ≡ false
    → parse_loop (suc fuel) m iter p ≡ goes_on fuel iter (parse_item m p (m.words iter.pos))
unfolding parse_loop
parse_loop_item fuel m iter p clear there = rw (parse_loop, clear, there) refl

parse_step :
    (fuel : ℕ) (m : Memory) (iter : VectorIter) (p v : ℕ)
    → m.words iter.pos ≡ v
    → integer_p v ≡ true
    → m.words p ≢ guard_magic
    → p + 4 < 2 ^ 32
    → parse_loop (suc fuel) m iter p ≡ goes_on fuel iter (stored m p v, p + 4)
parse_step fuel m iter p v here int clear bound =
    parse_loop_item fuel m iter p (not_equal (m.words p) guard_magic clear)
      (not_equal (m.words iter.pos) 0 (λ e. zero_no_integer v int (sym here ∙ e)))
    ∙ ap (λ (w : ℕ). goes_on fuel iter (parse_item m p w)) here
    ∙ ap (λ (item : Memory × ℕ). goes_on fuel iter item)
        (parse_item_integer m p v int ∙ ap (λ (q : ℕ). (stored m p v, q)) (small (p + 4) bound))

-- The loop answers 0, the integers stand at `p` one after the other, and the words before `p` are as
-- they were.
pub record IsParsed (m : Memory) (p : ℕ) (vs : List ℕ) (result : Option (Bool × Memory))
    : Type 0 where
  pub last : Memory
  pub returned : result ≡ some (true, last)
  pub parsed : Holds last.words p (map get_integer vs)
  pub below : (a : ℕ) → a < p → last.words a ≡ m.words a

IsParsed-last :
    (fuel : ℕ) (m : Memory) (iter : VectorIter) (p v : ℕ)
    → parse_loop fuel m iter p ≡ some (true, stored m p v)
    → IsParsed m p (v ∷ []) (parse_loop fuel m iter p)
IsParsed-last fuel m iter p v e = record {
  last = stored m p v;
  returned = e;
  parsed = (ground arith, tt);
  below = λ a lo. update_other m.words p (get_integer v) a (omega arith);
}

IsParsed-more :
    (m : Memory) (p v : ℕ) (vs : List ℕ) (result rest : Option (Bool × Memory))
    → result ≡ rest
    → IsParsed (stored m p v) (p + 4) vs rest
    → IsParsed m p (v ∷ vs) result
IsParsed-more m p v vs result rest e r = record {
  last = r.last;
  returned = e ∙ r.returned;
  parsed = (r.below p (omega arith) ∙ ground arith, r.parsed);
  below = λ a lo. r.below a (omega arith) ∙ update_other m.words p (get_integer v) a (omega arith);
}

-- The loop parses the integers that stand at the iterator and end with the vector.
pub parse_loop_lem :
    (fuel : ℕ) (m : Memory) (iter : VectorIter) (p v : ℕ) (vs : List ℕ)
    → Holds m.words iter.pos (v ∷ vs)
    → AreIntegers (v ∷ vs)
    → IsClear m.words p (suc (length vs))
    → (p + 4 * suc (length vs) ≤ iter.pos) ⊎ (iter.pos + 4 * suc (length vs) ≤ p)
    → iter.pos + 4 * suc (length vs) ≡ (m.payloads iter.mp).elts + 4 * (m.payloads iter.mp).length
    → (m.payloads iter.mp).elts ≤ iter.pos
    → (m.payloads iter.mp).elts + 4 * (m.payloads iter.mp).length < 2 ^ 32
    → p + 4 * suc (length vs) < 2 ^ 32
    → length vs < fuel
    → IsParsed m p (v ∷ vs) (parse_loop fuel m iter p)
parse_loop_lem zero m iter p v vs holds ints clear apart at_end low bound room enough =
    absurd (omega arith)
parse_loop_lem (suc fuel) m iter p v [] holds ints clear apart at_end low bound room enough =
    let m' = stored m p v in
    IsParsed-last (suc fuel) m iter p v (
      parse_step fuel m iter p v holds.0 ints.0 clear.0 (omega arith)
      ∙ ap
          (λ (n : Bool × VectorIter).
            if n.0 then parse_loop fuel m' (n.1) (p + 4) else some (true, m'))
          (next_last m' iter (omega arith) bound))
parse_loop_lem (suc fuel) m iter p v (w ∷ vs) holds ints clear apart at_end low bound room enough =
    let m' = stored m p v in
    let holds' =
      Holds-update m.words p (get_integer v) (iter.pos + 4) (w ∷ vs) (shift apart) holds.1 in
    IsParsed-more m p v (w ∷ vs) (parse_loop (suc fuel) m iter p)
      (parse_loop fuel m' (onward iter) (p + 4))
      (parse_step fuel m iter p v holds.0 ints.0 clear.0 (omega arith)
        ∙ ap
            (λ (n : Bool × VectorIter).
              if n.0 then parse_loop fuel m' (n.1) (p + 4) else some (true, m'))
            (next_more m' iter (length vs) (omega arith) low bound
              (λ e. (ints.2).1 (sym (holds'.0) ∙ e))))
      (parse_loop_lem fuel m' (onward iter) (p + 4) w vs holds' ints.2
        (IsClear-update m.words p (get_integer v) (p + 4) (suc (length vs)) (omega arith) clear.1)
        (both apart) (omega arith) (omega arith) bound (omega arith) (omega arith))
  where
    shift :
        (p + 4 * suc (suc (length vs)) ≤ iter.pos) ⊎ (iter.pos + 4 * suc (suc (length vs)) ≤ p)
        → (p < iter.pos + 4) ⊎ (iter.pos + 4 + 4 * suc (length vs) ≤ p)
    shift (inl lo) = inl (omega arith)
    shift (inr hi) = inr (omega arith)

    both :
        (p + 4 * suc (suc (length vs)) ≤ iter.pos) ⊎ (iter.pos + 4 * suc (suc (length vs)) ≤ p)
        → (p + 4 + 4 * suc (length vs) ≤ iter.pos + 4)
          ⊎ (iter.pos + 4 + 4 * suc (length vs) ≤ p + 4)
    both (inl lo) = inl (omega arith)
    both (inr hi) = inr (omega arith)
