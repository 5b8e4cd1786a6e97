-- ===== src/Map/Fill.antt =====
-- A vector that is allocated and filled through its iterator is parsed back.
use mathlib.Core.Path.{subst}
use mblue.Common.{
  ℕ, zero, suc, ◌+◌, ◌*◌, ◌^◌, ◌≤◌, ◌<◌, ◌≡◌, ◌≢◌, ◌⊎◌, inl, inr, refl, sym, ap, ◌∙◌, Bool, List,
  [], ◌∷◌, update, update_self, update_other, length, arith,
}
use mblue.Map.{
  Memory, Payload, vector, VectorIter, guard_magic, payload_vector_alloc, payload_vector_iter_init,
  payload_vector_iter_next, payload_vector_put, overwritten, payload_parse_vector,
}
use mblue.Map.Vector.{
  AreIntegers, Holds, IsClear, IsParsed, onward, next_of, not_equal, small, parse_loop_lem,
}

-- The entries are put one after the other, with a step of the iterator behind each.
unfoldable pub put_all : Memory → VectorIter → List ℕ → Memory
unfolding payload_vector_put payload_vector_iter_next
put_all m iter [] = m
put_all m iter (v ∷ vs) =
    let m' = payload_vector_put m iter v in put_all m' ((payload_vector_iter_next m' iter).1) vs

put_all-cons :
    (m : Memory) (iter : VectorIter) (v : ℕ) (vs : List ℕ)
    → iter.pos + 4 < 2 ^ 32
    → put_all m iter (v ∷ vs) ≡ put_all (payload_vector_put m iter v) (onward iter) vs
unfolding put_all
put_all-cons m iter v vs low =
    ap (λ (n : Bool × VectorIter). put_all (payload_vector_put m iter v) (n.1) vs)
      (next_of (payload_vector_put m iter v) iter low)

-- The struct at `p` lies before or behind the `n` words at `pos`.
abbrev pub IsApart : ℕ → ℕ → ℕ → Type 0
IsApart p pos n = (p + 12 ≤ pos) ⊎ (pos + 4 * n ≤ p)

-- What `put_all` leaves: the entries at the iterator, and the other words and the struct at `p` as
-- they were.
pub record IsFilled (m : Memory) (p pos : ℕ) (vs : List ℕ) (m' : Memory) : Type 0 where
  pub holds : Holds m'.words pos vs
  pub outside : (a : ℕ) → (a < pos) ⊎ (pos + 4 * length vs ≤ a) → m'.words a ≡ m.words a
  pub payload_kept : m'.payloads p ≡ m.payloads p

overwritten-IsApart :
    (payloads : ℕ → Payload) (p pos v n : ℕ)
    → IsApart p pos (suc n)
    → overwritten payloads pos v p ≡ payloads p
overwritten-IsApart payloads p pos v n apart = ground (apart, arith)

IsFilled-more :
    (m m' : Memory) (p mp pos v : ℕ) (vs : List ℕ)
    → IsApart p pos (suc (length vs))
    → IsFilled (payload_vector_put m (record { mp = mp; pos = pos }) v) p (pos + 4) vs m'
    → IsFilled m p pos (v ∷ vs) m'
unfolding payload_vector_put
IsFilled-more m m' p mp pos v vs apart f = record {
  holds = (f.outside pos (inl (omega arith)) ∙ ground arith, f.holds);
  outside =
      λ a apart. f.outside a (further a apart) ∙ update_other m.words pos v a (differs a apart);
  payload_kept = f.payload_kept ∙ overwritten-IsApart m.payloads p pos v (length vs) apart;
}
  where
    further :
        (a : ℕ)
        → (a < pos) ⊎ (pos + 4 * suc (length vs) ≤ a)
        → (a < pos + 4) ⊎ (pos + 4 + 4 * length vs ≤ a)
    further a (inl lo) = inl (omega arith)
    further a (inr hi) = inr (omega arith)

    differs : (a : ℕ) → (a < pos) ⊎ (pos + 4 * suc (length vs) ≤ a) → a ≢ pos
    differs a apart e = ground arith

IsApart-further : (p pos n : ℕ) → IsApart p pos (suc n) → IsApart p (pos + 4) n
IsApart-further p pos n (inl before) = inl (omega arith)
IsApart-further p pos n (inr behind) = inr (omega arith)

put_all-IsFilled :
    (m : Memory) (p : ℕ) (iter : VectorIter) (vs : List ℕ)
    → iter.pos + 4 * length vs < 2 ^ 32
    → IsApart p iter.pos (length vs)
    → IsFilled m p iter.pos vs (put_all m iter vs)
unfolding put_all
put_all-IsFilled m p iter [] low apart = record {
  holds = tt;
  outside = λ a apart. refl;
  payload_kept = refl;
}
put_all-IsFilled m p iter (v ∷ vs) low apart =
    let m' = payload_vector_put m iter v in
    subst (λ (m' : Memory). IsFilled m p iter.pos (v ∷ vs) m')
      (sym (put_all-cons m iter v vs (omega arith)))
      (IsFilled-more m (put_all m' (onward iter) vs) p iter.mp iter.pos v vs apart (
        put_all-IsFilled m' p (onward iter) vs (omega arith)
          (IsApart-further p iter.pos (length vs) apart)))

IsClear-same :
    (f g : ℕ → ℕ) (p n : ℕ)
    → ((a : ℕ) → p ≤ a → a < p + 4 * n → g a ≡ f a)
    → IsClear f p n
    → IsClear g p n
IsClear-same f g p zero same clear = tt
IsClear-same f g p (suc n) same clear = (
  (λ e. clear.0 (sym (same p (omega arith) (omega arith)) ∙ e)),
  IsClear-same f g (p + 4) n (λ a lo hi. same a (omega arith) (omega arith)) clear.1,
)

parse_filled :
    (fuel : ℕ) (m : Memory) (p dest v : ℕ) (vs : List ℕ)
    → AreIntegers (v ∷ vs)
    → (m.payloads p).length ≡ suc (length vs)
    → (m.payloads p).elts + 4 * suc (length vs) < 2 ^ 32
    → dest + 4 * suc (length vs) < 2 ^ 32
    → (dest + 4 * suc (length vs) ≤ (m.payloads p).elts)
      ⊎ ((m.payloads p).elts + 4 * suc (length vs) ≤ dest)
    → IsApart p (m.payloads p).elts (suc (length vs))
    → IsClear m.words dest (suc (length vs))
    → suc (length vs) ≤ fuel
    → IsParsed
        (put_all m (payload_vector_iter_init m p) (v ∷ vs))
        dest
        (v ∷ vs)
        (payload_parse_vector fuel (put_all m (payload_vector_iter_init m p) (v ∷ vs)) p dest)
unfolding payload_parse_vector payload_vector_iter_init
parse_filled fuel m p dest v vs ints full bound room apart struct_apart clear enough =
    let m' = put_all m (payload_vector_iter_init m p) (v ∷ vs) in
    let f = put_all-IsFilled m p (payload_vector_iter_init m p) (v ∷ vs) bound struct_apart in
    let same_elts = ap (λ (v : Payload). v.elts) f.payload_kept in
    let same_length = ap (λ (v : Payload). v.length) f.payload_kept in
    parse_loop_lem fuel m' (payload_vector_iter_init m' p) dest v vs
      (subst (λ (a : ℕ). Holds m'.words a (v ∷ vs)) (sym same_elts) f.holds) ints
      (IsClear-same m.words m'.words dest (suc (length vs))
        (λ a lo hi. f.outside a (outside_of apart a lo hi)) clear)
      (subst (λ (a : ℕ). (dest + 4 * suc (length vs) ≤ a) ⊎ (a + 4 * suc (length vs) ≤ dest))
        (sym same_elts) apart)
      (omega (arith, same_length, full)) (omega arith) (omega (arith, same_elts, same_length, full))
      room (omega arith)
  where
    outside_of :
        {e : ℕ}
        → (dest + 4 * suc (length vs) ≤ e) ⊎ (e + 4 * suc (length vs) ≤ dest)
        → (a : ℕ) → dest ≤ a
        → a < dest + 4 * suc (length vs)
        → (a < e) ⊎ (e + 4 * suc (length vs) ≤ a)
    outside_of (inl before) a lo hi = inl (omega arith)
    outside_of (inr behind) a lo hi = inr (omega arith)

-- The memory with a new vector whose entries begin at `elts`, where the guard stands.
abbrev with_vector : Memory → ℕ → ℕ → ℕ → Memory
with_vector m size p elts = record m {
  payloads = update m.payloads p (record { type = vector; length = size; elts = elts });
  words = update m.words elts guard_magic;
}

payload_vector_alloc_lem :
    (m : Memory) (size p q : ℕ)
    → p ≢ 0
    → q ≢ 0
    → q + 4 * size < 2 ^ 32
    → payload_vector_alloc m size p q ≡ (p, with_vector m size p (q + 4 * size))
unfolding payload_vector_alloc
payload_vector_alloc_lem m size p q real_p real_q bound =
    rw
      (payload_vector_alloc, not_equal p 0 real_p, not_equal q 0 real_q, small (q + 4 * size) bound)
      refl

-- The memory after the allocation and the puts.
abbrev pub filled : Memory → ℕ → ℕ → List ℕ → Memory
filled m p q vs =
    let m' = (payload_vector_alloc m (length vs) p q).1 in
    put_all m' (payload_vector_iter_init m' p) vs

-- Integers that are not the guard go into a new vector of their number through its iterator and come
-- back in order when the vector is parsed, within a round for each. The entries lie behind those that
-- were allocated: the conditions are that they, the words that are parsed to and the struct of the
-- vector lie in the memory and apart, and that none of the words parsed to holds the guard.
pub payload_parse_vector-put_all :
    (fuel : ℕ) (m : Memory) (p q dest v : ℕ) (vs : List ℕ)
    → p ≢ 0
    → q ≢ 0
    → AreIntegers (v ∷ vs)
    → q + 4 * suc (length vs) + 4 * suc (length vs) < 2 ^ 32
    → dest + 4 * suc (length vs) < 2 ^ 32
    → (dest + 4 * suc (length vs) ≤ q + 4 * suc (length vs))
      ⊎ (q + 4 * suc (length vs) + 4 * suc (length vs) ≤ dest)
    → IsApart p (q + 4 * suc (length vs)) (suc (length vs))
    → IsApart p dest (suc (length vs))
    → IsClear m.words dest (suc (length vs))
    → suc (length vs) ≤ fuel
    → IsParsed
        (filled m p q (v ∷ vs))
        dest
        (v ∷ vs)
        (payload_parse_vector fuel (filled m p q (v ∷ vs)) p dest)
payload_parse_vector-put_all fuel m p q dest v vs real_p real_q ints bound room apart struct_apart
      dest_apart clear enough =
    let size = suc (length vs) in
    let elts = q + 4 * size in
    let m' = with_vector m size p elts in
    let here : m'.payloads p ≡ record { type = vector; length = size; elts = elts } =
      update_self m.payloads p _ in
    let same_elts = ap (λ (v : Payload). v.elts) here in
    let same_length = ap (λ (v : Payload). v.length) here in
    subst
      (λ (x : Memory).
        IsParsed (put_all x (payload_vector_iter_init x p) (v ∷ vs)) dest (v ∷ vs)
          (payload_parse_vector fuel (put_all x (payload_vector_iter_init x p) (v ∷ vs)) p dest))
      (sym (
        ap (λ (r : ℕ × Memory). r.1)
          (payload_vector_alloc_lem m size p q real_p real_q (omega arith))))
      (parse_filled fuel m' p dest v vs ints same_length (omega (arith, same_elts)) room
        (subst (λ (a : ℕ). (dest + 4 * size ≤ a) ⊎ (a + 4 * size ≤ dest)) (sym same_elts) apart)
        (subst (λ (a : ℕ). IsApart p a size) (sym same_elts) struct_apart)
        (IsClear-same m.words m'.words dest size
          (λ a lo hi. update_other m.words elts guard_magic a (outside_of apart a lo hi)) clear)
        enough)
  where
    outside_of :
        {e : ℕ}
        → (dest + 4 * suc (length vs) ≤ e) ⊎ (e + 4 * suc (length vs) ≤ dest)
        → (a : ℕ) → dest ≤ a
        → a < dest + 4 * suc (length vs)
        → a ≢ e
    outside_of (inl before) a lo hi e = omega arith
    outside_of (inr behind) a lo hi e = omega arith
