-- ===== src/Ring/History.antt =====
-- The ring against its specification: the whole byte history, of which the last `cap` are kept.
use rill.Prelude.{
  ℕ, zero, suc, Bool, ◌+◌, ◌-◌, ◌≤◌, ◌<◌, ◌≡◌, ◌&&◌, subst, refl, sym, ap, ◌∙◌, List, [], ◌∷◌, ◌++◌,
  arith, leb, append-nil, append_assoc, take, length, drop, ◌⊎◌, length-append, length-drop,
  drop-append_le, drop-append_ge, drop-drop, drop-nil, Bool-cases, inl, inr, ok, err, if◌then◌else◌,
}
use mathlib.Core.List.{flatten}
use rill.Ring.{ByteRing, u64_max, new, append, append_nonempty, deltas_after, checkpoint_evicted}

-- `r` holds the last `r.cap` bytes of `h`, and its offsets count the bytes of `h`.
pub record Holds (h : List ℕ) (r : ByteRing) : Type 0 where
  pub cap_pos : 1 ≤ r.cap
  pub tail : r.bytes ≡ drop (length h - r.cap) h
  pub end_is : r.end ≡ length h
  pub base_is : r.retained_base ≡ length h - r.cap

-- A new ring holds the empty history.
pub new-Holds : (cap : ℕ) → Holds [] (new cap)
unfolding new
new-Holds cap = record {
  cap_pos = omega arith;
  tail = sym (drop-nil (0 - (new cap).cap));
  end_is = refl;
  base_is = omega arith;
}

module _ {h : List ℕ} {r : ByteRing} (v : Holds h r) where
  pub length-Holds : length r.bytes ≡ length h - (length h - r.cap)
  length-Holds = ap length v.tail ∙ length-drop (length h - r.cap) h

  -- the bytes kept when all of the old ones go
  tail_all :
      (bs : List ℕ)
      → r.cap ≤ length bs
      → drop (length bs - r.cap) bs ≡ drop (length (h ++ bs) - r.cap) (h ++ bs)
  tail_all bs c =
      ap (λ k. drop k bs) {y = length (h ++ bs) - r.cap - length h}
        (omega (arith, length-append h bs))
      ∙ sym (drop-append_ge (length (h ++ bs) - r.cap) h bs (omega (arith, length-append h bs)))

  -- the bytes kept when some of the old ones stay
  tail_some :
      (bs : List ℕ)
      → length bs < r.cap
      → drop (length r.bytes + length bs - r.cap) r.bytes ++ bs
        ≡ drop (length (h ++ bs) - r.cap) (h ++ bs)
  tail_some bs c =
      ap (λ (l : List ℕ). drop (length r.bytes + length bs - r.cap) l ++ bs) v.tail
      ∙ ap (λ (l : List ℕ). l ++ bs)
          (drop-drop (length r.bytes + length bs - r.cap) (length h - r.cap) h)
      ∙ ap (λ (k : ℕ). drop k h ++ bs) {y = length (h ++ bs) - r.cap}
          (omega (arith, length-append h bs, length-Holds))
      ∙ sym (drop-append_le (length (h ++ bs) - r.cap) h bs (omega (arith, length-append h bs)))

  append_nonempty-Holds :
      (bs : List ℕ) → length h + length bs ≤ u64_max → Holds (h ++ bs) (append_nonempty r bs)
  unfolding append_nonempty
  append_nonempty-Holds bs fits = ground (
    arith,
    tail_all bs,
    tail_some bs,
    length-append h bs,
    length-drop (length bs - r.cap) bs,
    length-drop (length (h ++ bs) - r.cap) (h ++ bs),
  )

-- Appending to the ring appends to the history that it holds, evicting the oldest bytes only, as
-- long as the history has at most `u64::MAX` bytes.
pub append-Holds :
    {h : List ℕ} {r : ByteRing} (bs : List ℕ)
    → Holds h r
    → length h + length bs ≤ u64_max
    → Holds (h ++ bs) (append r bs)
unfolding append
append-Holds {h} {r} [] v fits = subst (λ l. Holds l r) (sym (append-nil h)) v
append-Holds (b ∷ bs) v fits = append_nonempty-Holds v (b ∷ bs) fits

-- `deltas_after` gives the history from `start` on, if that offset is retained, and fails for any
-- other offset.
pub deltas_after_lem :
    {h : List ℕ} {r : ByteRing} (start : ℕ)
    → Holds h r
    → deltas_after r start ≡ (
        if leb (length h - r.cap) start && leb start (length h)
        then ok (drop start h)
        else err checkpoint_evicted)
unfolding deltas_after
deltas_after_lem {h} {r} start v = ground (arith, retained)
  where
    retained : length h - r.cap ≤ start → drop (start - r.retained_base) r.bytes ≡ drop start h
    retained le =
        ap (drop (start - r.retained_base)) v.tail
        ∙ drop-drop (start - r.retained_base) (length h - r.cap) h
        ∙ ap (λ (k : ℕ). drop k h) {y = start} (omega arith)

pub cap-append : (r : ByteRing) (bs : List ℕ) → (append r bs).cap ≡ r.cap
unfolding append
cap-append r [] = refl
cap-append r (b ∷ bs) = ground arith

abbrev pub append_all : ByteRing → List (List ℕ) → ByteRing
append_all r [] = r
append_all r (c ∷ cs) = append_all (append r c) cs

append_all_from :
    (h : List ℕ) (r : ByteRing) (cs : List (List ℕ))
    → Holds h r
    → length h + length (flatten cs) ≤ u64_max
    → Holds (h ++ flatten cs) (append_all r cs)
unfolding flatten
append_all_from h r [] v fits = subst (λ l. Holds l r) (sym (append-nil h)) v
append_all_from h r (c ∷ cs) v fits =
    subst (λ l. Holds l (append_all (append r c) cs)) (append_assoc h c (flatten cs))
      (append_all_from (h ++ c) (append r c) cs (append-Holds c v (omega (arith, lens)))
        (omega (arith, lens, length-append h c)))
  where
    lens : length (c ++ flatten cs) ≡ length c + length (flatten cs)
    lens = length-append c (flatten cs)

cap-append_all : (r : ByteRing) (cs : List (List ℕ)) → (append_all r cs).cap ≡ r.cap
cap-append_all r [] = refl
cap-append_all r (c ∷ cs) = cap-append_all (append r c) cs ∙ cap-append r c

take-append-drop : (n : ℕ) (xs : List ℕ) → take n xs ++ drop n xs ≡ xs
take-append-drop zero xs = refl
take-append-drop (suc n) [] = refl
take-append-drop (suc n) (x ∷ xs) = ap (◌∷◌ x) (take-append-drop n xs)

abbrev retained : ℕ → ℕ → List (List ℕ) → Bool
retained cap start cs =
    leb (length (flatten cs) - (append_all (new cap) cs).cap) start
    && leb start (length (flatten cs))

-- After any chunks of output, a reader that has the bytes before `start` and asks for the rest
-- either has the whole output, in order and with nothing lost, or is told that its offset is gone;
-- it is told so only for an offset past the end or older than the last `cap` bytes. The output has
-- at most `u64::MAX` bytes.
pub append_all-deltas_after :
    (cap start : ℕ) (cs : List (List ℕ))
    → length (flatten cs) ≤ u64_max
    → let answer = deltas_after (append_all (new cap) cs) start in
      ((bs : List ℕ) × (answer ≡ ok bs) × (take start (flatten cs) ++ bs ≡ flatten cs))
      ⊎ ((answer ≡ err checkpoint_evicted)
          × ((length (flatten cs) < start) ⊎ (start + (new cap).cap < length (flatten cs))))
append_all-deltas_after limit start cs fits =
    let held : Holds (flatten cs) (append_all (new limit) cs) =
      append_all_from [] (new limit) cs (new-Holds limit) (omega arith) in
    let answer = deltas_after_lem start held in
    elim (Bool-cases (retained limit start cs)) [
      | inl t ↦ inl (drop start (flatten cs), rw t at answer, take-append-drop start (flatten cs))
      | inr f ↦ inr (rw f at answer, ground (arith, cap-append_all (new limit) cs))
    ]
