-- ===== src/Parser/Feed.antt =====
-- `feed` of parser.rs: the loop ends within its fuel, keeps the bounds of the buffers, and does the
-- same for any split of the input.
use rill.Prelude.{
  ℕ, zero, suc, ◌+◌, ◌*◌, ◌<◌, ◌≡◌, ◌⊎◌, inl, inr, refl, sym, ap, subst, ◌∙◌, List, [], ◌∷◌, ◌++◌,
  append_assoc, Option, none, some, arith, length,
}
use rill.Parser.State.{Parser, State, Action, Out}
use rill.Parser.Step.{dispatch, then_out, next_byte, round, step, feed_loop, feed}
use rill.Parser.Bounds.{IsValid}
use rill.Parser.Invariant.{step-IsValid, step_lem}
use rill.Parser.Putback.{step-Quiet, step-Settled}

-- between two calls of `feed`
pub record IsReady (p : Parser) : Type 0 where
  pub bounds : IsValid p
  pub settled : p.putback ≡ none

-- What one input byte does: one round, and a second one for a byte put back.
again : Option ℕ → Out → Out
again none o = o
again (some b) (p, out) = let (q, rest) = step (record p { putback = none }) b in (q, out ++ rest)

unfoldable pub feed_byte : Parser → ℕ → Out
unfolding again
feed_byte p b = again (step p b).0.putback (step p b)

-- the specification of `feed`: byte after byte
unfoldable pub feed_all : Parser → List ℕ → Out
feed_all p [] = (p, [])
feed_all p (b ∷ bs) =
    let (q, out) = feed_byte p b in let (r, rest) = feed_all q bs in (r, out ++ rest)

unfoldable pub cleared : Parser → Parser
cleared p = record p { putback = none }

pub cleared-IsReady : (p : Parser) → IsValid p → IsReady (cleared p)
unfolding cleared
cleared-IsReady p v = record { bounds = ground arith; settled = refl }

-- The byte is taken by the first round, or put back by it and taken by the second.
pub record Once (p : Parser) (b : ℕ) : Type 0 where
  pub none_left : (step p b).0.putback ≡ none
  pub result : feed_byte p b ≡ step p b

pub record Twice (p : Parser) (b : ℕ) : Type 0 where
  pub put_back : (step p b).0.putback ≡ some b
  pub none_left : (step (cleared (step p b).0) b).0.putback ≡ none
  pub result :
      feed_byte p b
      ≡ ((step (cleared (step p b).0) b).0, (step p b).1 ++ (step (cleared (step p b).0) b).1)

pub rounds : (p : Parser) (b : ℕ) → IsReady p → Once p b ⊎ Twice p b
unfolding feed_byte cleared
rounds p b v = elim (step-Quiet p b v.bounds v.settled) [
  | inl e ↦ inl (record { none_left = e; result = ap (λ k. again k (step p b)) e })
  | inr (e, s) ↦ inr (record {
    put_back = e;
    none_left =
        step-Settled (cleared (step p b).0) b
          (cleared-IsReady (step p b).0 (step-IsValid p b v.bounds)).bounds refl s;
    result = ap (λ k. again k (step p b)) e;
  })
]

pub feed_byte-IsReady : (p : Parser) (b : ℕ) → IsReady p → IsReady (feed_byte p b).0
feed_byte-IsReady p b v = elim (rounds p b v) [
  | inl o ↦ rw o.result (record { bounds = step-IsValid p b v.bounds; settled = o.none_left })
  | inr t ↦ rw t.result (record {
    bounds =
        step-IsValid (cleared (step p b).0) b
          (cleared-IsReady (step p b).0 (step-IsValid p b v.bounds)).bounds;
    settled = t.none_left;
  })
]

feed_all-IsReady : (p : Parser) (bs : List ℕ) → IsReady p → IsReady (feed_all p bs).0
unfolding feed_all
feed_all-IsReady p [] v = v
feed_all-IsReady p (b ∷ bs) v = feed_all-IsReady (feed_byte p b).0 bs (feed_byte-IsReady p b v)

then_out-append :
    (xs ys : List Action) (o : Option Out) → then_out xs (then_out ys o) ≡ then_out (xs ++ ys) o
then_out-append xs ys none = refl
then_out-append xs ys (some (q, zs)) = rw append_assoc

feed_all-append :
    (p : Parser) (xs ys : List ℕ)
    → some (feed_all p (xs ++ ys))
      ≡ then_out (feed_all p xs).1 (some (feed_all (feed_all p xs).0 ys))
unfolding feed_all
feed_all-append p [] ys = refl
feed_all-append p (x ∷ xs) ys =
    ap (then_out (feed_byte p x).1) (feed_all-append (feed_byte p x).0 xs ys)
    ∙ then_out-append _ _ (some (feed_all (feed_all (feed_byte p x).0 xs).0 ys))

-- what a first round that takes its byte leaves for the rest of the input
abbrev pub after : Out → List ℕ → Out
after o bs = ((feed_all o.0 bs).0, o.1 ++ (feed_all o.0 bs).1)

pub feed_all_next :
    {p : Parser} (s : State) (b : ℕ) (o : Out)
    → IsReady p
    → p.state ≡ s
    → dispatch s p b ≡ o
    → o.0.putback ≡ none
    → (feed_byte p b ≡ o) × IsReady o.0
unfolding feed_byte
feed_all_next {p} s b o v g e q =
    let stepped : step p b ≡ o = step_lem p b v.bounds ∙ ap (λ t. dispatch t p b) g ∙ e in
    let byte : feed_byte p b ≡ o =
      ap (λ k. again k (step p b)) (ap (λ (t : Out). t.0.putback) stepped ∙ q) ∙ stepped in
    (byte, subst (λ (t : Out). IsReady t.0) byte (feed_byte-IsReady p b v))

pub feed_all-after :
    (p : Parser) (b : ℕ) (bs : List ℕ) {o : Out}
    → feed_byte p b ≡ o
    → feed_all p (b ∷ bs) ≡ after o bs
unfolding feed_all
feed_all-after p b bs e = ap (λ (t : Out). after t bs) e

-- one round of the loop
loop_next :
    (n : ℕ) (p : Parser) (b : ℕ) (bs : List ℕ)
    → p.putback ≡ none
    → feed_loop (suc n) p (b ∷ bs) ≡ then_out (step p b).1 (feed_loop n (step p b).0 bs)
unfolding feed_loop
loop_next n p b bs e = ap (λ k. round (feed_loop n) p (next_byte k p (b ∷ bs))) e

loop_again :
    (n : ℕ) (p : Parser) (b : ℕ) (bs : List ℕ)
    → p.putback ≡ some b
    → feed_loop (suc n) p bs
      ≡ then_out (step (cleared p) b).1 (feed_loop n (step (cleared p) b).0 bs)
unfolding feed_loop cleared
loop_again n p b bs e = ap (λ k. round (feed_loop n) p (next_byte k p bs)) e

-- a byte that takes one round, and one that takes two
loop-Once :
    (n : ℕ) (p : Parser) (b : ℕ) (bs : List ℕ)
    → IsReady p
    → Once p b
    → feed_loop (suc n) p (b ∷ bs) ≡ then_out (feed_byte p b).1 (feed_loop n (feed_byte p b).0 bs)
loop-Once n p b bs v o =
    loop_next n p b bs v.settled
    ∙ ap (λ (q : Out). then_out q.1 (feed_loop n q.0 bs)) (sym o.result)

loop-Twice :
    (n : ℕ) (p : Parser) (b : ℕ) (bs : List ℕ)
    → IsReady p
    → Twice p b
    → feed_loop (suc (suc n)) p (b ∷ bs)
      ≡ then_out (feed_byte p b).1 (feed_loop n (feed_byte p b).0 bs)
loop-Twice n p b bs v t =
    loop_next (suc n) p b bs v.settled
    ∙ ap (then_out (step p b).1) (loop_again n (step p b).0 b bs t.put_back)
    ∙ then_out-append _ _ _
    ∙ ap (λ (q : Out). then_out q.1 (feed_loop n q.0 bs)) (sym t.result)

-- The loop ends within its fuel, and does byte after byte what `feed_byte` does.
pub feed_loop-feed_all :
    (n : ℕ) (p : Parser) (bs : List ℕ)
    → IsReady p
    → 2 * length bs < n
    → feed_loop n p bs ≡ some (feed_all p bs)
unfolding feed_loop feed_all
feed_loop-feed_all zero p bs v h = absurd (omega arith)
feed_loop-feed_all (suc n) p [] v h = ap (λ k. round (feed_loop n) p (next_byte k p [])) v.settled
feed_loop-feed_all (suc zero) p (b ∷ bs) v h = absurd (omega arith)
feed_loop-feed_all (suc (suc n)) p (b ∷ bs) v h =
    let v' = feed_byte-IsReady p b v in
    elim (rounds p b v) [
      | inl o ↦
          loop-Once (suc n) p b bs v o
          ∙ ap (then_out (feed_byte p b).1)
              (feed_loop-feed_all (suc n) (feed_byte p b).0 bs v' (omega arith))
      | inr t ↦
          loop-Twice n p b bs v t
          ∙ ap (then_out (feed_byte p b).1)
              (feed_loop-feed_all n (feed_byte p b).0 bs v' (omega arith))
    ]

-- Between two calls, `feed` ends on every input, with its buffers in bounds and no byte put back.
pub feed_total :
    (p : Parser) (bs : List ℕ)
    → IsReady p
    → (feed p bs ≡ some (feed_all p bs)) × IsReady (feed_all p bs).0
unfolding feed
feed_total p bs v =
    (feed_loop-feed_all (2 * length bs + 1) p bs v (omega arith), feed_all-IsReady p bs v)

-- a second call of `feed`, on the parser that the first one leaves
abbrev pub then_feed : Option Out → List ℕ → Option Out
then_feed none ys = none
then_feed (some (q, out)) ys = then_out out (feed q ys)

-- The input may be split anywhere: between two calls, feeding the parts one after the other leaves
-- the same parser and calls the same actions as feeding the whole.
pub feed-append :
    (p : Parser) (xs ys : List ℕ) → IsReady p → feed p (xs ++ ys) ≡ then_feed (feed p xs) ys
feed-append p xs ys v =
    let (once, ready) = feed_total p xs v in
    (feed_total p (xs ++ ys) v).0
    ∙ feed_all-append p xs ys
    ∙ sym (
        ap (λ o. then_feed o ys) once
        ∙ ap (then_out (feed_all p xs).1) (feed_total (feed_all p xs).0 ys ready).0)
