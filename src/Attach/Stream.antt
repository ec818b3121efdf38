-- ===== src/Attach/Stream.antt =====
-- `Decoder::push` on a stream: it ends, its buffer is bounded, and what one call does on
-- bytes that two calls could take.
use rill.Prelude.{
  ℕ, zero, suc, ◌+◌, ◌≤◌, ◌<◌, ◌≡◌, refl, sym, ap, subst, ◌∙◌, List, [], ◌∷◌, ◌++◌, append_assoc,
  Option, none, some, arith, length, ok, err, Result-cases, inl, inr,
}
use mathlib.Core.Option
use rill.Attach.Frame.{Tag, Frame, Error, max_frame, decode}
use rill.Attach.Decoder.{Head, wait, fail, whole, head, Pushed, prepend, round, push_loop, push}
use rill.Attach.Head.{Extends, Bounds, head-Extends, head-Bounds}

-- A run of the loop of `push` from a buffer to its end, round by round.
pub data Runs : List ℕ → Pushed → Type 0 where
  stops : {buf : List ℕ} {r : Pushed} → head buf ≡ wait → r ≡ (buf, ok []) → Runs buf r
  fails :
      {buf : List ℕ} {r : Pushed} {e : Error} → head buf ≡ fail e → r ≡ (buf, err e) → Runs buf r
  refuses :
      {buf : List ℕ} {r : Pushed} {t : Tag} {p rest : List ℕ} {e : Error}
      → head buf ≡ whole t p rest
      → decode t p ≡ err e
      → r ≡ (rest, err e)
      → Runs buf r
  takes :
      {buf : List ℕ} {r q : Pushed} {t : Tag} {p rest : List ℕ} {f : Frame}
      → head buf ≡ whole t p rest
      → decode t p ≡ ok f
      → Runs rest q
      → r ≡ prepend f q
      → Runs buf r

whole_shorter :
    (buf : List ℕ) {rest p : List ℕ} {t : Tag}
    → head buf ≡ whole t p rest
    → length rest + 5 ≤ length buf
whole_shorter buf e = subst (Bounds (length buf)) e (head-Bounds buf)

-- With fuel above the buffer's length the loop makes the run.
Runs-push_loop :
    {buf : List ℕ} {r : Pushed} (n : ℕ) → Runs buf r → length buf < n → push_loop n buf ≡ some r
unfolding push_loop round
Runs-push_loop zero h lt = absurd (omega arith)
Runs-push_loop {buf} (suc n) (stops e eq) lt = ap (round (push_loop n) buf) e ∙ ap some (sym eq)
Runs-push_loop {buf} (suc n) (fails e eq) lt = ap (round (push_loop n) buf) e ∙ ap some (sym eq)
Runs-push_loop {buf} (suc n) (refuses e d eq) lt =
    ap (round (push_loop n) buf) e ∙ rw (d, round) (ap some (sym eq))
Runs-push_loop {buf} (suc n) (takes {f = f} e d later eq) lt =
    let fuel = whole_shorter buf e in
    ap (round (push_loop n) buf) e
    ∙ rw (d, round, Runs-push_loop n later (omega arith)) (ap some (sym eq))

-- Every buffer has a run.
run_at : (n : ℕ) (buf : List ℕ) → length buf < n → (r : Pushed) × Runs buf r
run_at zero buf lt = absurd (omega arith)
run_at (suc n) buf lt = go (head buf) refl (λ rest shorter. run_at n rest shorter)
  where
    go :
        (h : Head)
        → head buf ≡ h
        → ((rest : List ℕ) → length rest < n → (r : Pushed) × Runs rest r)
        → (r : Pushed) × Runs buf r
    go wait e later = ((buf, ok []), stops e refl)
    go (fail x) e later = ((buf, err x), fails e refl)
    go (whole t p rest) e later = elim (Result-cases (decode t p)) [
      | inl (f, d) ↦
          let fuel = whole_shorter buf e in
          let (q, run) = later rest (omega arith) in (prepend f q, takes e d run refl)
      | inr (x, d) ↦ ((rest, err x), refuses e d refl)
    ]

-- `push` ends, with the result of the run.
pub push-Runs :
    (buf bytes : List ℕ) → (r : Pushed) × (push buf bytes ≡ some r) × Runs (buf ++ bytes) r
unfolding push
push-Runs buf bytes =
    let (r, run) = run_at (length (buf ++ bytes) + 1) (buf ++ bytes) (omega arith) in
    (r, Runs-push_loop (length (buf ++ bytes) + 1) run (omega arith), run)

pub Runs-push : (buf bytes : List ℕ) {r : Pushed} → Runs (buf ++ bytes) r → push buf bytes ≡ some r
unfolding push
Runs-push buf bytes run = Runs-push_loop (length (buf ++ bytes) + 1) run (omega arith)

-- what is left in the buffer is shorter than a header and a payload of the largest size
abbrev Bounded : Pushed → Type 0
Bounded (buf, ok fs) = length buf < 5 + max_frame
Bounded (buf, err e) = Unit {0}

prepend-Bounded : (f : Frame) (q : Pushed) → Bounded q → Bounded (prepend f q)
unfolding prepend
prepend-Bounded f (buf, ok fs) h = h
prepend-Bounded f (buf, err e) h = tt

Runs-Bounded : {buf : List ℕ} {r : Pushed} → Runs buf r → Bounded r
Runs-Bounded {buf} (stops e eq) =
    subst Bounded (sym eq) (subst (Bounds (length buf)) e (head-Bounds buf))
Runs-Bounded (fails e eq) = subst Bounded (sym eq) tt
Runs-Bounded (refuses e d eq) = subst Bounded (sym eq) tt
Runs-Bounded (takes {q = q} {f = f} e d later eq) =
    subst Bounded (sym eq) (prepend-Bounded f q (Runs-Bounded later))

-- A peer that declares a large frame and never sends it cannot grow the daemon's memory: every call
-- of `push` ends, and after one that succeeds the buffer holds fewer than 5 + 4 MiB bytes, for any
-- bytes received and any buffer before.
pub push_bounded :
    (buf bytes : List ℕ)
    → (r : Pushed) × (push buf bytes ≡ some r)
      × ((rest : List ℕ) (fs : List Frame) → r ≡ (rest, ok fs) → length rest < 5 + max_frame)
push_bounded buf bytes =
    let (r, e, run) = push-Runs buf bytes in
    (r, e, λ rest fs eq. subst Bounded eq (Runs-Bounded run))

abbrev pub prepend_all : List Frame → Pushed → Pushed
prepend_all [] r = r
prepend_all (f ∷ fs) r = prepend f (prepend_all fs r)

-- the frames of a first call before what a second one returns; a first error ends the stream
abbrev pub before : Pushed → List ℕ → Pushed → Pushed
before (rest, ok fs) ys r = prepend_all fs r
before (rest, err e) ys r = (rest ++ ys, err e)

-- the second call, on what the first one left in the buffer
abbrev Continues : Pushed → List ℕ → Pushed → Type 0
Continues (rest, ok fs) ys r = Runs (rest ++ ys) r
Continues (rest, err e) ys r = Unit {0}

-- a run on a longer buffer
abbrev Joins : List ℕ → List ℕ → Pushed → Type 0
Joins buf ys q = (r : Pushed) → Continues q ys r → Runs (buf ++ ys) (before q ys r)

prepend-Joins :
    (buf rest ys : List ℕ) {p : List ℕ} {t : Tag} {f : Frame} (q : Pushed)
    → head (buf ++ ys) ≡ whole t p (rest ++ ys)
    → decode t p ≡ ok f
    → Joins rest ys q
    → Joins buf ys (prepend f q)
unfolding prepend
prepend-Joins buf rest ys (left, ok fs) e d j r c = takes e d (j r c) refl
prepend-Joins buf rest ys (left, err x) e d j r c = takes e d (j r c) refl

head_longer : (buf ys : List ℕ) {h : Head} → head buf ≡ h → Extends ys h (head (buf ++ ys))
head_longer buf ys e = subst (λ h. Extends ys h (head (buf ++ ys))) e (head-Extends buf ys)

Runs-append : {buf : List ℕ} {q : Pushed} (ys : List ℕ) → Runs buf q → Joins buf ys q
Runs-append {buf} ys (stops e eq) = subst (Joins buf ys) (sym eq) (λ r c. c)
Runs-append {buf} ys (fails e eq) =
    subst (Joins buf ys) (sym eq) (λ r c. fails (head_longer buf ys e) refl)
Runs-append {buf} ys (refuses e d eq) =
    subst (Joins buf ys) (sym eq) (λ r c. refuses (head_longer buf ys e) d refl)
Runs-append {buf} ys (takes {q = q} {rest = rest} e d later eq) =
    subst (Joins buf ys) (sym eq)
      (prepend-Joins buf rest ys q (head_longer buf ys e) d (Runs-append ys later))

-- the frames of a first call with what a second one returns; an error is all that a call returns
abbrev pub joined : List Frame → Pushed → Pushed
joined fs (rest, ok gs) = (rest, ok (fs ++ gs))
joined fs (rest, err e) = (rest, err e)

prepend_all-joined : (fs : List Frame) (r : Pushed) → prepend_all fs r ≡ joined fs r
unfolding prepend
prepend_all-joined [] (rest, ok gs) = refl
prepend_all-joined [] (rest, err e) = refl
prepend_all-joined (f ∷ fs) (rest, ok gs) = ap (prepend f) (prepend_all-joined fs (rest, ok gs))
prepend_all-joined (f ∷ fs) (rest, err e) = ap (prepend f) (prepend_all-joined fs (rest, err e))

-- two calls, with what one call of both pieces returns: all the frames, or the first error only
abbrev pub then_push : Option Pushed → List ℕ → Option Pushed
then_push none ys = none
then_push (some (rest, ok fs)) ys = Option.map (joined fs) (push rest ys)
then_push (some (rest, err e)) ys = some (rest ++ ys, err e)

-- What one call of `push` on two pieces does, against two calls. If both calls succeed, the one call
-- leaves the same buffer and returns the frames of both in order. If the first call succeeds and the
-- second one fails, the one call leaves the same buffer and returns that error only: the frames that
-- the first of the two calls returned are lost to its caller. If the first call fails, the one call
-- fails with the same error, and the second piece stays behind what that call left in the buffer.
pub push-append : (buf xs ys : List ℕ) → push buf (xs ++ ys) ≡ then_push (push buf xs) ys
push-append buf xs ys =
    let (q, e, run) = push-Runs buf xs in go q run ∙ ap (λ o. then_push o ys) (sym e)
  where
    whole_run : {r : Pushed} → Runs ((buf ++ xs) ++ ys) r → push buf (xs ++ ys) ≡ some r
    whole_run {r} run =
        Runs-push buf (xs ++ ys) (subst (λ l. Runs l r) (append_assoc buf xs ys) run)

    go : (q : Pushed) → Runs (buf ++ xs) q → push buf (xs ++ ys) ≡ then_push (some q) ys
    go (rest, ok fs) run =
        let (r, e, later) = push-Runs rest ys in
        whole_run (Runs-append ys run r later)
        ∙ ap some (prepend_all-joined fs r)
        ∙ ap (Option.map (joined fs)) (sym e)
    go (rest, err x) run = whole_run (Runs-append ys run (rest, ok []) tt)
