-- ===== src/Viewport/History.antt =====
-- `ingest_scrolled` of scroll.rs against the end of a list.
use rill.Prelude.{
  ◌+◌, ◌-◌, ◌≤◌, ◌≡◌, inl, inr, sym, ap, ◌∙◌, List, [], ◌∷◌, ◌++◌, append_assoc, append-nil, ltb,
  if_taken, if_skipped, lt→ltb, le→ltb_false, lt_or_le, length, length-append, length-drop, drop,
  drop-drop, drop-append_le, arith,
}
use rill.VtTypes.{PodCell}
use rill.Viewport.State.{max_history_rows, push_row, ingest_scrolled}

-- the last `max_history_rows` rows
abbrev pub latest : List (List PodCell) → List (List PodCell)
latest rows = drop (length rows - max_history_rows) rows

push_row-latest :
    (history : List (List PodCell)) (row : List PodCell)
    → length history ≤ max_history_rows
    → push_row history row ≡ latest (history ++ row ∷ [])
unfolding push_row
push_row-latest history row fits =
    let pushed = history ++ row ∷ [] in
    let size = length-append history (row ∷ []) in
    elim (lt_or_le max_history_rows (length pushed)) [
      | inl over ↦
          (let one : 1 ≡ length pushed - max_history_rows = omega (arith, over, size, fits) in
            if_taken (ltb max_history_rows (length pushed)) _
              (lt→ltb max_history_rows (length pushed) over)
            ∙ ap (λ n. drop n pushed) one)
      | inr within ↦
          (let zero_rows : 0 ≡ length pushed - max_history_rows = omega (arith, within) in
            if_skipped (ltb max_history_rows (length pushed)) _
              (le→ltb_false max_history_rows (length pushed) within)
            ∙ ap (λ n. drop n pushed) zero_rows)
    ]

length-latest : (rows : List (List PodCell)) → length (latest rows) ≤ max_history_rows
length-latest rows = omega (arith, length-drop (length rows - max_history_rows) rows)

-- the latest rows of the latest rows and more
latest-append : (xs ys : List (List PodCell)) → latest (latest xs ++ ys) ≡ latest (xs ++ ys)
latest-append xs ys =
    let k = length xs - max_history_rows in
    let both = xs ++ ys in
    let sum = length-append xs ys in
    let joined : drop k xs ++ ys ≡ drop k both = sym (drop-append_le k xs ys (omega arith)) in
    let same : k + (length (drop k both) - max_history_rows) ≡ length both - max_history_rows =
      omega (arith, length-drop k both, sum) in
    ap latest joined
    ∙ drop-drop (length (drop k both) - max_history_rows) k both
    ∙ ap (λ n. drop n both) same

-- A history within its limit that takes in rows is the last 10000 rows of the history and the rows.
pub ingest_scrolled-latest :
    (history rows : List (List PodCell))
    → length history ≤ max_history_rows
    → ingest_scrolled history rows ≡ latest (history ++ rows)
unfolding ingest_scrolled
ingest_scrolled-latest history [] fits =
    let none_over : 0 ≡ length history - max_history_rows = omega (arith, fits) in
    ap (λ n. drop n history) none_over ∙ ap latest (sym (append-nil history))
ingest_scrolled-latest history (row ∷ rows) fits =
    let pushed = push_row-latest history row fits in
    ap (λ h. ingest_scrolled h rows) pushed
    ∙ ingest_scrolled-latest (latest (history ++ row ∷ [])) rows
        (length-latest (history ++ row ∷ []))
    ∙ latest-append (history ++ row ∷ []) rows
    ∙ ap latest (append_assoc history (row ∷ []) rows)
