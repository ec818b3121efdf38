-- ===== src/Task/Run.antt =====
-- The operations of a task as steps: every run keeps the invariant and every closed section.
use rill.Prelude.{
  ℕ, ◌≡◌, inl, inr, refl, sym, subst, ◌∙◌, true, List, [], ◌∷◌, some, Option-cases, Bool-cases,
  ℕ_discrete, arith, ite, lookup, insert, lookup-insert, ok, err,
}
use rill.Task.Section.{Section, SectionKind, Decision, approval, result}
use rill.Task.State.{
  Task, Changed, section_at, append, write, shut, close, set_content, mutate_content, is_approval,
  decide, answer, answer_text, decision_for, returning,
}
use rill.Task.Valid.{
  IsValid, IsDecided, append-IsValid, close-IsValid, mutate_content-IsValid, write-IsValid,
  section_at-write, find-modify_first,
}
use rill.Task.Gate.{section_at-shut, section_at-append_left}

pub data Operation : Type 0 where
  appends : SectionKind → List ℕ → Operation
  mutates : ℕ → List ℕ → Operation
  decides : ℕ → Decision → Operation
  answers : ℕ → List ℕ → Operation

-- the task after an operation, whatever it returns
unfoldable pub apply : Task → Operation → Task
apply t (appends kind content) = append t kind content
apply t (mutates i content) = (mutate_content t i content).0
apply t (decides i d) = (decide t i d).0
apply t (answers q text) = (answer t q text).0

unfoldable pub apply_all : Task → List Operation → Task
apply_all t [] = t
apply_all t (o ∷ os) = apply_all (apply t o) os

module _ (t : Task) (i : ℕ) (d : Decision) (v : IsValid t) where
  decided_write :
      (s : Section)
      → section_at t i ≡ some s
      → s.kind ≡ approval
      → IsValid (write (record t { decisions = insert ℕ_discrete i d t.decisions }) i shut)
  unfolding decision_for
  decided_write s e k =
      let w = write-IsValid t i shut (λ x. refl) (λ x h. (h.0, refl)) v in
      record {
        ascending = w.ascending;
        below = w.below;
        decided = λ j d' h. decided_at j d' (sym (lookup-insert ℕ_discrete j i d t.decisions) ∙ h);
      }
    where
      decided_at :
          (j : ℕ) (d' : Decision)
          → ite (ℕ_discrete i j) (some d) (lookup ℕ_discrete j t.decisions) ≡ some d'
          → IsDecided (section_at (write t i shut) j)
      decided_at j d' h = elim (ℕ_discrete i j) [
        | yes same ↦
            subst (λ n. IsDecided (section_at (write t i shut) n)) same
              (subst IsDecided (sym (section_at-shut t i e)) (k, refl))
        | no other ↦
            section_at-write t i shut j (λ x. refl) (λ x h'. (h'.0, refl))
              (v.decided j d' (ground arith))
      ]

  decide-IsValid : IsValid (decide t i d).0
  unfolding decide close
  decide-IsValid = elim (Option-cases (section_at t i)) [
    | inl e ↦ ground (arith, v)
    | inr (s, e) ↦ elim (Bool-cases (is_approval s.kind)) [
      | inl y ↦ let w = decided_write s e (ground arith) in ground (arith, w)
      | inr n ↦ ground (arith, v)
    ]
  ]

task-returning : (n : ℕ) (c : Changed (Unit {0})) → (returning n c).0 ≡ c.0
task-returning n (t, ok _) = refl
task-returning n (t, err e) = refl

answer-IsValid : (t : Task) (q : ℕ) (text : List ℕ) → IsValid t → IsValid (answer t q text).0
unfolding answer
answer-IsValid t q text v =
    let t' = append t result (answer_text q text) in
    let closed = close-IsValid t' q (append-IsValid t result (answer_text q text) v) in
    let w = subst IsValid (sym (task-returning t.next_index (close t' q))) closed in
    ground (arith, v, w)

apply-IsValid : (t : Task) (o : Operation) → IsValid t → IsValid (apply t o)
unfolding apply
apply-IsValid t (appends kind content) v = append-IsValid t kind content v
apply-IsValid t (mutates i content) v = mutate_content-IsValid t i content v
apply-IsValid t (decides i d) v = decide-IsValid t i d v
apply-IsValid t (answers q text) v = answer-IsValid t q text v

-- Any run of operations keeps a task valid: the section indexes rise and are below the next one, and
-- only closed approvals have decisions.
pub apply_all-IsValid : (t : Task) (os : List Operation) → IsValid t → IsValid (apply_all t os)
unfolding apply_all
apply_all-IsValid t [] v = v
apply_all-IsValid t (o ∷ os) v = apply_all-IsValid (apply t o) os (apply-IsValid t o v)

shut_again :
    (t : Task) (i j : ℕ) {s : Section}
    → section_at t i ≡ some s
    → s.closed ≡ true
    → section_at (write t j shut) i ≡ some s
shut_again t i j e c = let w = find-modify_first j shut (λ s. refl) i t.sections in ground arith

closed_stays :
    (t : Task) (i : ℕ) (o : Operation) {s : Section}
    → section_at t i ≡ some s
    → s.closed ≡ true
    → section_at (apply t o) i ≡ some s
unfolding apply mutate_content decide answer close
closed_stays t i (appends kind content) e c = section_at-append_left t kind content i e
closed_stays t i (mutates j content) e c =
    let w = find-modify_first j (set_content content) (λ s. refl) i t.sections in ground arith
closed_stays t i (decides j d) e c = ground (arith, shut_again t i j e c)
closed_stays t i (answers q text) e c =
    let more = section_at-append_left t result (answer_text q text) i e in
    ground (arith, shut_again (append t result (answer_text q text)) i q more c)

-- A closed section is never changed: after any run of operations its index finds it as it was.
pub apply_all-closed :
    (t : Task) (i : ℕ) (s : Section) (os : List Operation)
    → section_at t i ≡ some s
    → s.closed ≡ true
    → section_at (apply_all t os) i ≡ some s
unfolding apply_all
apply_all-closed t i s [] e c = e
apply_all-closed t i s (o ∷ os) e c = apply_all-closed (apply t o) i s os (closed_stays t i o e c) c
