-- ===== src/Task/Valid.antt =====
-- The invariant of a task, and that each operation keeps it.
use rill.Prelude.{
  ℕ, ◌+◌, ◌<◌, ◌≡◌, refl, sym, subst, Bool, true, false, List, [], ◌∷◌, Option, none, some, arith,
  ◌==◌, if◌then◌else◌, lookup, find, modify_first, find-append, All, AllPairs, All-append, All-map,
  AllPairs-snoc,
}
use mathlib.Core.Option
use rill.Task.Section.{Section, SectionKind, Decision, approval}
use rill.Task.State.{
  Task, new, has_index, section_at, new_section, append, write, shut, close, set_content,
  mutate_content, decision_for,
}

abbrev pub Earlier : Section → Section → Type 0
Earlier a b = a.index < b.index

abbrev pub Below : ℕ → Section → Type 0
Below n s = s.index < n

-- The section is a closed approval.
abbrev pub IsDecided : Option Section → Type 0
IsDecided none = ⊥
IsDecided (some s) = (s.kind ≡ approval) × (s.closed ≡ true)

pub record IsValid (t : Task) : Type 0 where
  pub ascending : AllPairs Earlier t.sections
  pub below : All (Below t.next_index) t.sections
  pub decided : (i : ℕ) (d : Decision) → decision_for t i ≡ some d → IsDecided (section_at t i)

pub new-IsValid : (id : ℕ) → IsValid (new id)
unfolding new decision_for lookup
new-IsValid id = record { ascending = tt; below = tt; decided = λ i d e. cc }

branch : {A : Type 0} (b : Bool) (P : A → Type 0) {x y : A} → P x → P y → P (if b then x else y)
branch true P h k = h
branch false P h k = k

abbrev Later : ℕ → Section → Type 0
Later n s = n < s.index

-- a write that leaves the index
abbrev pub KeepsIndex : (Section → Section) → Type 0
KeepsIndex f = (s : Section) → (f s).index ≡ s.index

module _ (i : ℕ) (f : Section → Section) (k : KeepsIndex f) where
  All-modify_first :
      (P : ℕ → Type 0) (ss : List Section)
      → All (λ (s : Section). P s.index) ss
      → All (λ (s : Section). P s.index) (modify_first (has_index i) f ss)
  unfolding modify_first
  All-modify_first P [] h = tt
  All-modify_first P (s ∷ ss) h =
      branch (has_index i s) (All (λ (s : Section). P s.index)) (subst P (sym (k s)) h.0, h.1)
        (h.0, All-modify_first P ss h.1)

  AllPairs-modify_first :
      (ss : List Section) → AllPairs Earlier ss → AllPairs Earlier (modify_first (has_index i) f ss)
  unfolding modify_first
  AllPairs-modify_first [] h = tt
  AllPairs-modify_first (s ∷ ss) h =
      branch (has_index i s) (AllPairs Earlier)
        (subst (λ (n : ℕ). All (Later n) ss) (sym (k s)) h.0, h.1)
        (All-modify_first (λ n. s.index < n) ss h.0, AllPairs-modify_first ss h.1)

  pub find-modify_first :
      (j : ℕ) (ss : List Section)
      → find (has_index j) (modify_first (has_index i) f ss)
        ≡ (if j == i then Option.map f (find (has_index j) ss) else find (has_index j) ss)
  unfolding modify_first find
  find-modify_first j [] = ground arith
  find-modify_first j (s ∷ ss) = ground (arith, k s, find-modify_first j ss)

abbrev pub KeepsDecided : (Section → Section) → Type 0
KeepsDecided f = (s : Section) → IsDecided (some s) → IsDecided (some (f s))

map-IsDecided :
    (f : Section → Section) (o : Option Section)
    → KeepsDecided f
    → IsDecided o
    → IsDecided (Option.map f o)
map-IsDecided f none c h = h
map-IsDecided f (some s) c h = c s h

section_at-append :
    (t : Task) (kind : SectionKind) (content : List ℕ) (i : ℕ)
    → IsDecided (section_at t i)
    → IsDecided (section_at (append t kind content) i)
unfolding append
section_at-append t kind content i h =
    let e = find-append (has_index i) t.sections (new_section t.next_index kind content ∷ []) in
    ground (arith, e)

pub append-IsValid :
    (t : Task) (kind : SectionKind) (content : List ℕ) → IsValid t → IsValid (append t kind content)
unfolding append decision_for
append-IsValid t kind content v =
    let s = new_section t.next_index kind content in
    record {
      ascending = AllPairs-snoc Earlier t.sections s v.ascending v.below;
      below =
          All-append (Below (t.next_index + 1)) t.sections (s ∷ [])
            (All-map (Below t.next_index) (Below (t.next_index + 1)) t.sections (λ x h. omega arith)
              v.below)
            (omega arith, tt);
      decided = λ i d e. section_at-append t kind content i (v.decided i d e);
    }

pub section_at-write :
    (t : Task) (i : ℕ) (f : Section → Section) (j : ℕ)
    → KeepsIndex f
    → KeepsDecided f
    → IsDecided (section_at t j)
    → IsDecided (section_at (write t i f) j)
section_at-write t i f j k c h =
    subst IsDecided (sym (find-modify_first i f k j t.sections))
      (branch (j == i) IsDecided (map-IsDecided f (section_at t j) c h) h)

pub write-IsValid :
    (t : Task) (i : ℕ) (f : Section → Section)
    → KeepsIndex f
    → KeepsDecided f
    → IsValid t
    → IsValid (write t i f)
unfolding decision_for
write-IsValid t i f k c v = record {
  ascending = AllPairs-modify_first i f k t.sections v.ascending;
  below = All-modify_first i f k (λ n. n < t.next_index) t.sections v.below;
  decided = λ j d e. section_at-write t i f j k c (v.decided j d e);
}

pub close-IsValid : (t : Task) (i : ℕ) → IsValid t → IsValid (close t i).0
unfolding close
close-IsValid t i v = ground (arith, v, write-IsValid t i shut (λ s. refl) (λ s h. (h.0, refl)) v)

pub mutate_content-IsValid :
    (t : Task) (i : ℕ) (content : List ℕ) → IsValid t → IsValid (mutate_content t i content).0
unfolding mutate_content
mutate_content-IsValid t i content v =
    ground (arith, v, write-IsValid t i (set_content content) (λ s. refl) (λ s h. h) v)
