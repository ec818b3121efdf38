-- ===== src/Screen/Checkpoint/Reader.antt =====
-- `take_u8`, `take_u16` and `take_u32`: readers that take their bytes off the front, and what it means
-- that a reader reads bytes that were put.
use rill.Prelude.{
  ℕ, zero, suc, ◌^◌, ◌<◌, ◌≡◌, refl, ap, ◌∙◌, List, [], ◌∷◌, ◌++◌, append_assoc, String, All,
  if◌then◌else◌, length, Result, ok, err, ◌>>=◌, arith,
}
use rill.VtTypes.{Error, vt}
use rill.Attach.Bytes.{le_bytes, from_le, from_le-le_bytes}

abbrev pub Reader : Type 0 → Type 0
Reader A = List ℕ → Result Error (A × List ℕ)

-- `?` between two readers
infixr 4 ◌then◌
unfoldable pub ◌then◌ : {A B : Type 0} → Reader A → (A → Reader B) → Reader B
(t then f) bytes = t bytes >>= λ r. f r.0 r.1

abbrev pub give : {A : Type 0} → A → Reader A
give a bytes = ok (a, bytes)

abbrev pub fail : {A : Type 0} → String → Reader A
fail what bytes = err (vt what)

unfoldable pub take_u8 : Reader ℕ
take_u8 [] = err (vt "truncated checkpoint")
take_u8 (b ∷ bytes) = ok (b, bytes)

unfoldable pub take_u16 : Reader ℕ
take_u16 (a ∷ b ∷ bytes) = ok (from_le (a ∷ b ∷ []), bytes)
take_u16 bytes = err (vt "truncated checkpoint")

unfoldable pub take_u32 : Reader ℕ
take_u32 (a ∷ b ∷ c ∷ d ∷ bytes) = ok (from_le (a ∷ b ∷ c ∷ d ∷ []), bytes)
take_u32 bytes = err (vt "truncated checkpoint")

abbrev pub put_u16 : ℕ → List ℕ
put_u16 n = le_bytes 2 n

abbrev pub put_u32 : ℕ → List ℕ
put_u32 n = le_bytes 4 n

abbrev pub put_u64 : ℕ → List ℕ
put_u64 n = le_bytes 8 n

-- `for _ in 0..n { items.push(t(&mut rest)?); }`
unfoldable pub take_many : {A : Type 0} → ℕ → Reader A → Reader (List A)
take_many zero t = give []
take_many (suc n) t = t then λ a. take_many n t then λ as'. give (a ∷ as')

unfoldable pub put_many : {A : Type 0} → (A → List ℕ) → List A → List ℕ
put_many put [] = []
put_many put (a ∷ as') = put a ++ put_many put as'

-- The reader takes exactly these bytes, and gives this value.
pub record Reads {A : Type 0} (t : Reader A) (bytes : List ℕ) (a : A) : Type 0 where
  pub run : (rest : List ℕ) → t (bytes ++ rest) ≡ ok (a, rest)

module _ {A B : Type 0} where
  pub Reads-then :
      {t : Reader A} {xs : List ℕ} {a : A} (f : A → Reader B) {ys : List ℕ} {b : B}
      → Reads t xs a
      → Reads (f a) ys b
      → Reads (t then f) (xs ++ ys) b
  unfolding ◌then◌
  Reads-then {t} {xs} {a} f {ys} h k = record {
    run = λ rest.
        ap (t then f) (append_assoc xs ys rest)
        ∙ ap (λ r. r >>= λ r. f r.0 r.1) (h.run (ys ++ rest))
        ∙ k.run rest;
  }

  pub Reads-last :
      {t : Reader A} {xs : List ℕ} {a : A} (g : A → B)
      → Reads t xs a
      → Reads (t then λ a. give (g a)) xs (g a)
  unfolding ◌then◌
  Reads-last g h = record { run = λ rest. ap (λ r. r >>= λ r. give (g r.0) r.1) (h.run rest) }

pub Reads-u8 : (n : ℕ) → Reads take_u8 (n ∷ []) n
unfolding take_u8
Reads-u8 n = record { run = λ rest. refl }

pub Reads-u16 : (n : ℕ) → n < 2 ^ 16 → Reads take_u16 (put_u16 n) n
unfolding take_u16 le_bytes
Reads-u16 n h = record {
  run = λ rest. ap (λ n. ok (n, rest)) (from_le-le_bytes 2 n (omega (arith, h)));
}

pub Reads-u32 : (n : ℕ) → n < 2 ^ 32 → Reads take_u32 (put_u32 n) n
unfolding take_u32 le_bytes
Reads-u32 n h = record {
  run = λ rest. ap (λ n. ok (n, rest)) (from_le-le_bytes 4 n (omega (arith, h)));
}

pub Reads-many :
    {A : Type 0} (t : Reader A) (put : A → List ℕ) (P : A → Type 0)
    → ((a : A) → P a → Reads t (put a) a)
    → (as' : List A) → All P as'
    → Reads (take_many (length as') t) (put_many put as') as'
unfolding take_many put_many
Reads-many t put P h [] v = record { run = λ rest. refl }
Reads-many t put P h (a ∷ as') v =
    Reads-then _ (h a v.0) (Reads-last (λ as'. a ∷ as') (Reads-many t put P h as' v.1))
