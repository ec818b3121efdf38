-- ===== src/Parser/Text.antt =====
-- UTF-8 text: the parser prints the characters that were encoded.
use rill.Prelude.{
  ℕ, ◌+◌, ◌/◌, ◌≤◌, ◌<◌, ◌≡◌, map, inl, inr, refl, sym, ap, ◌∙◌, true, false, List, [], ◌∷◌, ◌++◌,
  some, arith, ltb, lt_or_le, subst, take, set,
}
use rill.Parser.State.{Parser, State, print, silent}
use rill.Parser.Utf8.{decode_utf8, start_utf8, finish_utf8, is_continuation}
use rill.Parser.Sequences.{on_ground, ground_byte, ground_utf8}
use rill.Parser.Step.{dispatch, feed}
use rill.Parser.Feed.{
  IsReady, feed_byte, feed_all, after, feed_all_next, feed_all-after, feed_total,
}
use rill.Parser.Csi.{IsIdle}
use rill.Parser.Encoding.{
  IsScalar, IsPrintable, tail_byte, encode_utf8, decode_two-encode, decode_three-encode,
  decode_four-encode, encode_one, encode_two, encode_three, encode_four, tail_byte-continues,
}

-- the parser in the middle of a character
abbrev pending : Parser → List ℕ → ℕ → ℕ → Parser
pending p bytes len needed = record p { utf8 = bytes; utf8_len = len; utf8_needed = needed }

module _ {p : Parser} (v : IsIdle p) where
  on_lead :
      (b n : ℕ)
      → ground_byte p b ≡ silent (start_utf8 p b n)
      → (feed_byte p b ≡ silent (pending p (b ∷ 0 ∷ 0 ∷ 0 ∷ []) 1 n))
        × IsReady (pending p (b ∷ 0 ∷ 0 ∷ 0 ∷ []) 1 n)
  unfolding dispatch on_ground start_utf8
  on_lead b n e =
      let between : ltb 0 p.utf8_needed ≡ false = ground (arith, v.whole) in
      feed_all_next State.ground b (silent (start_utf8 p b n)) v.ready v.at_ground (rw between e)
        v.ready.settled

  on_tail :
      (bytes : List ℕ) (len needed b : ℕ)
      → is_continuation b ≡ true
      → len + 1 < needed
      → IsReady (pending p bytes len needed)
      → (feed_byte (pending p bytes len needed) b
          ≡ silent (pending p (set bytes len b) (len + 1) needed))
        × IsReady (pending p (set bytes len b) (len + 1) needed)
  unfolding dispatch on_ground ground_utf8
  on_tail bytes len needed b c more r =
      feed_all_next State.ground b (silent (pending p (set bytes len b) (len + 1) needed)) r
        v.at_ground (ground arith) v.ready.settled

  on_last :
      (bytes : List ℕ) (len needed b scalar : ℕ)
      → is_continuation b ≡ true
      → len + 1 ≡ needed
      → decode_utf8 (take needed (set bytes len b)) ≡ some scalar
      → IsReady (pending p bytes len needed)
      → (feed_byte (pending p bytes len needed) b
          ≡ (pending p (set bytes len b) 0 0, print scalar ∷ []))
        × IsReady (pending p (set bytes len b) 0 0)
  unfolding dispatch on_ground ground_utf8 finish_utf8
  on_last bytes len needed b scalar c last decoded r =
      feed_all_next State.ground b (pending p (set bytes len b) 0 0, print scalar ∷ []) r
        v.at_ground (ground arith) v.ready.settled

  -- what a run of bytes does: it prints `c` and leaves the parser idle for the rest
  abbrev Prints : ℕ → List ℕ → List ℕ → Type 0
  Prints c bytes bs =
      (q : Parser) × IsIdle q × (feed_all p (bytes ++ bs) ≡ after (q, print c ∷ []) bs)

  IsIdle-after : (bytes : List ℕ) → IsReady (pending p bytes 0 0) → IsIdle (pending p bytes 0 0)
  IsIdle-after bytes r = record { ready = r; at_ground = v.at_ground; whole = refl }

  feed_one : (c : ℕ) (bs : List ℕ) → 0x20 ≤ c → c < 0x7f → Prints c (c ∷ []) bs
  unfolding dispatch on_ground ground_byte
  feed_one c bs lo hi =
      let between : ltb 0 p.utf8_needed ≡ false = ground (arith, v.whole) in
      let (e, r) =
        feed_all_next State.ground c (p, print c ∷ []) v.ready v.at_ground
          (rw between (ground arith)) v.ready.settled in
      (p, v, feed_all-after p c bs e)

  feed_two : (c : ℕ) (bs : List ℕ) → 0x80 ≤ c → c < 0x800 → Prints c (encode_utf8 c) bs
  unfolding ground_byte decode_utf8
  feed_two c bs lo hi =
      let a : ℕ = 0xc0 + c / 64 in
      let (e, r) = on_lead a 2 (ground arith) in
      let (e', r') =
        on_last (a ∷ 0 ∷ 0 ∷ 0 ∷ []) 1 2 (tail_byte c) c (tail_byte-continues c) refl
          (decode_two-encode c lo hi) r in
      (
        pending p (a ∷ tail_byte c ∷ 0 ∷ 0 ∷ []) 0 0,
        IsIdle-after (a ∷ tail_byte c ∷ 0 ∷ 0 ∷ []) r',
        ap (λ l. feed_all p (l ++ bs)) (encode_two c lo hi)
            ∙ feed_all-after p a (tail_byte c ∷ bs) e
            ∙ feed_all-after (pending p (a ∷ 0 ∷ 0 ∷ 0 ∷ []) 1 2) (tail_byte c) bs e',
      )

  feed_three :
      (c : ℕ) (bs : List ℕ) → IsScalar c → 0x800 ≤ c → c < 0x10000 → Prints c (encode_utf8 c) bs
  unfolding ground_byte decode_utf8
  feed_three c bs s lo hi =
      let a : ℕ = 0xe0 + c / 4096 in
      let b : ℕ = tail_byte (c / 64) in
      let (e, r) = on_lead a 3 (ground arith) in
      let (e', r') =
        on_tail (a ∷ 0 ∷ 0 ∷ 0 ∷ []) 1 3 b (tail_byte-continues (c / 64)) (omega arith) r in
      let (e'', r'') =
        on_last (a ∷ b ∷ 0 ∷ 0 ∷ []) 2 3 (tail_byte c) c (tail_byte-continues c) refl
          (decode_three-encode c s lo hi) r' in
      (
        pending p (a ∷ b ∷ tail_byte c ∷ 0 ∷ []) 0 0,
        IsIdle-after (a ∷ b ∷ tail_byte c ∷ 0 ∷ []) r'',
        ap (λ l. feed_all p (l ++ bs)) (encode_three c lo hi)
            ∙ feed_all-after p a (b ∷ tail_byte c ∷ bs) e
            ∙ feed_all-after (pending p (a ∷ 0 ∷ 0 ∷ 0 ∷ []) 1 3) b (tail_byte c ∷ bs) e'
            ∙ feed_all-after (pending p (a ∷ b ∷ 0 ∷ 0 ∷ []) 2 3) (tail_byte c) bs e'',
      )

  feed_four : (c : ℕ) (bs : List ℕ) → IsScalar c → 0x10000 ≤ c → Prints c (encode_utf8 c) bs
  unfolding ground_byte decode_utf8
  feed_four c bs s lo =
      let a : ℕ = 0xf0 + c / 262144 in
      let b : ℕ = tail_byte (c / 4096) in
      let d : ℕ = tail_byte (c / 64) in
      let (e, r) = on_lead a 4 (ground arith) in
      let (e₁, r₁) =
        on_tail (a ∷ 0 ∷ 0 ∷ 0 ∷ []) 1 4 b (tail_byte-continues (c / 4096)) (omega arith) r in
      let (e₂, r₂) =
        on_tail (a ∷ b ∷ 0 ∷ 0 ∷ []) 2 4 d (tail_byte-continues (c / 64)) (omega arith) r₁ in
      let (e₃, r₃) =
        on_last (a ∷ b ∷ d ∷ 0 ∷ []) 3 4 (tail_byte c) c (tail_byte-continues c) refl
          (decode_four-encode c s lo) r₂ in
      (
        pending p (a ∷ b ∷ d ∷ tail_byte c ∷ []) 0 0,
        IsIdle-after (a ∷ b ∷ d ∷ tail_byte c ∷ []) r₃,
        ap (λ l. feed_all p (l ++ bs)) (encode_four c lo)
            ∙ feed_all-after p a (b ∷ d ∷ tail_byte c ∷ bs) e
            ∙ feed_all-after (pending p (a ∷ 0 ∷ 0 ∷ 0 ∷ []) 1 4) b (d ∷ tail_byte c ∷ bs) e₁
            ∙ feed_all-after (pending p (a ∷ b ∷ 0 ∷ 0 ∷ []) 2 4) d (tail_byte c ∷ bs) e₂
            ∙ feed_all-after (pending p (a ∷ b ∷ d ∷ 0 ∷ []) 3 4) (tail_byte c) bs e₃,
      )

  feed_char : (c : ℕ) (bs : List ℕ) → IsPrintable c → Prints c (encode_utf8 c) bs
  feed_char c bs s = elim (lt_or_le c 0x80) [
    | inl one ↦
        subst (λ l. Prints c l bs) (sym (encode_one c one))
          (feed_one c bs s.shown (omega (arith, s.no_del)))
    | inr lo ↦ elim (lt_or_le c 0x800) [
      | inl two ↦ feed_two c bs lo two
      | inr lo' ↦ elim (lt_or_le c 0x10000) [
        | inl three ↦ feed_three c bs s.scalar lo' three
        | inr four ↦ feed_four c bs s.scalar four
      ]
    ]
  ]

-- characters that are no C0 control and not DEL
abbrev pub AllPrintable : List ℕ → Type 0
AllPrintable [] = Unit {0}
AllPrintable (c ∷ cs) = IsPrintable c × AllPrintable cs

abbrev pub encode_text : List ℕ → List ℕ
encode_text [] = []
encode_text (c ∷ cs) = encode_utf8 c ++ encode_text cs

feed_all_text :
    (p : Parser) (cs : List ℕ)
    → IsIdle p
    → AllPrintable cs
    → ((feed_all p (encode_text cs)).1 ≡ map print cs) × IsIdle (feed_all p (encode_text cs)).0
unfolding feed_all
feed_all_text p [] v h = (refl, v)
feed_all_text p (c ∷ cs) v h =
    let (q, idle, e) = feed_char v c (encode_text cs) h.0 in
    let (rest, last) = feed_all_text q cs idle h.1 in rw e (ap (◌∷◌ (print c)) rest, last)

-- A text of characters that are not below 0x20 and not DEL, those from 0x80 to 0x9f included, is printed
-- character by character from its UTF-8 form, and nothing else is called; an idle parser is idle
-- again after it.
pub feed_text :
    (p : Parser) (cs : List ℕ)
    → IsIdle p
    → AllPrintable cs
    → (q : Parser) × (feed p (encode_text cs) ≡ some (q, map print cs)) × IsIdle q
feed_text p cs v h =
    let (printed, idle) = feed_all_text p cs v h in
    (
      (feed_all p (encode_text cs)).0,
      (feed_total p (encode_text cs) v.ready).0
          ∙ ap (λ out. some ((feed_all p (encode_text cs)).0, out)) printed,
      idle,
    )
