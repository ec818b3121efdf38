-- ===== src/Parser/Tests.antt =====
-- The theorems about the parser at concrete inputs, and runs that can be followed in parser.rs.
use rill.Prelude.{ℕ, ◌++◌, ◌≡◌, refl, List, [], ◌∷◌, some, none, false, arith}
use rill.Parser.State.{
  Parser, Action, print, csi, esc, Out, new, reset_seq, push_digit, finish_param, push_osc,
}
use rill.Parser.Utf8.{abort_utf8}
use rill.Parser.Sequences.{
  ground_utf8, ground_byte, on_ground, on_escape, dispatch_csi, on_csi_entry, on_csi_param,
}
use rill.Parser.Strings.{on_osc_string, on_osc_escape}
use rill.Parser.Step.{dispatch, abort_outside_ground, step, feed_loop, feed}
use rill.Parser.Bounds.{IsValid, new-IsValid}
use rill.Parser.Invariant.{step-IsValid}
use rill.Parser.Feed.{IsReady, feed_all, feed_total, feed-append, then_feed}
use rill.Parser.Params.{Dispatches, write_digits, rest_of}
use rill.Parser.Csi.{IsIdle, feed_csi}
use rill.Parser.Text.{feed_text}

new-IsReady : IsReady new
unfolding new
new-IsReady = record { bounds = new-IsValid; settled = refl }

new-IsIdle : IsIdle new
unfolding new
new-IsIdle = record { ready = new-IsReady; at_ground = refl; whole = refl }

-- `ESC [ 3 1 m` between two letters
abbrev red : List ℕ
red = b'a' ∷ 0x1b ∷ b'[' ∷ b'3' ∷ b'1' ∷ b'm' ∷ b'b' ∷ []

-- what a run on the fresh parser calls
abbrev calls : ℕ → List ℕ → List Action
calls n bytes = elim (feed_loop n new bytes) [ none ↦ [] | some o ↦ o.1 ]

colour_run : calls 20 red ≡ print b'a' ∷ csi (31 ∷ []) [] false b'm' ∷ print b'b' ∷ []
unfolding feed_loop step dispatch abort_outside_ground on_ground ground_byte ground_utf8 on_escape
    on_csi_entry on_csi_param dispatch_csi reset_seq push_digit finish_param new abort_utf8
colour_run = refl

-- An OSC string that an ESC abandons is not reported, and the ESC starts a sequence.
abandoned_run :
    calls 20 (0x1b ∷ b']' ∷ b'0' ∷ 0x1b ∷ b'c' ∷ b'x' ∷ []) ≡ esc [] b'c' ∷ print b'x' ∷ []
unfolding feed_loop step dispatch abort_outside_ground on_ground ground_byte on_escape on_osc_string
    on_osc_escape reset_seq push_osc new abort_utf8
abandoned_run = refl

step-IsValid_example : IsValid (step new 0x1b).0
step-IsValid_example = step-IsValid new 0x1b new-IsValid

feed_total_example : (feed new red ≡ some (feed_all new red)) × IsReady (feed_all new red).0
feed_total_example = feed_total new red new-IsReady

feed-append_example :
    feed new ((0xc3 ∷ []) ++ (0xa9 ∷ b'!' ∷ []))
    ≡ then_feed (feed new (0xc3 ∷ [])) (0xa9 ∷ b'!' ∷ [])
feed-append_example = feed-append new (0xc3 ∷ []) (0xa9 ∷ b'!' ∷ []) new-IsReady

-- `ESC [ 1 ; 7 0 0 0 0 H`
feed_csi_example :
    (r : Out) × (feed new
        (0x1b ∷ b'[' ∷ (write_digits (1 ∷ []) ++ rest_of ((7 ∷ 0 ∷ 0 ∷ 0 ∷ 0 ∷ []) ∷ []) b'H'))
      ≡ some r)
    × Dispatches (1 ∷ 65535 ∷ []) b'H' r
feed_csi_example =
    feed_csi (1 ∷ []) ((7 ∷ 0 ∷ 0 ∷ 0 ∷ 0 ∷ []) ∷ []) b'H' new-IsIdle (omega arith) (omega arith)
      (omega arith) (omega arith) (omega arith) (omega arith)

-- "é€" in UTF-8
feed_text_example :
    (q : Parser) × (feed new (0xc3 ∷ 0xa9 ∷ 0xe2 ∷ 0x82 ∷ 0xac ∷ [])
      ≡ some (q, print 0xe9 ∷ print 0x20ac ∷ []))
    × IsIdle q
feed_text_example = feed_text new (0xe9 ∷ 0x20ac ∷ []) new-IsIdle (omega arith)
