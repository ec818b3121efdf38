-- ===== src/Engine/Tests.antt =====
-- The theorems about the engine at concrete inputs.
use rill.Prelude.{ℕ, ◌++◌, ◌≡◌, refl, List, [], ◌∷◌, arith}
use rill.Parser.State.{new}
use rill.Parser.Bounds.{new-IsValid}
use rill.Screen.State.{fresh_screen}
use rill.Screen.Valid.{fresh_screen-IsValid}
use rill.Engine.State.{VtEngine, feed}
use rill.Engine.Feed.{IsSound, feed_then, feed-feed}

abbrev small_engine : VtEngine
small_engine = record { parser = new; screen = fresh_screen 4 2 }

small_engine-IsSound : IsSound small_engine
unfolding new
small_engine-IsSound = record {
  ready = record { bounds = new-IsValid; settled = refl };
  shown = fresh_screen-IsValid 4 2 (omega arith) (omega arith);
}

-- the start of a control sequence, and its end with a letter
abbrev first_bytes : List ℕ
first_bytes = b'a' ∷ 0x1b ∷ b'[' ∷ b'3' ∷ []

abbrev last_bytes : List ℕ
last_bytes = b'1' ∷ b'm' ∷ b'b' ∷ []

feed-feed_example :
    feed small_engine (first_bytes ++ last_bytes)
    ≡ feed_then (feed small_engine first_bytes) last_bytes
feed-feed_example = feed-feed small_engine first_bytes last_bytes small_engine-IsSound
