-- ===== src/Screen/Reply.antt =====
-- The replies that the program is owed, and numbers in decimal.
use rill.Prelude.{
  ℕ, zero, suc, ◌+◌, ◌/◌, ◌%◌, List, [], ◌∷◌, ◌++◌, ltb, ◌==◌, if◌then◌else◌, length,
}
use rill.Screen.State.{Screen, add16, count_up}

abbrev pub reply_cap : ℕ
reply_cap = 1024

unfoldable pub enqueue_reply : Screen → List ℕ → Screen
enqueue_reply s bytes =
    if s.discard_replies
    then record s { replies_dropped = count_up s.replies_dropped }
    else if ltb reply_cap (length s.replies + length bytes)
    then record s { replies_dropped = count_up s.replies_dropped }
    else record s { replies = s.replies ++ bytes }

-- the digits of a number, one for each unit of fuel
unfoldable pub digits16 : ℕ → ℕ → List ℕ
digits16 zero n = []
digits16 (suc k) n =
    let d = (b'0' + n % 10) ∷ [] in if n / 10 == 0 then d else digits16 k (n / 10) ++ d

-- `write_u16` into an empty buffer: a `u16` has five digits at most
unfoldable pub write_u16 : ℕ → List ℕ
write_u16 n = digits16 5 n

-- the two bytes `ESC [`
abbrev pub csi_bytes : List ℕ → List ℕ
csi_bytes bytes = 0x1b ∷ b'[' ∷ bytes

abbrev pub reply_primary_da : Screen → Screen
reply_primary_da s = enqueue_reply s (csi_bytes (b'?' ∷ b'6' ∷ b'c' ∷ []))

abbrev pub reply_secondary_da : Screen → Screen
reply_secondary_da s =
    enqueue_reply s (csi_bytes (b'>' ∷ b'0' ∷ b';' ∷ b'0' ∷ b';' ∷ b'0' ∷ b'c' ∷ []))

abbrev pub reply_dsr_status : Screen → Screen
reply_dsr_status s = enqueue_reply s (csi_bytes (b'0' ∷ b'n' ∷ []))

unfoldable pub reply_dsr_cursor : Screen → Screen
reply_dsr_cursor s =
    let row = write_u16 (add16 s.cursor_row 1) in
    let col = write_u16 (add16 s.cursor_col 1) in
    enqueue_reply s (csi_bytes (row ++ b';' ∷ (col ++ b'R' ∷ [])))
