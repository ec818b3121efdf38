-- ===== src/Width/Tests.antt =====
-- The theorem about the tables at one code point.
use rill.Prelude.{◌≡◌, ◌↔◌, refl, true, false}
use rill.Width.Wide.{wide_ranges}
use rill.Width.Mark.{mark_ranges}
use rill.Width.Search.{is_wide, is_mark, contains, search_from}
use rill.Width.Order.{IsCovered}
use rill.Width.Tables.{is_wide-is_mark-IsCovered}

is_wide-is_mark-IsCovered_example :
    ((is_wide 0x65e5 ≡ true) ↔ IsCovered wide_ranges 0x65e5)
    × ((is_mark 0x65e5 ≡ true) ↔ IsCovered mark_ranges 0x65e5)
is_wide-is_mark-IsCovered_example = is_wide-is_mark-IsCovered 0x65e5

wide_kanji : is_wide 0x65e5 ≡ true
unfolding is_wide contains search_from
wide_kanji = refl

not_wide_a : is_wide b'a' ≡ false
unfolding is_wide contains search_from
not_wide_a = refl

mark_acute : is_mark 0x301 ≡ true
unfolding is_mark contains search_from
mark_acute = refl
