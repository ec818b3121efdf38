-- ===== src/Width/Mark/Low.antt =====
-- The first part of the table of marks.
use rill.Prelude.{ℕ, List, [], ◌∷◌}

abbrev pub low_marks : List (ℕ × ℕ)
low_marks =
    (0x300, 0x36F)
    ∷ (0x483, 0x489)
    ∷ (0x591, 0x5BD)
    ∷ (0x5BF, 0x5BF)
    ∷ (0x5C1, 0x5C2)
    ∷ (0x5C4, 0x5C5)
    ∷ (0x5C7, 0x5C7)
    ∷ (0x610, 0x61A)
    ∷ (0x64B, 0x65F)
    ∷ (0x670, 0x670)
    ∷ (0x6D6, 0x6DC)
    ∷ (0x6DF, 0x6E4)
    ∷ (0x6E7, 0x6E8)
    ∷ (0x6EA, 0x6ED)
    ∷ (0x711, 0x711)
    ∷ (0x730, 0x74A)
    ∷ (0x7A6, 0x7B0)
    ∷ (0x7EB, 0x7F3)
    ∷ (0x7FD, 0x7FD)
    ∷ (0x816, 0x819)
    ∷ (0x81B, 0x823)
    ∷ (0x825, 0x827)
    ∷ (0x829, 0x82D)
    ∷ (0x859, 0x85B)
    ∷ (0x897, 0x89F)
    ∷ (0x8CA, 0x8E1)
    ∷ (0x8E3, 0x902)
    ∷ (0x93A, 0x93A)
    ∷ (0x93C, 0x93C)
    ∷ (0x941, 0x948)
    ∷ (0x94D, 0x94D)
    ∷ (0x951, 0x957)
    ∷ (0x962, 0x963)
    ∷ (0x981, 0x981)
    ∷ (0x9BC, 0x9BC)
    ∷ (0x9C1, 0x9C4)
    ∷ (0x9CD, 0x9CD)
    ∷ (0x9E2, 0x9E3)
    ∷ (0x9FE, 0x9FE)
    ∷ (0xA01, 0xA02)
    ∷ (0xA3C, 0xA3C)
    ∷ (0xA41, 0xA42)
    ∷ (0xA47, 0xA48)
    ∷ (0xA4B, 0xA4D)
    ∷ (0xA51, 0xA51)
    ∷ (0xA70, 0xA71)
    ∷ (0xA75, 0xA75)
    ∷ (0xA81, 0xA82)
    ∷ (0xABC, 0xABC)
    ∷ (0xAC1, 0xAC5)
    ∷ (0xAC7, 0xAC8)
    ∷ (0xACD, 0xACD)
    ∷ (0xAE2, 0xAE3)
    ∷ (0xAFA, 0xAFF)
    ∷ (0xB01, 0xB01)
    ∷ (0xB3C, 0xB3C)
    ∷ (0xB3F, 0xB3F)
    ∷ (0xB41, 0xB44)
    ∷ (0xB4D, 0xB4D)
    ∷ (0xB55, 0xB56)
    ∷ (0xB62, 0xB63)
    ∷ (0xB82, 0xB82)
    ∷ (0xBC0, 0xBC0)
    ∷ (0xBCD, 0xBCD)
    ∷ (0xC00, 0xC00)
    ∷ (0xC04, 0xC04)
    ∷ (0xC3C, 0xC3C)
    ∷ (0xC3E, 0xC40)
    ∷ (0xC46, 0xC48)
    ∷ (0xC4A, 0xC4D)
    ∷ (0xC55, 0xC56)
    ∷ (0xC62, 0xC63)
    ∷ (0xC81, 0xC81)
    ∷ (0xCBC, 0xCBC)
    ∷ (0xCBF, 0xCBF)
    ∷ (0xCC6, 0xCC6)
    ∷ (0xCCC, 0xCCD)
    ∷ (0xCE2, 0xCE3)
    ∷ (0xD00, 0xD01)
    ∷ (0xD3B, 0xD3C)
    ∷ (0xD41, 0xD44)
    ∷ (0xD4D, 0xD4D)
    ∷ (0xD62, 0xD63)
    ∷ (0xD81, 0xD81)
    ∷ (0xDCA, 0xDCA)
    ∷ (0xDD2, 0xDD4)
    ∷ (0xDD6, 0xDD6)
    ∷ (0xE31, 0xE31)
    ∷ (0xE34, 0xE3A)
    ∷ (0xE47, 0xE4E)
    ∷ (0xEB1, 0xEB1)
    ∷ (0xEB4, 0xEBC)
    ∷ (0xEC8, 0xECE)
    ∷ (0xF18, 0xF19)
    ∷ (0xF35, 0xF35)
    ∷ (0xF37, 0xF37)
    ∷ (0xF39, 0xF39)
    ∷ (0xF71, 0xF7E)
    ∷ (0xF80, 0xF84)
    ∷ (0xF86, 0xF87)
    ∷ (0xF8D, 0xF97)
    ∷ (0xF99, 0xFBC)
    ∷ (0xFC6, 0xFC6)
    ∷ (0x102D, 0x1030)
    ∷ (0x1032, 0x1037)
    ∷ (0x1039, 0x103A)
    ∷ (0x103D, 0x103E)
    ∷ (0x1058, 0x1059)
    ∷ (0x105E, 0x1060)
    ∷ (0x1071, 0x1074)
    ∷ (0x1082, 0x1082)
    ∷ (0x1085, 0x1086)
    ∷ (0x108D, 0x108D)
    ∷ (0x109D, 0x109D)
    ∷ (0x135D, 0x135F)
    ∷ (0x1712, 0x1714)
    ∷ (0x1732, 0x1733)
    ∷ (0x1752, 0x1753)
    ∷ (0x1772, 0x1773)
    ∷ (0x17B4, 0x17B5)
    ∷ []
