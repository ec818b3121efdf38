-- ===== src/Width/Mark/Middle.antt =====
-- The middle part of the table of marks.
use rill.Prelude.{ℕ, List, [], ◌∷◌}

abbrev pub middle_marks : List (ℕ × ℕ)
middle_marks =
    (0x17B7, 0x17BD)
    ∷ (0x17C6, 0x17C6)
    ∷ (0x17C9, 0x17D3)
    ∷ (0x17DD, 0x17DD)
    ∷ (0x180B, 0x180D)
    ∷ (0x180F, 0x180F)
    ∷ (0x1885, 0x1886)
    ∷ (0x18A9, 0x18A9)
    ∷ (0x1920, 0x1922)
    ∷ (0x1927, 0x1928)
    ∷ (0x1932, 0x1932)
    ∷ (0x1939, 0x193B)
    ∷ (0x1A17, 0x1A18)
    ∷ (0x1A1B, 0x1A1B)
    ∷ (0x1A56, 0x1A56)
    ∷ (0x1A58, 0x1A5E)
    ∷ (0x1A60, 0x1A60)
    ∷ (0x1A62, 0x1A62)
    ∷ (0x1A65, 0x1A6C)
    ∷ (0x1A73, 0x1A7C)
    ∷ (0x1A7F, 0x1A7F)
    ∷ (0x1AB0, 0x1ACE)
    ∷ (0x1B00, 0x1B03)
    ∷ (0x1B34, 0x1B34)
    ∷ (0x1B36, 0x1B3A)
    ∷ (0x1B3C, 0x1B3C)
    ∷ (0x1B42, 0x1B42)
    ∷ (0x1B6B, 0x1B73)
    ∷ (0x1B80, 0x1B81)
    ∷ (0x1BA2, 0x1BA5)
    ∷ (0x1BA8, 0x1BA9)
    ∷ (0x1BAB, 0x1BAD)
    ∷ (0x1BE6, 0x1BE6)
    ∷ (0x1BE8, 0x1BE9)
    ∷ (0x1BED, 0x1BED)
    ∷ (0x1BEF, 0x1BF1)
    ∷ (0x1C2C, 0x1C33)
    ∷ (0x1C36, 0x1C37)
    ∷ (0x1CD0, 0x1CD2)
    ∷ (0x1CD4, 0x1CE0)
    ∷ (0x1CE2, 0x1CE8)
    ∷ (0x1CED, 0x1CED)
    ∷ (0x1CF4, 0x1CF4)
    ∷ (0x1CF8, 0x1CF9)
    ∷ (0x1DC0, 0x1DFF)
    ∷ (0x20D0, 0x20F0)
    ∷ (0x2CEF, 0x2CF1)
    ∷ (0x2D7F, 0x2D7F)
    ∷ (0x2DE0, 0x2DFF)
    ∷ (0x302A, 0x302D)
    ∷ (0x3099, 0x309A)
    ∷ (0xA66F, 0xA672)
    ∷ (0xA674, 0xA67D)
    ∷ (0xA69E, 0xA69F)
    ∷ (0xA6F0, 0xA6F1)
    ∷ (0xA802, 0xA802)
    ∷ (0xA806, 0xA806)
    ∷ (0xA80B, 0xA80B)
    ∷ (0xA825, 0xA826)
    ∷ (0xA82C, 0xA82C)
    ∷ (0xA8C4, 0xA8C5)
    ∷ (0xA8E0, 0xA8F1)
    ∷ (0xA8FF, 0xA8FF)
    ∷ (0xA926, 0xA92D)
    ∷ (0xA947, 0xA951)
    ∷ (0xA980, 0xA982)
    ∷ (0xA9B3, 0xA9B3)
    ∷ (0xA9B6, 0xA9B9)
    ∷ (0xA9BC, 0xA9BD)
    ∷ (0xA9E5, 0xA9E5)
    ∷ (0xAA29, 0xAA2E)
    ∷ (0xAA31, 0xAA32)
    ∷ (0xAA35, 0xAA36)
    ∷ (0xAA43, 0xAA43)
    ∷ (0xAA4C, 0xAA4C)
    ∷ (0xAA7C, 0xAA7C)
    ∷ (0xAAB0, 0xAAB0)
    ∷ (0xAAB2, 0xAAB4)
    ∷ (0xAAB7, 0xAAB8)
    ∷ (0xAABE, 0xAABF)
    ∷ (0xAAC1, 0xAAC1)
    ∷ (0xAAEC, 0xAAED)
    ∷ (0xAAF6, 0xAAF6)
    ∷ (0xABE5, 0xABE5)
    ∷ (0xABE8, 0xABE8)
    ∷ (0xABED, 0xABED)
    ∷ (0xFB1E, 0xFB1E)
    ∷ (0xFE00, 0xFE0F)
    ∷ (0xFE20, 0xFE2F)
    ∷ (0x101FD, 0x101FD)
    ∷ (0x102E0, 0x102E0)
    ∷ (0x10376, 0x1037A)
    ∷ (0x10A01, 0x10A03)
    ∷ (0x10A05, 0x10A06)
    ∷ (0x10A0C, 0x10A0F)
    ∷ (0x10A38, 0x10A3A)
    ∷ (0x10A3F, 0x10A3F)
    ∷ (0x10AE5, 0x10AE6)
    ∷ (0x10D24, 0x10D27)
    ∷ (0x10D69, 0x10D6D)
    ∷ (0x10EAB, 0x10EAC)
    ∷ (0x10EFC, 0x10EFF)
    ∷ (0x10F46, 0x10F50)
    ∷ (0x10F82, 0x10F85)
    ∷ (0x11001, 0x11001)
    ∷ (0x11038, 0x11046)
    ∷ (0x11070, 0x11070)
    ∷ (0x11073, 0x11074)
    ∷ (0x1107F, 0x11081)
    ∷ (0x110B3, 0x110B6)
    ∷ (0x110B9, 0x110BA)
    ∷ (0x110C2, 0x110C2)
    ∷ (0x11100, 0x11102)
    ∷ (0x11127, 0x1112B)
    ∷ (0x1112D, 0x11134)
    ∷ (0x11173, 0x11173)
    ∷ (0x11180, 0x11181)
    ∷ (0x111B6, 0x111BE)
    ∷ (0x111C9, 0x111CC)
    ∷ (0x111CF, 0x111CF)
    ∷ []
