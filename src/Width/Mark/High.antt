-- ===== src/Width/Mark/High.antt =====
-- The last part of the table of marks.
use rill.Prelude.{ℕ, List, [], ◌∷◌}

abbrev pub high_marks : List (ℕ × ℕ)
high_marks =
    (0x1122F, 0x11231)
    ∷ (0x11234, 0x11234)
    ∷ (0x11236, 0x11237)
    ∷ (0x1123E, 0x1123E)
    ∷ (0x11241, 0x11241)
    ∷ (0x112DF, 0x112DF)
    ∷ (0x112E3, 0x112EA)
    ∷ (0x11300, 0x11301)
    ∷ (0x1133B, 0x1133C)
    ∷ (0x11340, 0x11340)
    ∷ (0x11366, 0x1136C)
    ∷ (0x11370, 0x11374)
    ∷ (0x113BB, 0x113C0)
    ∷ (0x113CE, 0x113CE)
    ∷ (0x113D0, 0x113D0)
    ∷ (0x113D2, 0x113D2)
    ∷ (0x113E1, 0x113E2)
    ∷ (0x11438, 0x1143F)
    ∷ (0x11442, 0x11444)
    ∷ (0x11446, 0x11446)
    ∷ (0x1145E, 0x1145E)
    ∷ (0x114B3, 0x114B8)
    ∷ (0x114BA, 0x114BA)
    ∷ (0x114BF, 0x114C0)
    ∷ (0x114C2, 0x114C3)
    ∷ (0x115B2, 0x115B5)
    ∷ (0x115BC, 0x115BD)
    ∷ (0x115BF, 0x115C0)
    ∷ (0x115DC, 0x115DD)
    ∷ (0x11633, 0x1163A)
    ∷ (0x1163D, 0x1163D)
    ∷ (0x1163F, 0x11640)
    ∷ (0x116AB, 0x116AB)
    ∷ (0x116AD, 0x116AD)
    ∷ (0x116B0, 0x116B5)
    ∷ (0x116B7, 0x116B7)
    ∷ (0x1171D, 0x1171D)
    ∷ (0x1171F, 0x1171F)
    ∷ (0x11722, 0x11725)
    ∷ (0x11727, 0x1172B)
    ∷ (0x1182F, 0x11837)
    ∷ (0x11839, 0x1183A)
    ∷ (0x1193B, 0x1193C)
    ∷ (0x1193E, 0x1193E)
    ∷ (0x11943, 0x11943)
    ∷ (0x119D4, 0x119D7)
    ∷ (0x119DA, 0x119DB)
    ∷ (0x119E0, 0x119E0)
    ∷ (0x11A01, 0x11A0A)
    ∷ (0x11A33, 0x11A38)
    ∷ (0x11A3B, 0x11A3E)
    ∷ (0x11A47, 0x11A47)
    ∷ (0x11A51, 0x11A56)
    ∷ (0x11A59, 0x11A5B)
    ∷ (0x11A8A, 0x11A96)
    ∷ (0x11A98, 0x11A99)
    ∷ (0x11C30, 0x11C36)
    ∷ (0x11C38, 0x11C3D)
    ∷ (0x11C3F, 0x11C3F)
    ∷ (0x11C92, 0x11CA7)
    ∷ (0x11CAA, 0x11CB0)
    ∷ (0x11CB2, 0x11CB3)
    ∷ (0x11CB5, 0x11CB6)
    ∷ (0x11D31, 0x11D36)
    ∷ (0x11D3A, 0x11D3A)
    ∷ (0x11D3C, 0x11D3D)
    ∷ (0x11D3F, 0x11D45)
    ∷ (0x11D47, 0x11D47)
    ∷ (0x11D90, 0x11D91)
    ∷ (0x11D95, 0x11D95)
    ∷ (0x11D97, 0x11D97)
    ∷ (0x11EF3, 0x11EF4)
    ∷ (0x11F00, 0x11F01)
    ∷ (0x11F36, 0x11F3A)
    ∷ (0x11F40, 0x11F40)
    ∷ (0x11F42, 0x11F42)
    ∷ (0x11F5A, 0x11F5A)
    ∷ (0x13440, 0x13440)
    ∷ (0x13447, 0x13455)
    ∷ (0x1611E, 0x16129)
    ∷ (0x1612D, 0x1612F)
    ∷ (0x16AF0, 0x16AF4)
    ∷ (0x16B30, 0x16B36)
    ∷ (0x16F4F, 0x16F4F)
    ∷ (0x16F8F, 0x16F92)
    ∷ (0x16FE4, 0x16FE4)
    ∷ (0x1BC9D, 0x1BC9E)
    ∷ (0x1CF00, 0x1CF2D)
    ∷ (0x1CF30, 0x1CF46)
    ∷ (0x1D167, 0x1D169)
    ∷ (0x1D17B, 0x1D182)
    ∷ (0x1D185, 0x1D18B)
    ∷ (0x1D1AA, 0x1D1AD)
    ∷ (0x1D242, 0x1D244)
    ∷ (0x1DA00, 0x1DA36)
    ∷ (0x1DA3B, 0x1DA6C)
    ∷ (0x1DA75, 0x1DA75)
    ∷ (0x1DA84, 0x1DA84)
    ∷ (0x1DA9B, 0x1DA9F)
    ∷ (0x1DAA1, 0x1DAAF)
    ∷ (0x1E000, 0x1E006)
    ∷ (0x1E008, 0x1E018)
    ∷ (0x1E01B, 0x1E021)
    ∷ (0x1E023, 0x1E024)
    ∷ (0x1E026, 0x1E02A)
    ∷ (0x1E08F, 0x1E08F)
    ∷ (0x1E130, 0x1E136)
    ∷ (0x1E2AE, 0x1E2AE)
    ∷ (0x1E2EC, 0x1E2EF)
    ∷ (0x1E4EC, 0x1E4EF)
    ∷ (0x1E5EE, 0x1E5EF)
    ∷ (0x1E8D0, 0x1E8D6)
    ∷ (0x1E944, 0x1E94A)
    ∷ (0xE0100, 0xE01EF)
    ∷ []
