-- ===== src/Text/Tests.antt =====
-- string.c on the memory that holds its addresses, and on one with two strings.
use team.Common.{◌+◌, ◌%◌, inl, arith, if◌then◌else◌, ltb}
use team.Text.{Memory, memmove, safestrcpy}
use team.Text.Move.{Wrote, memmove-Wrote}
use team.Text.Compare.{IsBytes}
use team.Text.Copy.{Copied, Whole, safestrcpy-Copied}

abbrev numbered : Memory
numbered = λ a. a % 256

-- Strings of three bytes from 100 on, and zeros.
abbrev text : Memory
text = λ a. if ltb a 100 then 0 else if ltb a 103 then 65 else 0

text-IsBytes : IsBytes text
text-IsBytes a = ground arith

-- The regions overlap, and the copy goes down.
memmove-Wrote_example : Wrote 12 5 (λ i. numbered (10 + i)) numbered (memmove 12 10 5 numbered)
memmove-Wrote_example = memmove-Wrote 12 10 5 numbered

safestrcpy-Copied_example :
    (c : Copied 0 100 3 text (safestrcpy 0 100 3 text)) × Whole 100 3 c.len text
safestrcpy-Copied_example = safestrcpy-Copied 0 100 3 text (omega arith) (inl (omega arith))
