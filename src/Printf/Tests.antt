-- ===== src/Printf/Tests.antt =====
-- printf.c on a number of five digits, and on one that is too long.
use team.Common.{ℕ, ◌^◌, ◌≤◌, ◌<◌, ◌≡◌, none, some, true, false, List, arith, length}
use team.Printf.{printint, atoi}
use team.Printf.Numbers.{read, printint-unsigned, atoi-printint}

printint-unsigned_example :
    (10 ^ 17 < 10 ^ 16
      → (out : List ℕ) × (printint (10 ^ 17) 10 false ≡ some out)
        × (read 10 0 out ≡ 10 ^ 17)
        × (length out ≤ 16))
    × (10 ^ 16 ≤ 10 ^ 17 → printint (10 ^ 17) 10 false ≡ none)
printint-unsigned_example = printint-unsigned 10 (10 ^ 17) (omega arith) (omega arith)

atoi-printint_example : (out : List ℕ) × (printint 54321 10 true ≡ some out) × (atoi out ≡ 54321)
atoi-printint_example = atoi-printint 54321 (omega arith)
