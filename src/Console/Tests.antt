-- ===== src/Console/Tests.antt =====
-- A ring whose read index is about to wrap, with a line of two bytes complete and one byte typed.
use team.Common.{◌-◌, ◌^◌, ◌≡◌, refl, true, false, some, [], arith, ◌==◌, if◌then◌else◌}
use team.Console.{Cons, consoleintr, read_loop}
use team.Console.Line.{IsValid, Typed, consoleintr-Typed}
use team.Console.Read.{Took, read_loop-Took}

abbrev typing : Cons
typing = record {
  buf = λ i. if i == 127 then 65 else if i == 0 then 10 else 66;
  r = 2 ^ 32 - 1;
  w = 1;
  e = 2;
  echoed = [];
  wakeups = 1;
}

typing-IsValid : IsValid typing
typing-IsValid = record {
  r_in = omega arith;
  w_in = omega arith;
  e_in = omega arith;
  order = omega arith;
  room = omega arith;
}

-- The return key
consoleintr-Typed_example : (s' : Cons) × (consoleintr 13 typing ≡ some s') × Typed 13 typing s'
consoleintr-Typed_example = consoleintr-Typed 13 typing typing-IsValid

read_loop-Took_example : Took false 5 typing 5 (read_loop false (λ _. true) 5 5 100 typing)
read_loop-Took_example =
    read_loop-Took false (λ _. true) 5 (λ a. refl) 5 100 typing typing-IsValid (omega arith)
