-- ===== src/Pipe/Tests.antt =====
-- A pipe that holds two bytes and whose counters are about to wrap.
use team.Common.{
  ℕ, Bool, ◌==◌, ◌≤◌, ◌≡◌, refl, true, false, some, [], ◌++◌, ◌⊎◌, length, arith, ◌^◌, ◌-◌,
}
use team.Pipe.{Pipe, returned, asleep, pipewrite, piperead}
use team.Pipe.Contents.{IsValid, contents}
use team.Pipe.Write.{Wrote, pipewrite-Wrote}
use team.Pipe.Read.{piperead-cases}

abbrev wrapping : Pipe
wrapping = record {
  buf = λ i. i;
  nread = 2 ^ 32 - 2;
  nwrite = 0;
  readopen = true;
  writeopen = true;
  wakeups = [];
}

wrapping-IsValid : IsValid wrapping
wrapping-IsValid = record { read_in = omega arith; write_in = omega arith; room = omega arith }

-- The process is killed when two of three bytes are moved.
abbrev killed_late : ℕ → Bool
killed_late i = i == 2

pipewrite-Wrote_example :
    Wrote killed_late
      (λ a. some a)
      100
      0
      3
      wrapping
      (pipewrite killed_late (λ a. some a) 100 3 wrapping)
pipewrite-Wrote_example = pipewrite-Wrote killed_late (λ a. some a) 100 3 wrapping wrapping-IsValid

piperead-cases_example :
    let (e, out, q) = piperead false (λ _. true) 100 3 wrapping in
    ((wrapping.nread ≡ wrapping.nwrite)
      × (wrapping.writeopen ≡ true)
      × (e ≡ asleep 0)
      × (q ≡ wrapping))
    ⊎ ((e ≡ returned (length out))
        × (contents wrapping ≡ out ++ contents q)
        × IsValid q
        × ((length out ≡ 3) ⊎ ((length out ≤ 3) × (contents q ≡ []))))
piperead-cases_example =
    piperead-cases false (λ _. true) 100 3 wrapping wrapping-IsValid (λ a. refl)
