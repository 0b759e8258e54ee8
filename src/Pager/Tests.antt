-- ===== src/Pager/Tests.antt =====
-- mmap2.c with one slot, which is taken.
use team.Common.{ℕ, ◌*◌, refl, Bool, true, false, arith}
use team.Common.Family.{update}
use team.Pager.{PageInfo, Pager, lru, clock, choose, handle_sigsegv}
use team.Pager.Victim.{Chosen, choose_victim}
use team.Pager.Coherence.{Coherent, Answered, handle_sigsegv-Answered}

abbrev first_page : PageInfo
first_page = record { base = 4096; last_acc = 1; insert_num = 1; freq = 1; access_bit = 1 }

abbrev slots : ℕ → PageInfo
slots = λ _. first_page

-- Both slots have their bits set.
choose_victim_example : Chosen clock slots 2 1 (choose clock slots 2 1)
choose_victim_example = choose_victim clock slots 2 1 (omega arith) (omega arith)

abbrev one_slot : Pager ℕ
one_slot = record {
  sqrts = 4096;
  page_size = 4096;
  policy = lru;
  cache = slots;
  cache_count = 1;
  cache_slots = 1;
  access_counter = 1;
  clock_hand = 0;
  page_faults = 1;
  evictions = 0;
  mapped = update (λ _. false) 4096 true;
  table = λ _. 0;
}

one_slot-Coherent : Coherent one_slot
one_slot-Coherent = record {
  some_slot = omega arith;
  fits = omega arith;
  in_range = omega arith;
  lists = record {
    distinct = λ i j hi hj e. omega arith;
    sound = λ a h. (0, omega arith, ground arith);
    complete = λ i h. refl;
  };
}

abbrev square : ℕ → ℕ
square n = n * n

abbrev granted : ℕ → Bool
granted _ = true

-- A fault in the fourth page evicts the first one.
handle_sigsegv-Answered_example :
    Answered square granted granted one_slot 16384
      (handle_sigsegv square granted granted 16390 one_slot)
handle_sigsegv-Answered_example =
    handle_sigsegv-Answered square granted granted 16390 one_slot one_slot-Coherent (omega arith)
      (omega arith) refl refl (λ i. refl)
