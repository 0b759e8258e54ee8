-- ===== src/Pager.antt =====
-- CLab/mmap2.c: a table of square roots, computed page by page in the handler of SIGSEGV, with at
-- most `cache_slots` pages mapped. The array `cache` is a function of the index. `sqrt` and its
-- values are the C library's, `mmap_ok` and `munmap_ok` say whether the calls of the kernel succeed
-- for an address; a call that succeeds maps or unmaps the page. Addresses do not wrap.
pub mod Clock
pub mod Victim
pub mod Coherence
mod Tests
use team.Common.{
  ℕ, zero, suc, ◌+◌, ◌-◌, ◌*◌, ◌/◌, ◌%◌, ◌^◌, Bool, true, false, ◌==◌, ◌||◌, if◌then◌else◌, ltb,
  leb, not,
}
use team.Common.Family.{update}

-- `page_info`
pub record PageInfo : Type 0 where
  pub base : ℕ
  pub last_acc : ℕ
  pub insert_num : ℕ
  pub freq : ℕ
  pub access_bit : ℕ

-- `enum replacement_policy_t`
pub data Policy : Type 0 where
  lru mru clock : Policy

-- The globals of mmap2.c. `mapped` holds of the page addresses that are mapped, and `table` is what
-- the mapped memory holds at each address.
pub record Pager (D : Type 0) : Type 0 where
  pub sqrts : ℕ
  pub page_size : ℕ
  pub policy : Policy
  pub cache : ℕ → PageInfo
  pub cache_count : ℕ
  pub cache_slots : ℕ
  pub access_counter : ℕ
  pub clock_hand : ℕ
  pub page_faults : ℕ
  pub evictions : ℕ
  pub mapped : ℕ → Bool
  pub table : ℕ → D

-- The handler ends, calls `exit`, or (on fuel) does not return.
pub data Fault (D : Type 0) : Type 0 where
  handled : Pager D → Fault D
  exits : Fault D
  out_of_fuel : Fault D

-- `align_down(x, a)`, `x & ~(a - 1)`, for a power of two `a`
abbrev pub align_down : ℕ → ℕ → ℕ
align_down x a = x - x % a

abbrev pub max_sqrts : ℕ
max_sqrts = 2 ^ 27

-- The scans for the least and the greatest `last_acc`: `k` entries are left, from `i` on, and
-- `victim` has the value `best`.
unfoldable pub scan_min : (ℕ → PageInfo) → ℕ → ℕ → ℕ → ℕ → ℕ
scan_min cache zero i best victim = victim
scan_min cache (suc k) i best victim =
    let smaller = ltb (cache i).last_acc best in
    scan_min cache k (suc i) (if smaller then (cache i).last_acc else best)
      (if smaller then i else victim)

unfoldable pub scan_max : (ℕ → PageInfo) → ℕ → ℕ → ℕ → ℕ → ℕ
scan_max cache zero i best victim = victim
scan_max cache (suc k) i best victim =
    let larger = ltb best (cache i).last_acc in
    scan_max cache k (suc i) (if larger then (cache i).last_acc else best)
      (if larger then i else victim)

-- What the clock search leaves: the victim, the hand and the cache.
pub data Search : Type 0 where
  hit : (victim hand : ℕ) → (ℕ → PageInfo) → Search
  still_searching : Search

-- `while (1)` of the clock policy, on fuel.
unfoldable pub clock_search : ℕ → ℕ → ℕ → (ℕ → PageInfo) → Search
clock_search zero slots hand cache = still_searching
clock_search (suc f) slots hand cache =
    let rest =
      clock_search f slots ((hand + 1) % slots)
        (update cache hand (record (cache hand) { access_bit = 0 })) in
    if (cache hand).access_bit == 0 then hit hand ((hand + 1) % slots) cache else rest

-- The new record of a slot that held `old`; the access bit is set under the clock policy only.
unfoldable pub entry : Policy → ℕ → ℕ → PageInfo → PageInfo
entry policy base now old = record {
  base = base;
  last_acc = now;
  insert_num = now;
  freq = 1;
  access_bit = elim policy [ lru ↦ old.access_bit | mru ↦ old.access_bit | clock ↦ 1 ];
}

-- The victim under each policy, `cache_slots + 1` rounds for the clock.
unfoldable pub choose : Policy → (ℕ → PageInfo) → ℕ → ℕ → Search
choose lru cache slots hand = hit (scan_min cache (slots - 1) 1 (cache 0).last_acc 0) hand cache
choose mru cache slots hand = hit (scan_max cache (slots - 1) 1 (cache 0).last_acc 0) hand cache
choose clock cache slots hand = clock_search (suc slots) slots hand cache

module _ {D : Type 0} where
  -- `calculate_sqrts`: `nr` doubles, of 8 bytes each, from the address `pos` on.
  unfoldable pub calculate_sqrts : (ℕ → D) → (ℕ → D) → ℕ → ℕ → ℕ → ℕ → D
  calculate_sqrts sqrt table pos start zero = table
  calculate_sqrts sqrt table pos start (suc nr) =
      calculate_sqrts sqrt (update table pos (sqrt start)) (pos + 8) (start + 1) nr

  -- The new record goes to slot `i`.
  unfoldable pub record_page : ℕ → ℕ → Pager D → Pager D
  record_page i page s =
      let now = s.access_counter + 1 in
      record s {
        cache = update s.cache i (entry s.policy page now (s.cache i));
        access_counter = now;
      }

  module _ (sqrt : ℕ → D) (mmap_ok munmap_ok : ℕ → Bool) where
    -- The last part of the handler: map the page and fill it.
    unfoldable pub map_page : ℕ → Pager D → Fault D
    map_page page s =
        if mmap_ok page
        then handled (record s {
          mapped = update s.mapped page true;
          table = calculate_sqrts sqrt s.table page ((page - s.sqrts) / 8) (s.page_size / 8);
        })
        else exits

    -- The full cache: unmap the victim's page and take its slot.
    unfoldable pub evict : ℕ → Pager D → Search → Fault D
    evict page s still_searching = out_of_fuel
    evict page s (hit victim hand cache) =
        if munmap_ok (cache victim).base
        then map_page page (
            record_page victim page (record s {
              cache = cache;
              clock_hand = hand;
              mapped = update s.mapped (cache victim).base false;
              evictions = s.evictions + 1;
            }))
        else exits

    unfoldable pub handle_sigsegv : ℕ → Pager D → Fault D
    handle_sigsegv fault_addr s =
        let page = align_down fault_addr s.page_size in
        let counted : Pager D = record s { page_faults = s.page_faults + 1 } in
        if ltb fault_addr s.sqrts || leb (s.sqrts + max_sqrts * 8) fault_addr
        then exits
        else if leb s.cache_slots s.cache_count
        then evict page counted (choose s.policy s.cache s.cache_slots s.clock_hand)
        else map_page page
            (record (record_page s.cache_count page counted) { cache_count = s.cache_count + 1 })
