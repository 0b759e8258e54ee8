-- ===== src/Log/Space.antt =====
-- `begin_op` admits an operation only where a log of LOGSIZE blocks has room for what every operation
-- may still write.
use team.Common.{
  ℕ, suc, ◌+◌, ◌-◌, ◌*◌, ◌%◌, ◌^◌, ◌≤◌, ◌<◌, ◌≡◌, refl, ◌↔◌, ap, subst, ◌∙◌, true, false, arith,
  List, [], ◌∷◌, ◌++◌, length, length-append,
}
use team.Common.Outcome.{done, panic}
use team.Log.{Device, Log, maxopblocks, logsize, begin_op, admitted, end_op, commit, log_write}

-- A running log, with the number of blocks that each operation in progress may still write. The
-- code does not count them: file-system calls write at most MAXOPBLOCKS blocks.
pub record System : Type 0 where
  pub log : Log
  pub device : Device
  pub budgets : List ℕ

unfoldable pub sum : List ℕ → ℕ
sum [] = 0
sum (x ∷ xs) = x + sum xs

-- What operations in progress do.
pub data Step : System → System → Type 0 where
  begin :
      {s : System} {l : Log}
      → begin_op s.log ≡ admitted l
      → Step s (record s { log = l; budgets = maxopblocks ∷ s.budgets })
  write :
      {s : System} {l : Log} {d : Device} (b left : ℕ) (before behind : List ℕ)
      → s.budgets ≡ before ++ suc left ∷ behind
      → log_write b s.log s.device ≡ done (l, d)
      → Step s (record { log = l; device = d; budgets = before ++ left ∷ behind })
  end :
      {s : System} {l : Log} {d : Device} (left : ℕ) (before behind : List ℕ)
      → s.budgets ≡ before ++ left ∷ behind
      → end_op s.log s.device ≡ done (l, d)
      → Step s (record { log = l; device = d; budgets = before ++ behind })

pub data Reach (s : System) : System → Type 0 where
  here : Reach s s
  next : {t u : System} → Reach s t → Step t u → Reach s u

-- Every budget is at most MAXOPBLOCKS.
abbrev pub Within : List ℕ → Type 0
Within [] = Unit
Within (x ∷ xs) = (x ≤ maxopblocks) × Within xs

pub record HasRoom (s : System) : Type 0 where
  pub counted : s.log.outstanding ≡ length s.budgets
  pub room : s.log.n + sum s.budgets ≤ logsize
  pub each : Within s.budgets
  pub few : length s.budgets ≤ 3
  pub idle : s.log.committing ≡ false

sum-append : (xs ys : List ℕ) → sum (xs ++ ys) ≡ sum xs + sum ys
unfolding sum
sum-append [] ys = omega arith
sum-append (x ∷ xs) ys = omega (arith, sum-append xs ys)

sum-Within : (xs : List ℕ) → Within xs → sum xs ≤ length xs * maxopblocks
unfolding sum
sum-Within [] w = omega arith
sum-Within (x ∷ xs) (le, w) = omega (arith, sum-Within xs w)

Within-spend : (left : ℕ) (xs ys : List ℕ) → Within (xs ++ suc left ∷ ys) → Within (xs ++ left ∷ ys)
Within-spend left [] ys (le, w) = (omega arith, w)
Within-spend left (x ∷ xs) ys (le, w) = (le, Within-spend left xs ys w)

Within-remove : (left : ℕ) (xs ys : List ℕ) → Within (xs ++ left ∷ ys) → Within (xs ++ ys)
Within-remove left [] ys (le, w) = w
Within-remove left (x ∷ xs) ys (le, w) = (le, Within-remove left xs ys w)

-- The fields of the log after `log_write` and `end_op`.
log_write-fields :
    (b : ℕ) (l l' : Log) (d d' : Device)
    → log_write b l d ≡ done (l', d')
    → (l'.n ≤ l.n + 1)
      × (l'.outstanding ≡ l.outstanding)
      × (l'.committing ≡ l.committing)
      × (l'.size ≡ l.size)
unfolding log_write
log_write-fields b l l' d d' h = ground arith

commit-fields :
    (l : Log) (d : Device)
    → let (l', d') = commit l d in
      (l'.n ≡ 0) × (l'.outstanding ≡ l.outstanding) × (l'.size ≡ l.size)
unfolding commit
commit-fields l d = ground arith

end_op-fields :
    (l l' : Log) (d d' : Device)
    → end_op l d ≡ done (l', d')
    → l.outstanding < 2 ^ 31
    → 0 < l.outstanding
    → (l'.n ≤ l.n)
      × (l'.outstanding ≡ l.outstanding - 1)
      × (l'.committing ≡ false)
      × (l'.size ≡ l.size)
unfolding end_op
end_op-fields l l' d d' h small pos = ground (
  arith,
  commit-fields
      (record l { outstanding = (l.outstanding + 2 ^ 32 - 1) % 2 ^ 32; committing = true }) d,
)

begin_op-fields :
    (l l' : Log)
    → begin_op l ≡ admitted l'
    → (l'.n ≡ l.n)
      × (l'.outstanding ≡ l.outstanding + 1)
      × (l'.committing ≡ false)
      × (l'.size ≡ l.size)
      × (l.n + (l.outstanding + 1) * maxopblocks ≤ logsize)
unfolding begin_op
begin_op-fields l l' h = ground arith

-- Every step keeps room for what the operations in progress may still write.
pub Step-HasRoom : {s t : System} → Step s t → HasRoom s → HasRoom t
unfolding sum
Step-HasRoom (begin {s} {l} e) r =
    let f = begin_op-fields s.log l e in
    record {
      counted = omega (arith, f, r.counted);
      room = omega (arith, f, r.room, sum-Within s.budgets r.each, r.counted);
      each = (omega arith, r.each);
      few = omega (arith, f, r.counted);
      idle = f.2;
    }
Step-HasRoom (write {s} {l} {d} b left before behind e h) r =
    let f = log_write-fields b s.log l s.device d h in
    let lens = ap length e in
    let sums = ap sum e in
    record {
      counted = omega (
        arith,
        f,
        r.counted,
        lens,
        length-append before (suc left ∷ behind),
        length-append before (left ∷ behind),
      );
      room = omega (
        arith,
        f,
        r.room,
        sums,
        sum-append before (suc left ∷ behind),
        sum-append before (left ∷ behind),
      );
      each = Within-spend left before behind (subst Within e r.each);
      few = omega (
        arith,
        r.few,
        lens,
        length-append before (suc left ∷ behind),
        length-append before (left ∷ behind),
      );
      idle = f.2 ∙ r.idle;
    }
Step-HasRoom (end {s} {l} {d} left before behind e h) r =
    let lens = ap length e in
    let sums = ap sum e in
    let f =
      end_op-fields s.log l s.device d h (omega (arith, r.counted, r.few))
        (omega (arith, r.counted, lens, length-append before (left ∷ behind))) in
    record {
      counted = omega (
        arith,
        f,
        r.counted,
        lens,
        length-append before (left ∷ behind),
        length-append before behind,
      );
      room =
          omega
            (arith, f, r.room, sums, sum-append before (left ∷ behind), sum-append before behind);
      each = Within-remove left before behind (subst Within e r.each);
      few =
          omega
            (arith, r.few, lens, length-append before (left ∷ behind), length-append before behind);
      idle = f.2;
    }

pub Reach-HasRoom : {s t : System} → HasRoom s → Reach s t → HasRoom t
Reach-HasRoom room here = room
Reach-HasRoom room (next r st) = Step-HasRoom st (Reach-HasRoom room r)

end_op-size : (l l' : Log) (d d' : Device) → end_op l d ≡ done (l', d') → l'.size ≡ l.size
unfolding end_op
end_op-size l l' d d' h = ground (
  arith,
  commit-fields
      (record l { outstanding = (l.outstanding + 2 ^ 32 - 1) % 2 ^ 32; committing = true }) d,
)

Reach-size : {s t : System} → Reach s t → t.log.size ≡ s.log.size
Reach-size here = refl
Reach-size (next r (begin {s} {l} e)) = omega (arith, begin_op-fields s.log l e, Reach-size r)
Reach-size (next r (write {s} {l} {d} b left before behind e h)) =
    omega (arith, log_write-fields b s.log l s.device d h, Reach-size r)
Reach-size (next r (end {s} {l} {d} left before behind e h)) =
    omega (arith, end_op-size s.log l s.device d h, Reach-size r)

-- In every state that file-system calls reach from one with room, for a call in progress that has
-- written fewer than MAXOPBLOCKS blocks: the log holds fewer than LOGSIZE blocks, its size is what it
-- was, and one more `log_write` panics exactly when the log holds all but one of `log.size` blocks. So
-- it does not panic when `log.size` is above LOGSIZE; with LOGSIZE itself, which mkfs.c writes, it
-- panics when 29 blocks are logged.
pub log_write-panics :
    {s t : System} (b left : ℕ) (before behind : List ℕ)
    → HasRoom s
    → Reach s t
    → t.budgets ≡ before ++ suc left ∷ behind
    → (t.log.n < logsize)
      × (t.log.size ≡ s.log.size)
      × ((log_write b t.log t.device ≡ panic) ↔ (t.log.size ≤ t.log.n + 1))
unfolding log_write sum
log_write-panics {s} {t} b left before behind room r e =
    let h = Reach-HasRoom room r in
    let less : t.log.n < logsize =
      omega (arith, h.room, ap sum e, sum-append before (suc left ∷ behind)) in
    let running : 0 < t.log.outstanding =
      omega (arith, h.counted, ap length e, length-append before (suc left ∷ behind)) in
    let few : t.log.outstanding ≤ 3 = omega (arith, h.counted, h.few) in
    (less, Reach-size r, ((λ p. ground (arith, p)), λ full. ground arith))
