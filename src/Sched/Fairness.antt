-- ===== src/Sched/Fairness.antt =====
-- How the lottery shares the tickets out: each runnable process owns as many as it has.
use Prim.Native.Nat.{zero-le}
use native.Mathlib.Nat.{add-zero, zero-add, add-suc, sub-zero}
use team.Common.{
  ℕ, zero, suc, ◌+◌, ◌-◌, ◌<◌, ◌≡◌, refl, ap, ◌∙◌, Bool, true, false, Option, none, some, List, [],
  ◌∷◌, ◌==◌, inl, inr, arith, if◌then◌else◌, length, Bool-cases, ge→ltb-false,
}
use team.Proc.{Proc, Machine, is_runnable}
use team.Sched.{Cpu, Round, count_tickets, pick_loop}
use team.Sched.Lottery.{weight, tickets_of, owner, first, count_tickets-eq, pick_loop-owner}

abbrev pub is_owner : ℕ → Option ℕ → Bool
is_owner j none = false
is_owner j (some i) = i == j

-- The number of `w < n` for which `test w` holds.
unfoldable pub count_below : ℕ → (ℕ → Bool) → ℕ
count_below zero test = 0
count_below (suc n) test = count_below n test + (if test n then 1 else 0)

-- Of the tickets numbered from 0, how many process `j` owns.
unfoldable pub owned_by : ℕ → List Proc → ℕ
unfolding count_below tickets_of
owned_by j ps = count_below (tickets_of ps) (λ w. is_owner j (owner w 0 ps))

count_below-ext :
    (n : ℕ) (f g : ℕ → Bool) → ((w : ℕ) → w < n → f w ≡ g w) → count_below n f ≡ count_below n g
unfolding count_below
count_below-ext zero f g h = refl
count_below-ext (suc n) f g h =
    ground (arith, count_below-ext n f g (λ w lt. h w (omega arith)), h n (omega arith))

count_below-add :
    (a b : ℕ) (f : ℕ → Bool)
    → count_below (a + b) f ≡ count_below a f + count_below b (λ w. f (a + w))
unfolding count_below
count_below-add a zero f = simp add-zero
count_below-add a (suc b) f = rw add-suc (omega (arith, count_below-add a b f))

count_below-true : (n : ℕ) → count_below n (λ _. true) ≡ n
unfolding count_below
count_below-true zero = refl
count_below-true (suc n) = omega (arith, count_below-true n)

count_below-false : (n : ℕ) → count_below n (λ _. false) ≡ 0
unfolding count_below
count_below-false zero = refl
count_below-false (suc n) = omega (arith, count_below-false n)

-- The tickets of the process at `j`, 0 outside the table.
unfoldable pub tickets_at : List Proc → ℕ → ℕ
tickets_at [] j = 0
tickets_at (p ∷ ps) zero = weight p
tickets_at (p ∷ ps) (suc j) = tickets_at ps j

owner-ge : (k w i : ℕ) (ps : List Proc) → k < i → is_owner k (owner w i ps) ≡ false
unfolding owner
owner-ge k w i [] h = refl
owner-ge k w i (p ∷ ps) h = ground (arith, owner-ge k (w - weight p) (suc i) ps)

owner-own : (w i : ℕ) (p : Proc) (ps : List Proc) → w < weight p → owner w i (p ∷ ps) ≡ some i
unfolding owner
owner-own w i p ps h = ground arith

owner-rest :
    (w i : ℕ) (p : Proc) (ps : List Proc) → owner (weight p + w) i (p ∷ ps) ≡ owner w (suc i) ps
unfolding owner
owner-rest w i p ps = elim (Bool-cases (is_runnable p.state)) [
  | inl e ↦ rw e (
      rw (ge→ltb-false (p.tickets + w) p.tickets (omega arith))
        (ap (λ k. owner k (suc i) ps) (omega arith)))
  | inr e ↦ rw e (ap (λ k. owner k (suc i) ps) (omega arith))
]

abbrev own_share : ℕ → ℕ → ℕ
own_share zero n = n
own_share (suc j) n = 0

own-part :
    (i j : ℕ) (p : Proc) (ps : List Proc)
    → count_below (weight p) (λ w. is_owner (i + j) (owner w i (p ∷ ps))) ≡ own_share j (weight p)
own-part i zero p ps =
    count_below-ext (weight p) _ (λ _. true) (λ w lt. rw (owner-own w i p ps lt) (ground arith))
    ∙ count_below-true (weight p)
own-part i (suc j) p ps =
    count_below-ext (weight p) _ (λ _. false) (λ w lt. rw (owner-own w i p ps lt) (ground arith))
    ∙ count_below-false (weight p)

rest-part :
    (i k : ℕ) (p : Proc) (ps : List Proc)
    → count_below (tickets_of ps) (λ w. is_owner k (owner (weight p + w) i (p ∷ ps)))
      ≡ count_below (tickets_of ps) (λ w. is_owner k (owner w (suc i) ps))
rest-part i k p ps =
    count_below-ext (tickets_of ps) _ _ (λ w lt. ap (is_owner k) (owner-rest w i p ps))

none_before :
    (i k : ℕ) (ps : List Proc)
    → k < i
    → count_below (tickets_of ps) (λ w. is_owner k (owner w i ps)) ≡ 0
none_before i k ps h =
    count_below-ext (tickets_of ps) _ (λ _. false) (λ w lt. owner-ge k w i ps h)
    ∙ count_below-false (tickets_of ps)

owned_from :
    (i j : ℕ) (ps : List Proc)
    → count_below (tickets_of ps) (λ w. is_owner (i + j) (owner w i ps)) ≡ tickets_at ps j
unfolding tickets_of tickets_at owner
owned_from i j [] = count_below-false 0
owned_from i zero (p ∷ ps) =
    rw (count_below-add (weight p) (tickets_of ps) _, own-part i zero p ps)
      (omega (arith, rest-part i (i + 0) p ps, none_before (suc i) (i + 0) ps (omega arith)))
owned_from i (suc j) (p ∷ ps) =
    rw (count_below-add (weight p) (tickets_of ps) _, own-part i (suc j) p ps)
      (zero-add _ ∙ rest-part i (i + suc j) p ps ∙ rw (shift) (owned_from (suc i) j ps))
  where
    shift : i + suc j ≡ suc i + j
    shift = omega arith

owned_by_lem : (j : ℕ) (ps : List Proc) → owned_by j ps ≡ tickets_at ps j
unfolding owned_by
owned_by_lem j ps = rw zero-add at (owned_from 0 j ps)

-- The second scan from its start, in a machine and on a CPU.
abbrev pub start : Machine → Cpu → Round
start m c = record { machine = m; cpu = c; current_ticket = 0; found = false; dispatched = [] }

-- Of the ticket numbers below the total that the first scan counts, those that make the second scan
-- switch to process `j` first are as many as `j` holds if it is runnable, and none otherwise.
pub lottery_fair :
    (swtch : ℕ → Machine → Machine) (m : Machine) (c : Cpu) (j : ℕ)
    → count_below
        (count_tickets 0 m.procs)
        (λ w. is_owner j (first (pick_loop swtch w (length m.procs) 0 (start m c)).dispatched))
      ≡ tickets_at m.procs j
unfolding owned_by
lottery_fair swtch m c j =
    rw (count_tickets-eq 0 m.procs, zero-add)
      (count_below-ext (tickets_of m.procs) _ _ (λ w lt. ap (is_owner j) (
          rw sub-zero at
            (pick_loop-owner swtch w m.procs 0 (start m c) refl zero-le (λ k. rw zero-add refl))))
        ∙ owned_by_lem j m.procs)
