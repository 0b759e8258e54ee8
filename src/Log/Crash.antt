-- ===== src/Log/Crash.antt =====
-- `commit` and `recover_from_log` are atomic: whenever the power fails, what recovery leaves in the
-- home blocks is what they held before the commit, or all of what the commit writes.
use team.Common.{
  ℕ, zero, suc, ◌+◌, ◌-◌, ◌≤◌, ◌<◌, ◌≡◌, refl, ◌≢◌, ap, sym, subst, ◌∙◌, false, ◌⊎◌, inl, inr,
  arith, ℕ_discrete, dec_lt, lt→ltb,
}
use team.Log.{Device, Log, install_trans, write_head, recover_from_log, write_log, commit}
use team.Log.Loops.{
  Outside, AllOutside, AllDistinct, WroteLog, write_log_loop-WroteLog, Installed,
  install_loop-Installed, install_loop-off,
}
use team.Log.Recover.{
  Lists, Ready, head-cache_ne, head-disk_ne, head-disk_off, head-disk_on, head-power, new_head,
  new_head-Lists, reboot, recover_from_log-Recovered, restart,
}

-- The disk when a commit that had power for `d.power` writes is over.
abbrev pub committed : Log → Device → Device
committed l d = (commit l d).1

-- The disk after that and a recovery with power for `p` writes.
abbrev pub recovered : Log → ℕ → Device → Device
recovered l p d = (recover_from_log (restart l) (reboot p (committed l d))).1

-- A disk whose header says that the log is empty is left as it is, but for the header.
recovered-empty :
    (l : Log) (p : ℕ) (d : Device)
    → d.disk l.start 0 ≡ 0
    → (b : ℕ) → b ≢ l.start
    → (recover_from_log (restart l) (reboot p d)).1.disk b ≡ d.disk b
recovered-empty l p d empty b ne =
    (recover_from_log-Recovered l p d (λ j h. absurd (omega arith))
        (λ i j h h' e. absurd (omega arith)) (omega arith)).kept
      b ne (λ j h. absurd (omega arith))

-- A disk whose header lists the logged blocks: they are copied from the log.
recovered-full :
    (l : Log) (p : ℕ) (d : Device)
    → AllOutside l l.n
    → AllDistinct l l.n
    → Lists l (d.disk l.start)
    → l.n ≤ p
    → let r = (recover_from_log (restart l) (reboot p d)).1 in
      ((b : ℕ) → b ≢ l.start → ((j : ℕ) → j < l.n → b ≢ l.block j) → r.disk b ≡ d.disk b)
      × ((j : ℕ) → j < l.n → r.disk (l.block j) ≡ d.disk (l.start + j + 1))
recovered-full l p d outside distinct (count, lists) enough =
    let below = λ (j : ℕ) (h : j < d.disk l.start 0). subst (λ n. j < n) count h in
    let r =
      recover_from_log-Recovered l p d
        (λ j h. rw (count, lists j (below j h)) (outside j (below j h)))
        (λ i j hi hj e.
          distinct i j (below i hi) (below j hj)
            (sym (lists i (below i hi)) ∙ e ∙ lists j (below j hj)))
        (omega arith) in
    (
      λ b ne other. r.kept b ne (λ j h. rw (lists j (below j h)) (other j (below j h))),
      λ j h. rw (lists j h) at (r.replayed j (omega arith)),
    )

-- Whether a block is among the first `n` logged ones.
logged_or_not :
    (n : ℕ) (block : ℕ → ℕ) (b : ℕ)
    → ((j : ℕ) × (j < n) × (b ≡ block j)) ⊎ ((j : ℕ) → j < n → b ≢ block j)
logged_or_not zero block b = inr (λ j h. absurd (omega arith))
logged_or_not (suc n) block b = elim (ℕ_discrete b (block n)) [
  | yes e ↦ inl (n, omega arith, e)
  | no ne ↦ elim (logged_or_not n block b) [
    | inl (j, h, e) ↦ inl (j, omega arith, e)
    | inr none_of ↦ inr (λ j h. elim (ℕ_discrete j n) [
      | yes same ↦ rw same ne
      | no other ↦ none_of j (omega arith)
    ])
  ]
]

module _ (l : Log) (d : Device) (ready : Ready l d) (some_block : 0 < l.n) where
  logged : Device
  logged = write_log l d

  wrote : WroteLog l l.n 0 d logged
  unfolding logged write_log
  wrote = write_log_loop-WroteLog l l.n l.n 0 d (omega arith) ready.outside

  headed : Device
  headed = write_head l logged

  installed : Device
  installed = install_trans false l headed

  committed-eq : committed l d ≡ write_head (record l { n = 0 }) installed
  unfolding commit installed headed logged
  committed-eq = rw (committed, lt→ltb 0 l.n some_block)

  -- The power fails before the header is written.
  early :
      d.power ≤ l.n → (b : ℕ) → Outside l l.n b ⊎ (b ≡ l.start) → (committed l d).disk b ≡ d.disk b
  unfolding installed headed install_trans
  early few b out =
      let off : logged.power ≡ 0 = omega (arith, wrote.power) in
      let off' : headed.power ≡ 0 = head-power l logged ∙ ap (λ k. k - 1) off in
      let quiet = install_loop-off false l l.n 0 headed off' in
      ap (λ x. x.disk b) committed-eq
      ∙ ap (λ x. x b) (head-disk_off (record l { n = 0 }) installed quiet.1)
      ∙ ap (λ x. x b) quiet.0
      ∙ ap (λ x. x b) (head-disk_off l logged off)
      ∙ wrote.disk_kept b (omega arith)

  module _ (power : l.n < d.power) where
    on : 0 < logged.power
    on = omega (arith, wrote.power)

    placed : Installed l l.n 0 headed installed
    unfolding installed install_trans
    placed =
        install_loop-Installed l l.n false l.n 0 headed (omega arith) ready.outside ready.distinct

    start_apart : (j : ℕ) → j < l.n → l.start ≢ l.block j
    start_apart j h e = absurd (omega (arith, ready.outside j h))

    head_kept : installed.disk l.start ≡ new_head l logged
    unfolding headed
    head_kept = placed.disk_kept l.start (λ j lo hi. start_apart j hi) ∙ head-disk_on l logged on

    -- A home block that is not logged holds on disk what the cache holds, throughout.
    other_kept :
        (b : ℕ)
        → Outside l l.n b
        → ((j : ℕ) → j < l.n → b ≢ l.block j)
        → installed.disk b ≡ d.cache b
    unfolding headed
    other_kept b out other =
        placed.disk_kept b (λ j lo hi. other j hi)
        ∙ head-disk_ne l logged b (omega arith)
        ∙ wrote.disk_kept b (omega arith)
        ∙ sym (ready.clean b out other)

    -- The log on disk holds what the commit writes.
    log_kept : (j : ℕ) → j < l.n → installed.disk (l.start + j + 1) ≡ d.cache (l.block j)
    unfolding headed
    log_kept j h =
        placed.disk_kept (l.start + j + 1) (λ i lo hi e. absurd (omega (arith, ready.outside i hi)))
        ∙ head-disk_ne l logged (l.start + j + 1) (omega arith)
        ∙ wrote.copied j (omega arith) h (omega arith)

    -- The power fails after the header is written and before it is cleared.
    late_off :
        (p : ℕ)
        → l.n ≤ p
        → installed.power ≡ 0
        → (b : ℕ) → Outside l l.n b
        → (recovered l p d).disk b ≡ d.cache b
    late_off p enough off b out = elim (logged_or_not l.n l.block b) [
      | inl (j, h, e) ↦ rw e (full.1 j h ∙ ap (λ x. x (l.start + j + 1)) same ∙ log_kept j h)
      | inr other ↦ full.0 b (omega arith) other ∙ ap (λ x. x b) same ∙ other_kept b out other
    ]
      where
        same : (committed l d).disk ≡ installed.disk
        same =
            ap (λ (x : Device). x.disk) committed-eq
            ∙ head-disk_off (record l { n = 0 }) installed off

        full :
            ((b : ℕ)
              → b ≢ l.start
              → ((j : ℕ) → j < l.n → b ≢ l.block j)
              → (recovered l p d).disk b ≡ (committed l d).disk b)
            × ((j : ℕ)
                → j < l.n
                → (recovered l p d).disk (l.block j) ≡ (committed l d).disk (l.start + j + 1))
        full =
            recovered-full l p (committed l d) ready.outside ready.distinct
              (subst (Lists l) (sym (ap (λ x. x l.start) same ∙ head_kept))
                (new_head-Lists l logged))
              enough

    -- The power lasts.
    late_on :
        (p : ℕ)
        → 0 < installed.power
        → (b : ℕ) → Outside l l.n b
        → (recovered l p d).disk b ≡ d.cache b
    unfolding headed
    late_on p last b out =
        recovered-empty l p (committed l d) cleared b (omega arith)
        ∙ ap (λ x. x.disk b) committed-eq
        ∙ head-disk_ne (record l { n = 0 }) installed b (omega arith)
        ∙ home
      where
        cleared : (committed l d).disk l.start 0 ≡ 0
        cleared =
            ap (λ x. x.disk l.start 0) committed-eq
            ∙ ap (λ x. x 0) (head-disk_on (record l { n = 0 }) installed last)
            ∙ (new_head-Lists (record l { n = 0 }) installed).0

        home : installed.disk b ≡ d.cache b
        home = elim (logged_or_not l.n l.block b) [
          | inl (j, h, e) ↦ rw e (
              placed.installed j (omega arith) h (omega (arith, placed.power))
              ∙ head-cache_ne l logged (l.start + j + 1) (omega arith)
              ∙ wrote.cached j (omega arith) h)
          | inr other ↦ other_kept b out other
        ]

committed-idle : (l : Log) (d : Device) → l.n ≡ 0 → committed l d ≡ d
unfolding commit
committed-idle l d none_logged = ground arith

-- A commit that is cut short after any number of writes is atomic once the log is recovered with
-- power enough to replay it. If the commit had power for at most as many writes as there are logged
-- blocks, its header did not reach the disk, and every block outside the log holds what it held on
-- disk before the commit; if it had more, every such block holds what the cache held.
pub commit_atomic :
    (l : Log) (d : Device) (p : ℕ)
    → Ready l d
    → l.n ≤ p
    → (b : ℕ) → Outside l l.n b
    → (d.power ≤ l.n → (recovered l p d).disk b ≡ d.disk b)
      × (l.n < d.power → (recovered l p d).disk b ≡ d.cache b)
commit_atomic l d p ready enough b out = elim (dec_lt 0 l.n) [
  | yes some_block ↦ (
    λ few.
        recovered-empty l p (committed l d)
          (ap (λ x. x 0) (early l d ready some_block few l.start (inr refl)) ∙ ready.empty) b
          (omega arith)
        ∙ early l d ready some_block few b (inl out),
    λ power. elim (dec_lt 0 (installed l d ready some_block).power) [
      | yes last ↦ late_on l d ready some_block power p last b out
      | no off ↦ late_off l d ready some_block power p enough (omega arith) b out
    ],
  )
  | no none_logged ↦
      let idle : committed l d ≡ d = committed-idle l d (omega arith) in
      let same : (recovered l p d).disk b ≡ d.disk b =
        ap (λ x. (recover_from_log (restart l) (reboot p x)).1.disk b) idle
        ∙ recovered-empty l p d ready.empty b (omega arith) in
      (λ few. same, λ power. same ∙ sym (ready.clean b out (λ j h. absurd (omega arith))))
]
