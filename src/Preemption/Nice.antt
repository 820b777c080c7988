-- ===== src/Preemption/Nice.antt =====
-- `thread_set_nice`: the nice value in its range, and the priority that follows from it.
use os_pintos.Base.{◌⊎◌, inl, inr, Bool-cases, ◌≤◌, ◌≡◌, ◌≢◌, arith, [], ◌∷◌}
use os_pintos.Base.Int.{ℤ, pos, negsuc, ◌<ℤ◌, ltb_ℤ, IsInt32, pos_part, neg_part}
use os_pintos.Platform.{Platform}
use os_pintos.Kernel.{Kernel, ok, set_thread, update-update}
use os_pintos.Call.{Call}
use os_pintos.Mlfqs.Priority.{into_range, ideal_priority, mlfqs_update_priority_lem}
use os_pintos.Mlfqs.Queues.{IsCurrent}
use os_pintos.Preemption.{clamp_nice, thread_set_nice}

clamp_nice_bounds : (n : ℤ) → (neg_part (clamp_nice n) ≤ 20) × (pos_part (clamp_nice n) ≤ 20)
clamp_nice_bounds n = (ground arith, ground arith)

-- A value that is out of range gives way to the bound that it passes.
abbrev pub Nearest : (n m : ℤ) → Type 0
Nearest n m = (m ≡ n) ⊎ ((n <ℤ negsuc 19) × (m ≡ negsuc 19)) ⊎ ((pos 20 <ℤ n) × (m ≡ pos 20))

clamp_nice-Nearest : (n : ℤ) → Nearest n (clamp_nice n)
clamp_nice-Nearest n = elim (Bool-cases (ltb_ℤ (pos 20) n)) [
  | inl above ↦ inr (inr (ground arith, ground arith))
  | inr low ↦ elim (Bool-cases (ltb_ℤ n (negsuc 19))) [
    | inl below ↦ inr (inl (ground arith, ground arith))
    | inr inside ↦ inl (ground arith)
  ]
]

module _ ⦃os : Platform⦄ where
  -- The running thread, other than the idle thread, sets any nice value: the value kept is from -20 to
  -- 20, the given one or the bound that it passes; its priority becomes the one that the formula gives
  -- for the new value, nothing else changes, and a check for preemption is what is left to do.
  pub thread_set_nice_lem :
      (n : ℤ) (k : Kernel)
      → IsCurrent k
      → k.current ≢ k.idle_thread
      → IsInt32 (k.threads k.current).recent_cpu
      → (m : ℤ) × (let p = into_range (ideal_priority (k.threads k.current).recent_cpu m) in
          thread_set_nice n k
          ≡ ok
              (Call.mlfqs_check_preemption ∷ [])
              (set_thread k.current (record (k.threads k.current) { nice = m; priority = p }) k))
        × ((neg_part m ≤ 20) × (pos_part m ≤ 20))
        × Nearest n m
  unfolding thread_set_nice
  thread_set_nice_lem n k cur other h =
      let s = k.threads in
      let m = clamp_nice n in
      let nicer = record (s k.current) { nice = m } in
      let p = into_range (ideal_priority (s k.current).recent_cpu m) in
      (
        m,
        ground (
          arith,
          mlfqs_update_priority_lem k.current (set_thread k.current nicer k),
          clamp_nice_bounds n,
          update-update s k.current nicer (record nicer { priority = p }),
        ),
        clamp_nice_bounds n,
        clamp_nice-Nearest n,
      )
