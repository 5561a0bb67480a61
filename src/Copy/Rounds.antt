-- ===== src/Copy/Rounds.antt =====
-- `copyFromPodWithRetry` of copy.go against the sequence of attempts.
use kubejob.Prelude.{
  ℕ, zero, suc, ◌<◌, ◌≡◌, refl, ap, String, Bool, true, false, Option, none, some, ◌⊎◌, inl, inr,
  Bool-cases, if-elim, arith,
}
use kubejob.Errors.{Err}
use kubejob.Cluster.{Cluster}
use kubejob.Logs.{Logger, LogLevel}
use kubejob.Os.{Os}
use kubejob.Executor.{JobExecutor}
use kubejob.Copy.{
  Copier, Printers, copy_from_pod_once, after_attempt, removed, copy_loop, copy_from_pod_with_retry,
  copy_retry_count, is_retryable_error,
}

module _ {W : Type 0} (k : Cluster W) (os : Os W) (copier : Copier W) (p : Printers)
    (level : LogLevel) (logger : Option (Logger W)) (e : JobExecutor)
    (src_path dst_path : String) where
  abbrev once : W → Option Err × W
  once w = copy_from_pod_once k os copier p e src_path dst_path w

  -- Whether there is another round after an attempt in this world, and the world behind.
  abbrev behind : ℕ → W → Bool × W
  behind retry_count w =
      after_attempt k os copier p level logger e dst_path retry_count (once w).0 (once w).1

  -- The world in which attempt number `n` starts, and whether the loop goes on behind it.
  pub world_at : ℕ → ℕ → W → W
  world_at retry_count zero w = w
  world_at retry_count (suc n) w = world_at (suc retry_count) n (behind retry_count w).1

  pub goes_on : ℕ → ℕ → W → Bool
  goes_on retry_count zero w = (behind retry_count w).0
  goes_on retry_count (suc n) w = goes_on (suc retry_count) n (behind retry_count w).1

  abbrev pub attempt_at : ℕ → ℕ → W → Option Err × W
  attempt_at retry_count n w = once (world_at retry_count n w)

  -- The attempt failed with an error worth a retry, and what it left at the destination is removed.
  abbrev pub IsCleared : Option Err × W → Type 0
  IsCleared (x, w) = (is_retryable_error p x ≡ true) × ((os.remove_all dst_path w).0 ≡ none)

  -- Result `r` is that of attempt number `n` of at most `rounds`; each attempt before it is cleared,
  -- and behind it the loop ended, or it was the last one granted.
  pub record IsCopyAttempt (retry_count rounds : ℕ) (w : W) (r : Option Err) (n : ℕ) : Type 0 where
    pub granted : n < rounds
    pub taken : r ≡ (attempt_at retry_count n w).0
    pub earlier : (i : ℕ) → i < n → IsCleared (attempt_at retry_count i w)
    pub ended : (goes_on retry_count n w ≡ false) ⊎ (suc n ≡ rounds)

  removed-goes_on :
      (retry_count : ℕ) (x : Option Err) (r : Option Err × W)
      → (removed k os copier p level logger e x retry_count r).0 ≡ true
      → r.0 ≡ none
  unfolding removed
  removed-goes_on retry_count x (none, w) h = refl
  removed-goes_on retry_count x (some y, w) h = absurd (cc h)

  behind-IsCleared :
      (retry_count : ℕ) (w : W) → (behind retry_count w).0 ≡ true → IsCleared (once w)
  unfolding after_attempt
  behind-IsCleared retry_count w =
      let (x, w') = once w in
      if-elim (λ (r : Bool × W). r.0 ≡ true → IsCleared (once w)) (is_retryable_error p x) _ _
        (λ retryable h. (retryable, removed-goes_on retry_count x (os.remove_all dst_path w') h))
        (λ final h. absurd (cc h))

  loop_again :
      (rounds retry_count : ℕ) (last : Option Err) (w : W)
      → (behind retry_count w).0 ≡ true
      → copy_loop k os copier p level logger e src_path dst_path (suc rounds) retry_count last w
        ≡ copy_loop k os copier p level logger e src_path dst_path rounds
            (suc retry_count)
            (once w).0
            (behind retry_count w).1
  unfolding copy_loop
  loop_again rounds retry_count last w h = rw (h, copy_loop)

  loop_ends :
      (rounds retry_count : ℕ) (last : Option Err) (w : W)
      → (behind retry_count w).0 ≡ false
      → (copy_loop k os copier p level logger e src_path dst_path (suc rounds) retry_count last w).0
        ≡ (once w).0
  unfolding copy_loop
  loop_ends rounds retry_count last w h = rw (h, copy_loop)

  first-IsCopyAttempt :
      (rounds retry_count : ℕ) (w : W) (r : Option Err)
      → r ≡ (once w).0
      → ((behind retry_count w).0 ≡ false) ⊎ (1 ≡ rounds)
      → 0 < rounds
      → IsCopyAttempt retry_count rounds w r 0
  unfolding world_at goes_on
  first-IsCopyAttempt rounds retry_count w r taken ended h = record {
    granted = h;
    taken = taken;
    earlier = λ i l. absurd (omega arith);
    ended = ended;
  }

  one_more :
      (rounds retry_count : ℕ) (w : W) (r : Option Err) (n : ℕ)
      → (behind retry_count w).0 ≡ true
      → IsCopyAttempt (suc retry_count) rounds (behind retry_count w).1 r n
      → IsCopyAttempt retry_count (suc rounds) w r (suc n)
  unfolding world_at goes_on
  one_more rounds retry_count w r n again a = record {
    granted = omega (arith, a.granted);
    taken = a.taken;
    earlier = earlier;
    ended = ended a.ended;
  }
    where
      earlier : (i : ℕ) → i < suc n → IsCleared (attempt_at retry_count i w)
      earlier zero h = behind-IsCleared retry_count w again
      earlier (suc i) h = a.earlier i (omega arith)

      ended :
          (goes_on (suc retry_count) n (behind retry_count w).1 ≡ false) ⊎ (suc n ≡ rounds)
          → (goes_on retry_count (suc n) w ≡ false) ⊎ (suc (suc n) ≡ suc rounds)
      ended (inl x) = inl x
      ended (inr x) = inr (omega arith)

  copy_loop-IsCopyAttempt :
      (rounds retry_count : ℕ) (last : Option Err) (w : W)
      → (n : ℕ) × IsCopyAttempt retry_count
          (suc rounds)
          w
          (copy_loop k os copier p level logger e src_path dst_path
            (suc rounds)
            retry_count
            last
            w).0
          n
  unfolding copy_loop
  copy_loop-IsCopyAttempt zero retry_count last w = elim (Bool-cases (behind retry_count w).0) [
    | inl again ↦ (
      0,
      first-IsCopyAttempt 1 retry_count w _ (ap (λ r. r.0) (loop_again 0 retry_count last w again))
          (inr refl) (omega arith),
    )
    | inr over ↦ (
      0,
      first-IsCopyAttempt 1 retry_count w _ (loop_ends 0 retry_count last w over) (inl over)
          (omega arith),
    )
  ]
  copy_loop-IsCopyAttempt (suc rounds) retry_count last w =
      elim (Bool-cases (behind retry_count w).0) [
        | inl again ↦
            let (n, rest) =
              copy_loop-IsCopyAttempt rounds (suc retry_count) (once w).0
                (behind retry_count w).1 in
            (
              suc n,
              rw (loop_again (suc rounds) retry_count last w again)
                  (one_more (suc rounds) retry_count w _ n again rest),
            )
        | inr over ↦ (
          0,
          first-IsCopyAttempt (suc (suc rounds)) retry_count w _
              (loop_ends (suc rounds) retry_count last w over) (inl over) (omega arith),
        )
      ]

  -- When the policy grants at least one round, the error of `copyFromPodWithRetry`, or its success, is
  -- that of one attempt, at most the last one granted. Each attempt before it failed with an error that
  -- is worth a retry, and what it had left at the destination was removed before the next one. The
  -- loop ended behind the attempt, or no round was left.
  pub copy_from_pod_with_retry-IsCopyAttempt :
      (rounds : ℕ) (w w' : W)
      → k.start_backoff copy_retry_count w ≡ (suc rounds, w')
      → (n : ℕ) × IsCopyAttempt 0
          (suc rounds)
          w'
          (copy_from_pod_with_retry k os copier p level logger e src_path dst_path w).0
          n
  unfolding copy_from_pod_with_retry
  copy_from_pod_with_retry-IsCopyAttempt rounds w w' start =
      rw start (copy_loop-IsCopyAttempt rounds 0 none w')
