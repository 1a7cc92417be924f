-- ===== src/Checkpoint/Loop.antt =====
-- Start and Stop of internal/checkpoint/scheduler.go, with the goroutine that Start begins: the steps
-- of one scheduler, in any order. `done` is an unbuffered channel: a sender waits for a receiver.
use pkd_server_go.Prelude.{
  ℕ, zero, suc, ◌+◌, ◌≤◌, ◌<◌, String, ◌≡◌, ◌≢◌, refl, Bool, true, false, Option, some, none, arith,
  ◌==◌, ℕ-cases, inl, inr, if◌then◌else◌,
}

-- time.ParseDuration: the nanoseconds of a duration that is not negative, and 0 for one that is.
abbrev pub ParseDuration : Type 0
ParseDuration = String → Option ℕ

-- What Start does: it returns early, starts the loop, or panics, as NewTicker does where the
-- duration is not positive.
pub data Started : Type 0 where
  skipped looping panics : Started

abbrev ticked : Option ℕ → Started
ticked none = skipped
ticked (some zero) = panics
ticked (some (suc n)) = looping

unfoldable pub start : ParseDuration → String → Started
start parse interval = if interval == "" then skipped else ticked (parse interval)

-- The scheduler: whether its ticker runs, the goroutines at the select and in triggerCheckpoint, the
-- calls of Stop that wait at the channel, and those that have returned.
pub record Scheduler : Type 0 where
  pub ticker : Bool
  pub starts : ℕ
  pub selecting : ℕ
  pub triggering : ℕ
  pub waiting : ℕ
  pub returned : ℕ

abbrev pub new_scheduler : Scheduler
new_scheduler = record {
  ticker = false;
  starts = 0;
  selecting = 0;
  triggering = 0;
  waiting = 0;
  returned = 0;
}

module _ (parse : ParseDuration) (interval : String) where
  pub data Step (s : Scheduler) : Scheduler → Type 0 where
    starts :
        start parse interval ≡ looping
        → Step s (record s { ticker = true; starts = suc s.starts; selecting = suc s.selecting })
    start_skipped : start parse interval ≡ skipped → Step s s
    -- case <-s.ticker.C
    ticks :
        {n : ℕ}
        → s.ticker ≡ true
        → s.selecting ≡ suc n
        → Step s (record s { selecting = n; triggering = suc s.triggering })
    triggered :
        {n : ℕ}
        → s.triggering ≡ suc n
        → Step s (record s { triggering = n; selecting = suc s.selecting })
    -- Stop, up to `s.done <- true`
    stops : Step s (record s { ticker = false; waiting = suc s.waiting })
    -- `s.done <- true` meets `case <-s.done`: both calls go on, and the goroutine ends.
    meets :
        {n m : ℕ}
        → s.waiting ≡ suc n
        → s.selecting ≡ suc m
        → Step s (record s { waiting = n; selecting = m; returned = suc s.returned })

  pub data Reach : Scheduler → Scheduler → Type 0 where
    here : {s : Scheduler} → Reach s s
    next : {s t u : Scheduler} → Reach s t → Step t u → Reach s u

  abbrev IsBalanced : Scheduler → Type 0
  IsBalanced s =
      (s.returned + (s.selecting + s.triggering) ≡ s.starts)
      × (s.starts ≢ 0 → start parse interval ≡ looping)

  Step-IsBalanced : {s t : Scheduler} → Step s t → IsBalanced s → IsBalanced t
  Step-IsBalanced (starts e) (b, l) = (ground arith, λ z. e)
  Step-IsBalanced (start_skipped e) b = b
  Step-IsBalanced (ticks e f) (b, l) = (ground arith, l)
  Step-IsBalanced (triggered e) (b, l) = (ground arith, l)
  Step-IsBalanced stops b = b
  Step-IsBalanced (meets e f) (b, l) = (ground arith, l)

  Reach-IsBalanced : {s t : Scheduler} → Reach s t → IsBalanced s → IsBalanced t
  Reach-IsBalanced here b = b
  Reach-IsBalanced (next r st) b = Step-IsBalanced st (Reach-IsBalanced r b)

  -- A goroutine that is in triggerCheckpoint comes back to the select, and meets a waiting Stop.
  released :
      (s : Scheduler) (n : ℕ)
      → s.waiting ≡ suc n
      → 0 < s.selecting + s.triggering
      → (t : Scheduler) × Reach s t × (t.returned ≡ suc s.returned)
  released s n w l = elim (ℕ-cases s.selecting) [
    | inr (m, e) ↦ (_, next here (meets w e), refl)
    | inl z ↦ elim (ℕ-cases s.triggering) [
      | inl y ↦ absurd (ground arith)
      | inr (k, e) ↦ (_, next (next here (triggered e)) (meets w refl), refl)
    ]
  ]

  -- From a new scheduler on, in any order of the steps: no more calls of Stop return than calls of
  -- Start have begun the loop; none returns where the interval is empty, is no duration, or is not
  -- positive; and where fewer have returned, a call of Stop that waits can return.
  pub stop_returns :
      (s : Scheduler)
      → Reach new_scheduler s
      → (s.returned ≤ s.starts)
        × (start parse interval ≢ looping → s.returned ≡ 0)
        × ((n : ℕ)
            → s.waiting ≡ suc n
            → s.returned < s.starts
            → (t : Scheduler) × Reach s t × (t.returned ≡ suc s.returned))
  stop_returns s r =
      let (b, l) = Reach-IsBalanced r (refl, λ z. absurd (z refl)) in
      (
        omega arith,
        (λ no. elim (ℕ-cases s.starts) [
          | inl z ↦ omega arith
          | inr (k, e) ↦ absurd (no (l (λ z. ground arith)))
        ]),
        (λ n w lt. released s n w (omega arith)),
      )
