-- ===== src/Monitor/Restart/Limits.antt =====
-- cmdman/monitor/mon_run.go: how often the run loop restarts, and what it ends with.
use cmdman.Prelude.{
  ℕ, suc, ◌≤◌, ◌<◌, ◌≡◌, ◌≢◌, refl, ap, ◌∙◌, inl, inr, Bool, true, false, zero, Option-cases, List,
  [], ◌∷◌, ◌++◌, Option, none, some, arith,
}
use cmdman.Prelude.Int.{ℤ, pos, negsuc, pos_part}
use cmdman.Monitor.Restart.{
  policy_on_failure, RunConfig, RunEnd, run_exited, Round, LoopEnd, running, exited, failed,
  wants_restart, RoundEnd, ends, again, run_round, restart_loop, run_loop,
}

abbrev pub restarts_of : LoopEnd → ℕ
restarts_of (running n) = n
restarts_of (exited code n) = n
restarts_of (failed n) = n

-- The config of the round, if it is read, asks for restarts on failure, at most `limit` of them.
abbrev pub IsLimited : ℤ → Option RunConfig → Type 0
IsLimited limit none = Unit {0}
IsLimited limit (some config) =
    (config.restart_policy ≡ policy_on_failure) × (config.max_retries ≡ limit)

abbrev pub AllLimited : ℤ → List Round → Type 0
AllLimited limit [] = Unit {0}
AllLimited limit (r ∷ rounds) = IsLimited limit r.config × AllLimited limit rounds

run_round-restarts :
    (r : Round) (restarts : ℕ) (e : LoopEnd)
    → run_round r restarts ≡ ends e
    → restarts_of e ≡ restarts
unfolding run_round
run_round-restarts r restarts e h = ground arith

-- A restart on failure stays below a limit that is not 0.
wants_restart-lt :
    (limit : ℤ) (config : RunConfig) (code : ℤ) (cancelled : Bool) (restarts : ℕ)
    → limit ≢ pos 0
    → IsLimited limit (some config)
    → wants_restart config code cancelled restarts ≡ true
    → restarts < pos_part limit
unfolding wants_restart
wants_restart-lt (pos zero) config code cancelled restarts some_limit limited h =
    absurd (some_limit refl)
wants_restart-lt (pos (suc n)) config code cancelled restarts some_limit limited h =
    ground (arith, rw (wants_restart, limited.0, limited.1) at h)
wants_restart-lt (negsuc n) config code cancelled restarts some_limit limited h =
    ground (arith, rw (wants_restart, limited.0, limited.1) at h)

run_round-again :
    (limit : ℤ) (r : Round) (restarts : ℕ) (code : ℤ)
    → limit ≢ pos 0
    → IsLimited limit r.config
    → run_round r restarts ≡ again code
    → restarts < pos_part limit
unfolding run_round
run_round-again limit r restarts code some_limit limited h = elim (Option-cases r.config) [
  | inl q ↦ ground (arith, q, h)
  | inr (config, q) ↦ ground (
    arith,
    q,
    wants_restart-lt limit config code r.cancelled restarts some_limit (rw q at limited),
  )
]

restart_loop-limit :
    (limit : ℤ) (rounds : List Round) (code : ℤ) (restarts : ℕ)
    → limit ≢ pos 0
    → AllLimited limit rounds
    → restarts < pos_part limit
    → restarts_of (restart_loop rounds code restarts) ≤ pos_part limit
unfolding restart_loop
restart_loop-limit limit [] code restarts some_limit all below = omega arith
restart_loop-limit limit (r ∷ rounds) code restarts some_limit all below =
    by_round (run_round r (suc restarts)) refl
      (λ c h. restart_loop-limit limit rounds c (suc restarts) some_limit all.1 h)
  where
    by_round :
        (e : RoundEnd)
        → run_round r (suc restarts) ≡ e
        → ((c : ℤ)
            → suc restarts < pos_part limit
            → restarts_of (restart_loop rounds c (suc restarts)) ≤ pos_part limit)
        → restarts_of (restart_loop (r ∷ rounds) code restarts) ≤ pos_part limit
    by_round (ends e) q rest = ground (arith, q, run_round-restarts r (suc restarts) e q)
    by_round (again c) q rest =
        ground (arith, q, rest c (run_round-again limit r (suc restarts) c some_limit all.0 q))

-- When every config that is read asks for restarts on failure, at most `limit` of them, and the limit
-- is not 0, the loop restarts the command at most `limit` times, and never where the limit is
-- negative, whatever else happens.
pub run_loop-limit :
    (limit : ℤ) (rounds : List Round)
    → limit ≢ pos 0
    → AllLimited limit rounds
    → restarts_of (run_loop rounds) ≤ pos_part limit
unfolding run_loop
run_loop-limit limit [] some_limit all = omega arith
run_loop-limit limit (r ∷ rounds) some_limit all = by_round (run_round r 0) refl
  where
    by_round :
        (e : RoundEnd) → run_round r 0 ≡ e → restarts_of (run_loop (r ∷ rounds)) ≤ pos_part limit
    by_round (ends e) q = ground (arith, q, run_round-restarts r 0 e q)
    by_round (again c) q = ground (
      arith,
      q,
      restart_loop-limit limit rounds c 0 some_limit all.1
          (run_round-again limit r 0 c some_limit all.0 q),
    )

-- How the last of some runs ended.
abbrev pub last_end : RunEnd → List Round → RunEnd
last_end e [] = e
last_end e (r ∷ rounds) = last_end r.run rounds

run_round-code :
    (r : Round) (restarts : ℕ) (code : ℤ)
    → run_round r restarts ≡ again code
    → r.run ≡ run_exited code
unfolding run_round
run_round-code r restarts code h = ground arith

run_round-running : (r : Round) (restarts n : ℕ) → run_round r restarts ≢ ends (running n)
unfolding run_round
run_round-running r restarts n h = ground arith

-- What a stop ends a loop with that is still going on.
record Stops (last : RunEnd) (n : ℕ) (e : LoopEnd) : Type 0 where
  code : ℤ
  was_last : last ≡ run_exited code
  stopped : e ≡ exited code n

restart_loop-Stops :
    (rounds : List Round) (code : ℤ) (restarts n : ℕ) (stopping : Round) (more : List Round)
    → restart_loop rounds code restarts ≡ running n
    → stopping.stop_requested ≡ true
    → Stops
        (last_end (run_exited code) rounds)
        n
        (restart_loop (rounds ++ (stopping ∷ more)) code restarts)
unfolding restart_loop run_round
restart_loop-Stops [] code restarts n stopping more h s = record {
  code = code;
  was_last = refl;
  stopped = ground (arith, h);
}
restart_loop-Stops (r ∷ rounds) code restarts n stopping more h s =
    by_round (run_round r (suc restarts)) refl
      (λ c g. restart_loop-Stops rounds c (suc restarts) n stopping more g s)
  where
    going : r.stop_requested ≡ false
    going = ground arith

    by_round :
        (e : RoundEnd)
        → run_round r (suc restarts) ≡ e
        → ((c : ℤ)
            → restart_loop rounds c (suc restarts) ≡ running n
            → Stops
                (last_end (run_exited c) rounds)
                n
                (restart_loop (rounds ++ (stopping ∷ more)) c (suc restarts)))
        → Stops
            (last_end r.run rounds)
            n
            (restart_loop (r ∷ rounds ++ (stopping ∷ more)) code restarts)
    by_round (ends e) q rest =
        absurd (run_round-running r (suc restarts) n (q ∙ ap ends (rw (going, q) at h)))
    by_round (again c) q rest =
        rw (run_round-code r (suc restarts) c q, going, q) (rest c (rw (going, q) at h))

-- A stop that is requested while the loop would go on to another round ends it before that round:
-- the command is left with the exit code of its last run, and the restart that the stop cancelled is
-- not counted.
pub run_loop-stop :
    (first : Round) (rounds : List Round) (n : ℕ) (stopping : Round) (more : List Round)
    → run_loop (first ∷ rounds) ≡ running n
    → stopping.stop_requested ≡ true
    → (code : ℤ) × (last_end first.run rounds ≡ run_exited code)
      × (run_loop (first ∷ rounds ++ (stopping ∷ more)) ≡ exited code n)
unfolding run_loop run_round
run_loop-stop first rounds n stopping more h s = by_round (run_round first 0) refl
  where
    by_round :
        (e : RoundEnd)
        → run_round first 0 ≡ e
        → (code : ℤ) × (last_end first.run rounds ≡ run_exited code)
          × (run_loop (first ∷ rounds ++ (stopping ∷ more)) ≡ exited code n)
    by_round (ends e) q = absurd (run_round-running first 0 n (q ∙ ap ends (rw (run_loop, q) at h)))
    by_round (again c) q =
        let stops : Stops (last_end (run_exited c) rounds) n
            (restart_loop (rounds ++ (stopping ∷ more)) c 0) =
          restart_loop-Stops rounds c 0 n stopping more (rw (run_loop, q) at h) s in
        (stops.code, rw (run_round-code first 0 c q) stops.was_last, rw (run_loop, q) stops.stopped)
