-- ===== src/Monitor/Restart/Retries.antt =====
-- cmdman/monitor/mon_run.go: a command that goes on failing is restarted as often as its limit says.
use cmdman.Prelude.{
  ℕ, suc, ◌+◌, ◌<◌, ◌≡◌, ◌≢◌, refl, false, List, [], ◌∷◌, ◌++◌, some, length, arith,
}
use cmdman.Prelude.Int.{ℤ, pos, is_zero}
use cmdman.Monitor.Restart.{
  policy_on_failure, RunConfig, run_exited, Round, exited, wants_restart, again, ends, run_round,
  restart_loop, run_loop,
}

-- A round that nothing interrupts: no stop is requested, the context is not cancelled, the config
-- allows `limit` restarts on failure, and the run exits with a code that is not 0.
pub record Fails (limit : ℕ) (r : Round) : Type 0 where
  pub config : RunConfig
  pub read : r.config ≡ some config
  pub on_failure : config.restart_policy ≡ policy_on_failure
  pub limited : config.max_retries ≡ pos limit
  pub code : ℤ
  pub exits : r.run ≡ run_exited code
  pub not_zero : is_zero code ≡ false
  pub no_stop : r.stop_requested ≡ false
  pub no_cancel : r.cancelled ≡ false

abbrev pub AllFail : ℕ → List Round → Type 0
AllFail limit [] = Unit {0}
AllFail limit (r ∷ rounds) = Fails limit r × AllFail limit rounds

run_round-Fails_again :
    (limit : ℕ) (r : Round) (f : Fails limit r) (restarts : ℕ)
    → restarts < limit
    → run_round r restarts ≡ again f.code
unfolding run_round wants_restart
run_round-Fails_again limit r f restarts h =
    rw (f.read, f.exits, f.on_failure, f.limited, f.not_zero, f.no_cancel) (ground arith)

run_round-Fails_ends :
    (limit : ℕ) (r : Round) (f : Fails limit r)
    → limit ≢ 0
    → run_round r limit ≡ ends (exited f.code limit)
unfolding run_round wants_restart
run_round-Fails_ends limit r f h =
    rw (f.read, f.exits, f.on_failure, f.limited, f.not_zero, f.no_cancel) (ground arith)

restart_loop-AllFail :
    (limit : ℕ) (rounds : List Round) (last : Round) (f : Fails limit last) (more : List Round)
    (code : ℤ) (restarts : ℕ)
    → AllFail limit rounds
    → limit ≢ 0
    → suc (restarts + length rounds) ≡ limit
    → restart_loop (rounds ++ (last ∷ more)) code restarts ≡ exited f.code limit
unfolding restart_loop
restart_loop-AllFail limit [] last f more code restarts all h e =
    let at_limit : suc restarts ≡ limit = omega (arith, e) in
    rw (at_limit, run_round-Fails_ends limit last f h, f.no_stop) refl
restart_loop-AllFail limit (r ∷ rounds) last f more code restarts all h e =
    rw (run_round-Fails_again limit r all.0 (suc restarts) (omega (arith, e)), all.0.no_stop)
      (restart_loop-AllFail limit rounds last f more all.0.code (suc restarts) all.1 h
        (omega (arith, e)))

-- When every config that is read up to then asks for restarts on failure with one limit, at least 1,
-- the command exits with a code other than 0 in its first run and in as many runs more as the limit
-- says, and no stop and no cancelled context comes between, it is restarted that many times; then it
-- is left with the exit code of the last of these runs, whatever rounds would come after.
pub run_loop-retries :
    (limit : ℕ) (first : Round) (rounds : List Round) (last : Round) (more : List Round)
    → Fails limit first
    → AllFail limit rounds
    → Fails limit last
    → suc (length rounds) ≡ limit
    → (code : ℤ) × (last.run ≡ run_exited code)
      × (run_loop (first ∷ rounds ++ (last ∷ more)) ≡ exited code limit)
unfolding run_loop
run_loop-retries limit first rounds last more g all f e = (
  f.code,
  f.exits,
  rw (run_loop, run_round-Fails_again limit first g 0 (omega (arith, e)))
      (restart_loop-AllFail limit rounds last f more g.code 0 all (omega (arith, e))
        (omega (arith, e))),
)
