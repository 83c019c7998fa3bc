-- ===== src/Monitor/Restart.antt =====
-- cmdman/model/restart_policy.go and the run loop of cmdman/monitor/mon_run.go: when a command runs
-- again. What the process, the store and the context answer in a round is the input of the loop.
pub mod Limits
pub mod Parse
pub mod Retries
use cmdman.Prelude.{
  ℕ, zero, suc, ◌+◌, ◌≡◌, Bool, true, false, not, ◌&&◌, ◌||◌, List, [], ◌∷◌, Option, none, some,
  if◌then◌else◌,
}
use cmdman.Prelude.Bytes.{equal, cut}
use cmdman.Prelude.Int.{ℤ, pos, negsuc, is_zero, ltb_int}
use cmdman.Prelude.Numbers.{codes, atoi_bytes}
use cmdman.Prelude.Results.{Result, ok, err}

-- Go's type is a string, and a stored policy may be any text.
abbrev pub RestartPolicy : Type 0
RestartPolicy = List ℕ

abbrev pub policy_no : RestartPolicy
policy_no = codes "no"

abbrev pub policy_on_failure : RestartPolicy
policy_on_failure = codes "on-failure"

abbrev pub policy_always : RestartPolicy
policy_always = codes "always"

pub data RestartError : Type 0 where
  invalid_policy count_not_allowed invalid_count negative_count : RestartError

unfoldable pub is_restart_policy : List ℕ → Bool
is_restart_policy s = equal s policy_no || equal s policy_on_failure || equal s policy_always

-- The retry count behind "on-failure:".
unfoldable pub retry_count : Option ℤ → Result RestartError ℕ
retry_count none = err invalid_count
retry_count (some (pos n)) = ok n
retry_count (some (negsuc n)) = err negative_count

abbrev pub with_count :
    RestartPolicy → Result RestartError ℕ → Result RestartError (RestartPolicy × ℕ)
with_count p (ok n) = ok (p, n)
with_count p (err e) = err e

-- The part behind the colon.
unfoldable pub restart_count_of : RestartPolicy → List ℕ → Result RestartError (RestartPolicy × ℕ)
unfolding retry_count
restart_count_of policy count =
    if not (equal policy policy_on_failure)
    then err count_not_allowed
    else with_count policy (retry_count (atoi_bytes count))

unfoldable pub parse_restart_policy : List ℕ → Result RestartError (RestartPolicy × ℕ)
unfolding is_restart_policy restart_count_of
parse_restart_policy s =
    let parts = cut b':' s in
    if not (is_restart_policy parts.before)
    then err invalid_policy
    else if not parts.found
    then ok (parts.before, 0)
    else restart_count_of parts.before parts.after

-- The fields of the stored config that the loop reads.
pub record RunConfig : Type 0 where
  pub restart_policy : RestartPolicy
  pub max_retries : ℤ

-- How `runOnce` ended: with an exit code, or with an error.
pub data RunEnd : Type 0 where
  run_exited : ℤ → RunEnd
  run_failed : RunEnd

-- What one round of the loop meets: whether a stop was requested when it begins, the config that is
-- read, how the run ends, and whether the context is cancelled when that is decided.
pub record Round : Type 0 where
  pub stop_requested : Bool
  pub config : Option RunConfig
  pub run : RunEnd
  pub cancelled : Bool

-- The state that the loop leaves, with the restart count; `running` is a loop that is not over.
pub data LoopEnd : Type 0 where
  running : (restarts : ℕ) → LoopEnd
  exited : (code : ℤ) (restarts : ℕ) → LoopEnd
  failed : (restarts : ℕ) → LoopEnd

-- The `switch` on the policy: any other text is no case of it.
unfoldable pub wants_restart : RunConfig → ℤ → Bool → ℕ → Bool
wants_restart config exit_code cancelled restarts =
    if equal config.restart_policy policy_no
    then false
    else if equal config.restart_policy policy_on_failure
    then not (is_zero exit_code)
      && not cancelled
      && (is_zero config.max_retries || ltb_int (pos restarts) config.max_retries)
    else if equal config.restart_policy policy_always
    then not cancelled
    else false

-- What a round that runs the command leads to: the end of the loop, or the code that the next round
-- starts from.
pub data RoundEnd : Type 0 where
  ends : LoopEnd → RoundEnd
  again : ℤ → RoundEnd

unfoldable pub run_round : Round → ℕ → RoundEnd
unfolding wants_restart
run_round r restarts = elim (r.config) [
  | none ↦ ends (failed restarts)
  | some config ↦ elim (r.run) [
    | run_failed ↦ if r.cancelled then ends (exited (negsuc 0) restarts) else ends (failed restarts)
    | run_exited code ↦
        if wants_restart config code r.cancelled restarts
        then again code
        else ends (exited code restarts)
  ]
]

-- The rounds after the first. `code` is the exit code of the round before.
unfoldable pub restart_loop : List Round → ℤ → ℕ → LoopEnd
restart_loop [] code restarts = running restarts
restart_loop (r ∷ rounds) code restarts =
    if r.stop_requested then exited code restarts else elim (run_round r (suc restarts)) [
      | ends e ↦ e
      | again c ↦ restart_loop rounds c (suc restarts)
    ]

unfoldable pub run_loop : List Round → LoopEnd
unfolding restart_loop run_round
run_loop [] = running 0
run_loop (r ∷ rounds) = elim (run_round r 0) [ ends e ↦ e | again c ↦ restart_loop rounds c 0 ]
