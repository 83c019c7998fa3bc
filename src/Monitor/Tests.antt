-- ===== src/Monitor/Tests.antt =====
-- cmdman/monitor: the theorems on the scrollback ring and on the hook filter, at concrete inputs.
use mathlib.Core.List.{Sublist, flatten}
use cmdman.Prelude.{
  ◌↔◌, inr, ℕ, ◌≡◌, ◌≤◌, refl, inl, true, false, ◌&&◌, ◌||◌, List, [], ◌∷◌, ◌++◌, none, some, arith,
  if◌then◌else◌, length,
}
use cmdman.Prelude.Windows.{last}
use cmdman.Prelude.Int.{ℤ, pos}
use cmdman.Monitor.Restart.{
  parse_restart_policy, RunConfig, policy_on_failure, Round, run_exited, running, exited, run_loop,
  restart_loop, run_round, wants_restart,
}
use cmdman.Monitor.Restart.Parse.{Spells, parse_restart_policy-Spells}
use cmdman.Monitor.Restart.Retries.{Fails, run_loop-retries}
use cmdman.Prelude.Numbers.{codes}
use cmdman.Prelude.Results.{ok}
use cmdman.Monitor.Restart.Limits.{restarts_of, last_end, run_loop-limit, run_loop-stop}
use cmdman.Monitor.RingBuffer.{RingBuffer, write, bytes, write_all, new_ring_buffer}
use cmdman.Monitor.RingBuffer.Bounds.{IsValid as IsValidRing, write-IsValid}
use cmdman.Monitor.RingBuffer.History.{bytes-write_all}
use cmdman.Monitor.HookFilter.{
  HookBlocks, any, decide_osc, is_digits, classify_osc_byte, osc_end, osc_data, fresh, filter,
  filter_viewer, new_hook_filter,
}
use cmdman.Monitor.HookFilter.Verdicts.{
  decide_osc-terminated, decide_osc-early, decide_osc-open_short,
}
use cmdman.Monitor.HookFilter.Captures.{is_title, is_notification, decide_osc-captures}
use cmdman.Monitor.HookFilter.Sequences.{single, dispatch, resting, filter-osc}
use cmdman.Monitor.HookFilter.Account.{IsValid, held, filter-IsValid, fresh-IsValid, filter-sublist}
use cmdman.Monitor.HookFilter.Transparent.{filter-transparent}

abbrev wrapped : RingBuffer
wrapped = record { buf = 5 ∷ 6 ∷ 3 ∷ 4 ∷ []; pos = 2; full = true }

wrapped-IsValid : IsValidRing 4 wrapped
wrapped-IsValid = record { sized = refl; inside = inl (omega arith) }

bytes-write_all_example :
    bytes (write_all (new_ring_buffer 3) ((1 ∷ 2 ∷ []) ∷ (3 ∷ 4 ∷ []) ∷ []))
    ≡ last 3 (flatten ((1 ∷ 2 ∷ []) ∷ (3 ∷ 4 ∷ []) ∷ []))
bytes-write_all_example = bytes-write_all 3 ((1 ∷ 2 ∷ []) ∷ (3 ∷ 4 ∷ []) ∷ [])

write-IsValid_example : IsValidRing 4 (write wrapped (7 ∷ 8 ∷ 9 ∷ []))
write-IsValid_example = write-IsValid 4 wrapped (7 ∷ 8 ∷ 9 ∷ []) wrapped-IsValid

abbrev titles : HookBlocks
titles = record { bell = false; title = true; notification = false }

abbrev nothing : HookBlocks
nothing = record { bell = false; title = false; notification = false }

-- "0;ab" and "2"
abbrev title_body : List ℕ
title_body = b'0' ∷ b';' ∷ b'a' ∷ b'b' ∷ []

abbrev number_only : List ℕ
number_only = b'2' ∷ []

decide_osc-terminated_example : (decide_osc titles number_only true).decided ≡ true
decide_osc-terminated_example = decide_osc-terminated titles number_only

decided_early : (decide_osc titles title_body false).decided ≡ true
unfolding decide_osc is_digits
decided_early = refl

decide_osc-early_example :
    (decide_osc titles (title_body ++ number_only) true).block
    ≡ (decide_osc titles title_body false).block
decide_osc-early_example = decide_osc-early titles title_body number_only (λ e. cc) decided_early

undecided : (decide_osc titles number_only false).decided ≡ false
unfolding decide_osc is_digits
undecided = refl

decide_osc-open_short_example : length number_only ≤ 10
decide_osc-open_short_example = decide_osc-open_short titles number_only undecided

decide_osc-captures_example :
    (decide_osc titles title_body true).block
    ≡ ((titles.title && is_title title_body) || (titles.notification && is_notification title_body))
decide_osc-captures_example = decide_osc-captures titles title_body

data_byte : classify_osc_byte b'2' ≡ osc_data
unfolding classify_osc_byte
data_byte = refl

end_byte : classify_osc_byte 0x07 ≡ osc_end
unfolding classify_osc_byte
end_byte = refl

filter-osc_example : filter (resting titles 0 0) ((0x9d ∷ []) ++ (number_only ++ (0x07 ∷ []))) ≡ (
  resting titles 0 (1),
  if (decide_osc titles number_only true).block
      then []
      else (0x9d ∷ []) ++ (number_only ++ (0x07 ∷ [])),
)
filter-osc_example =
    filter-osc titles 0 0 (0x9d ∷ []) number_only (0x07 ∷ []) (single refl) (data_byte, tt)
      (dispatch 0x07 refl end_byte)

-- ESC ] 0 ; x and then a BEL
abbrev stream : List ℕ
stream = 0x1b ∷ b']' ∷ b'0' ∷ b';' ∷ b'x' ∷ []

filter-IsValid_example : IsValid (filter (fresh titles) stream).0
filter-IsValid_example = filter-IsValid (fresh titles) stream (fresh-IsValid titles)

filter-sublist_example :
    Sublist
      ((filter (fresh titles) stream).1 ++ held (filter (fresh titles) stream).0)
      (held (fresh titles) ++ stream)
filter-sublist_example = filter-sublist (fresh titles) stream (fresh-IsValid titles)

none_blocked : any nothing ≡ false
unfolding any
none_blocked = refl

filter-transparent_example :
    (new_hook_filter nothing ≡ none)
    × ((filter (fresh nothing) stream).1 ++ held (filter (fresh nothing) stream).0
        ≡ (filter_viewer (new_hook_filter nothing) stream).1)
filter-transparent_example = filter-transparent nothing stream none_blocked

abbrev twice : RunConfig
twice = record { restart_policy = policy_on_failure; max_retries = pos 2 }

-- A run that exits with 1.
abbrev failing : Round
failing = record {
  stop_requested = false;
  config = some twice;
  run = run_exited (pos 1);
  cancelled = false;
}

abbrev stopped : Round
stopped = record {
  stop_requested = true;
  config = some twice;
  run = run_exited (pos 0);
  cancelled = false;
}

run_loop-limit_example : restarts_of (run_loop (failing ∷ failing ∷ failing ∷ failing ∷ [])) ≤ 2
run_loop-limit_example =
    run_loop-limit (pos 2) (failing ∷ failing ∷ failing ∷ failing ∷ []) (λ h. ground arith)
      ((refl, refl), ((refl, refl), ((refl, refl), ((refl, refl), tt))))

two_runs : run_loop (failing ∷ failing ∷ []) ≡ running 1
unfolding run_loop restart_loop run_round wants_restart
two_runs = refl

run_loop-stop_example :
    (code : ℤ) × (last_end failing.run (failing ∷ []) ≡ run_exited code)
    × (run_loop (failing ∷ (failing ∷ []) ++ (stopped ∷ [])) ≡ exited code 1)
run_loop-stop_example = run_loop-stop failing (failing ∷ []) 1 stopped [] two_runs refl

abbrev spelled : List ℕ
spelled = codes "on-failure:3"

parse_restart_policy-Spells_example :
    parse_restart_policy spelled ≡ ok (policy_on_failure, 3) ↔ Spells spelled policy_on_failure 3
parse_restart_policy-Spells_example = parse_restart_policy-Spells spelled policy_on_failure 3

-- The second direction gives the parse of a text that spells a policy.
three_retries : parse_restart_policy spelled ≡ ok (policy_on_failure, 3)
three_retries = parse_restart_policy-Spells_example.1 (inr (refl, codes "3", refl, refl))

failing-Fails : Fails 2 failing
failing-Fails = record {
  config = twice;
  read = refl;
  on_failure = refl;
  limited = refl;
  code = pos 1;
  exits = refl;
  not_zero = refl;
  no_stop = refl;
  no_cancel = refl;
}

run_loop-retries_example :
    (code : ℤ) × (failing.run ≡ run_exited code)
    × (run_loop (failing ∷ (failing ∷ []) ++ (failing ∷ failing ∷ [])) ≡ exited code 2)
run_loop-retries_example =
    run_loop-retries 2 failing (failing ∷ []) failing (failing ∷ []) failing-Fails
      (failing-Fails, tt) failing-Fails refl
