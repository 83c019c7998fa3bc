-- ===== src/Monitor/Broadcaster/Tests.antt =====
-- cmdman/monitor/broadcaster.go: a subscriber that reads one of two values, at concrete inputs.
use mathlib.Core.List.{Sublist}
use cmdman.Prelude.{ℕ, ◌+◌, ◌<◌, ◌≤◌, ◌≡◌, refl, true, List, [], ◌∷◌, ◌++◌, some, length, arith}
use cmdman.Monitor.Broadcaster.{
  Broadcaster, subscribed, capacity, new_broadcaster, subscribe, subscribes, unsubscribes, sends,
  closes, receives, Event, step, run,
}
use cmdman.Monitor.Broadcaster.Invariant.{IsSafe}
use cmdman.Monitor.Broadcaster.Traffic.{all_taken}
use cmdman.Monitor.Broadcaster.Delivery.{run_total, run-delivers}

one_subscriber : Broadcaster ℕ
unfolding new_broadcaster subscribe
one_subscriber = subscribe new_broadcaster

abbrev traffic : List (Event ℕ)
traffic = sends 5 ∷ receives 0 ∷ sends 6 ∷ subscribes ∷ []

run_total_example :
    (b : Broadcaster ℕ) × (run
        (subscribes ∷ sends 5 ∷ closes ∷ unsubscribes 0 ∷ closes ∷ [])
        new_broadcaster
      ≡ some b)
    × IsSafe b
run_total_example = run_total (subscribes ∷ sends 5 ∷ closes ∷ unsubscribes 0 ∷ closes ∷ [])

one_subscriber-reached : run (subscribes ∷ []) new_broadcaster ≡ some one_subscriber
unfolding run step one_subscriber
one_subscriber-reached = refl

one_subscriber-next : 0 < one_subscriber.next_id
unfolding one_subscriber new_broadcaster subscribe
one_subscriber-next = omega arith

run-delivers_example :
    (b' : Broadcaster ℕ) × (run traffic one_subscriber ≡ some b')
    × ((kept : List ℕ) × (all_taken 0 traffic one_subscriber ++ (b'.channels 0).queue
          ≡ (one_subscriber.channels 0).queue ++ kept)
        × Sublist kept (5 ∷ 6 ∷ [])
        × (length (one_subscriber.channels 0).queue + 2 ≤ capacity
            → subscribed b'.subscribers 0 ≡ true
            → kept ≡ 5 ∷ 6 ∷ []))
run-delivers_example =
    run-delivers one_subscriber 0 traffic (subscribes ∷ [], one_subscriber-reached)
      one_subscriber-next
