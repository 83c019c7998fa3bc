-- ===== src/Monitor/Broadcaster/Invariant.antt =====
-- cmdman/monitor/broadcaster.go: no operation panics.
use cmdman.Prelude.{
  ℕ, ◌<◌, ◌≡◌, refl, ◌∙◌, true, false, List, [], ◌∷◌, some, if◌then◌else◌, ◌==◌, ==_iff, arith,
}
use cmdman.Monitor.Broadcaster.{
  Channel, Broadcaster, subscribed, set_channel, new_broadcaster, remove, offer, send_all,
  close_all,
}

abbrev pub DistinctIds : List ℕ → Type 0
DistinctIds [] = Unit {0}
DistinctIds (i ∷ is) = (subscribed is i ≡ false) × DistinctIds is

pub subscribed-remove :
    (is : List ℕ) (i j : ℕ)
    → subscribed (remove is i) j ≡ (if i == j then false else subscribed is j)
subscribed-remove [] i j = ground arith
subscribed-remove (k ∷ is) i j = ground (arith, subscribed-remove is i j)

module _ {ℓ} {A : Type ℓ} where
  -- The subscribers have different ids that were given, and their channels are open; there are none
  -- when the broadcaster is closed.
  pub record IsSafe (b : Broadcaster A) : Type ℓ where
    pub distinct : DistinctIds b.subscribers
    pub given : (i : ℕ) → subscribed b.subscribers i ≡ true → i < b.next_id
    pub is_open : (i : ℕ) → subscribed b.subscribers i ≡ true → (b.channels i).is_closed ≡ false
    pub none_left : b.closed ≡ true → b.subscribers ≡ []

  pub new_broadcaster-IsSafe : IsSafe new_broadcaster
  unfolding new_broadcaster
  new_broadcaster-IsSafe = record {
    distinct = tt;
    given = λ i h. cc;
    is_open = λ i h. cc;
    none_left = λ h. refl;
  }

  send_all-open :
      (value : A) (i : ℕ) (is : List ℕ) (channels : ℕ → Channel A)
      → (channels i).is_closed ≡ false
      → send_all value (i ∷ is) channels
        ≡ send_all value is (set_channel channels i (offer value (channels i)))
  unfolding send_all
  send_all-open value i is channels h = ground (arith, h)

  close_all-open :
      (i : ℕ) (is : List ℕ) (channels : ℕ → Channel A)
      → (channels i).is_closed ≡ false
      → close_all (i ∷ is) channels
        ≡ close_all is
            (set_channel channels i (record { queue = (channels i).queue; is_closed = true }))
  unfolding close_all
  close_all-open i is channels h = ground (arith, h)

  -- The loop of `Send` reaches each subscriber's channel, and no other.
  pub send_all_eq :
      (value : A) (is : List ℕ) (channels : ℕ → Channel A)
      → DistinctIds is
      → ((i : ℕ) → subscribed is i ≡ true → (channels i).is_closed ≡ false)
      → (channels' : ℕ → Channel A) × (send_all value is channels ≡ some channels')
        × ((i : ℕ)
            → channels' i ≡ (if subscribed is i then offer value (channels i) else channels i))
  unfolding send_all
  send_all_eq value [] channels d o = (channels, refl, λ i. refl)
  send_all_eq value (i ∷ is) channels d o =
      let (later, p, q) =
        send_all_eq value is (set_channel channels i (offer value (channels i))) d.1 still_open in
      (
        later,
        send_all-open value i is channels (o i (ground arith)) ∙ p,
        λ j. q j ∙ ground (arith, d.0, ==_iff i j),
      )
    where
      still_open :
          (j : ℕ)
          → subscribed is j ≡ true
          → (set_channel channels i (offer value (channels i)) j).is_closed ≡ false
      still_open j h = ground (arith, h, d.0, o j, ==_iff i j)

  pub close_all_eq :
      (is : List ℕ) (channels : ℕ → Channel A)
      → DistinctIds is
      → ((i : ℕ) → subscribed is i ≡ true → (channels i).is_closed ≡ false)
      → (channels' : ℕ → Channel A) × (close_all is channels ≡ some channels')
        × ((i : ℕ) → (channels' i).queue ≡ (channels i).queue)
  unfolding close_all
  close_all_eq [] channels d o = (channels, refl, λ i. refl)
  close_all_eq (i ∷ is) channels d o =
      let (later, p, q) = close_all_eq is closed_one d.1 still_open in
      (
        later,
        close_all-open i is channels (o i (ground arith)) ∙ p,
        λ j. q j ∙ ground (arith, ==_iff i j),
      )
    where
      closed_one : ℕ → Channel A
      closed_one = set_channel channels i (record { queue = (channels i).queue; is_closed = true })

      still_open : (j : ℕ) → subscribed is j ≡ true → (closed_one j).is_closed ≡ false
      still_open j h = ground (arith, h, d.0, o j, ==_iff i j)
