-- ===== src/Monitor/Broadcaster/Steps.antt =====
-- cmdman/monitor/broadcaster.go: one step of the broadcaster, and what it does to one channel.
use cmdman.Prelude.{
  ℕ, ◌<◌, ◌≤◌, ◌≡◌, inl, inr, refl, ap, ◌∙◌, true, false, List, [], ◌∷◌, some, if◌then◌else◌, ◌==◌,
  ==_iff, Bool-cases, arith,
}
use cmdman.Monitor.Broadcaster.{
  Channel, Broadcaster, subscribed, set_channel, subscribe, remove, unsubscribe, offer, send_all,
  send, close_all, close, tail_of, receive, Event, subscribes, unsubscribes, sends, closes,
  receives, step,
}
use cmdman.Monitor.Broadcaster.Invariant.{
  DistinctIds, IsSafe, subscribed-remove, send_all_eq, close_all_eq,
}

DistinctIds-remove : (is : List ℕ) (i : ℕ) → DistinctIds is → DistinctIds (remove is i)
DistinctIds-remove [] i d = tt
DistinctIds-remove (j ∷ is) i d = elim (Bool-cases (j == i)) [
  | inl q ↦ rw q (DistinctIds-remove is i d.1)
  | inr q ↦ rw q (subscribed-remove is i j ∙ ground (arith, d.0), DistinctIds-remove is i d.1)
]

remove-nil : (is : List ℕ) (i : ℕ) → is ≡ [] → remove is i ≡ []
remove-nil is i h = rw h refl

module _ {ℓ} {A : Type ℓ} where
  -- The queue of a channel that was made before, after one step.
  abbrev pub queue_after : ℕ → Event A → Broadcaster A → List A
  queue_after i subscribes b = (b.channels i).queue
  queue_after i (unsubscribes j) b = (b.channels i).queue
  queue_after i (sends v) b =
      if subscribed b.subscribers i then (offer v (b.channels i)).queue else (b.channels i).queue
  queue_after i closes b = (b.channels i).queue
  queue_after i (receives j) b =
      if j == i then tail_of (b.channels i).queue else (b.channels i).queue

  -- A step that does not panic.
  pub record StepsTo (e : Event A) (b b' : Broadcaster A) : Type ℓ where
    pub stepped : step e b ≡ some b'
    pub safe : IsSafe b'
    pub later : b.next_id ≤ b'.next_id
    -- An id that is no subscriber's is none again.
    pub gone :
        (i : ℕ)
        → i < b.next_id
        → subscribed b.subscribers i ≡ false
        → subscribed b'.subscribers i ≡ false
    pub queued : (i : ℕ) → i < b.next_id → (b'.channels i).queue ≡ queue_after i e b

  subscribe-StepsTo : (b : Broadcaster A) → IsSafe b → StepsTo subscribes b (subscribe b)
  unfolding step subscribe
  subscribe-StepsTo b s = elim (Bool-cases b.closed) [
    | inl c ↦ record {
      stepped = refl;
      safe = record {
        distinct = ground (arith, c, s.distinct);
        given = λ i h. ground (arith, c, h, s.given i);
        is_open = λ i h. ground (arith, c, h, s.given i, s.is_open i);
        none_left = λ h. ground (arith, c, s.none_left);
      };
      later = ground (arith, c);
      gone = λ i h q. ground (arith, c, q);
      queued = λ i h. ground (arith, c, h);
    }
    | inr c ↦ record {
      stepped = refl;
      safe = record {
        distinct = ground (arith, c, s.distinct, s.given b.next_id);
        given = λ i h. ground (arith, c, h, s.given i);
        is_open = λ i h. ground (arith, c, h, s.given i, s.is_open i);
        none_left = λ h. ground (arith, c, h);
      };
      later = ground (arith, c);
      gone = λ i h q. ground (arith, c, h, q);
      queued = λ i h. ground (arith, c, h);
    }
  ]

  receive-StepsTo : (b : Broadcaster A) (j : ℕ) → IsSafe b → StepsTo (receives j) b (receive j b)
  unfolding step receive
  receive-StepsTo b j s = record {
    stepped = refl;
    safe = record {
      distinct = s.distinct;
      given = s.given;
      is_open = λ i h. ground (arith, s.is_open i h, ==_iff j i);
      none_left = s.none_left;
    };
    later = omega arith;
    gone = λ i h q. q;
    queued = λ i h. ground (arith, ==_iff j i);
  }

  unsubscribe-open :
      (b : Broadcaster A) (j : ℕ)
      → subscribed b.subscribers j ≡ true
      → (b.channels j).is_closed ≡ false
      → unsubscribe j b
        ≡ some (record b {
          channels =
              set_channel b.channels j (record { queue = (b.channels j).queue; is_closed = true });
          subscribers = remove b.subscribers j;
        })
  unfolding unsubscribe
  unsubscribe-open b j h o = ground (arith, h, o)

  unsubscribe-none :
      (b : Broadcaster A) (j : ℕ) → subscribed b.subscribers j ≡ false → unsubscribe j b ≡ some b
  unfolding unsubscribe
  unsubscribe-none b j h = ground (arith, h)

  unsubscribe-StepsTo :
      (b : Broadcaster A) (j : ℕ) → IsSafe b → (b' : Broadcaster A) × StepsTo (unsubscribes j) b b'
  unfolding step
  unsubscribe-StepsTo b j s = elim (Bool-cases (subscribed b.subscribers j)) [
    | inr c ↦ (
      b,
      record {
        stepped = unsubscribe-none b j c;
        safe = s;
        later = omega arith;
        gone = λ i h q. q;
        queued = λ i h. refl;
      },
    )
    | inl c ↦ (
      _,
      record {
        stepped = unsubscribe-open b j c (s.is_open j c);
        safe = record {
          distinct = DistinctIds-remove b.subscribers j s.distinct;
          given = λ i h. s.given i (ground (arith, h, subscribed-remove b.subscribers j i));
          is_open = λ i h. ground (arith, h, subscribed-remove b.subscribers j i, s.is_open i);
          none_left = λ h. remove-nil b.subscribers j (s.none_left h);
        };
        later = omega arith;
        gone = λ i h q. ground (arith, q, subscribed-remove b.subscribers j i);
        queued = λ i h. ground (arith, ==_iff j i);
      },
    )
  ]

  offer-is_closed : (v : A) (c : Channel A) → (offer v c).is_closed ≡ c.is_closed
  offer-is_closed v c = ground arith

  send-closed : (b : Broadcaster A) (v : A) → b.closed ≡ true → send v b ≡ some b
  unfolding send
  send-closed b v h = ground (arith, h)

  send-open :
      (b : Broadcaster A) (v : A) (channels : ℕ → Channel A)
      → b.closed ≡ false
      → send_all v b.subscribers b.channels ≡ some channels
      → send v b ≡ some (record b { channels = channels })
  unfolding send
  send-open b v channels h q = rw q (ground (arith, h))

  send-StepsTo :
      (b : Broadcaster A) (v : A) → IsSafe b → (b' : Broadcaster A) × StepsTo (sends v) b b'
  unfolding step
  send-StepsTo b v s = elim (Bool-cases b.closed) [
    | inl c ↦ (
      b,
      record {
        stepped = send-closed b v c;
        safe = s;
        later = omega arith;
        gone = λ i h q. q;
        queued = λ i h. ground (arith, ap (λ (is : List ℕ). subscribed is i) (s.none_left c));
      },
    )
    | inr c ↦
        let (channels, p, q) = send_all_eq v b.subscribers b.channels s.distinct s.is_open in
        (
          record b { channels = channels },
          record {
            stepped = send-open b v channels c p;
            safe = record {
              distinct = s.distinct;
              given = s.given;
              is_open = λ i h.
                  ap (λ (x : Channel A). x.is_closed) (q i)
                  ∙ ground (arith, h, s.is_open i h, offer-is_closed v (b.channels i));
              none_left = s.none_left;
            };
            later = omega arith;
            gone = λ i h k. k;
            queued = λ i h. ap (λ (x : Channel A). x.queue) (q i) ∙ ground arith;
          },
        )
  ]

  close-closed : (b : Broadcaster A) → b.closed ≡ true → close b ≡ some b
  unfolding close
  close-closed b h = ground (arith, h)

  close-open :
      (b : Broadcaster A) (channels : ℕ → Channel A)
      → b.closed ≡ false
      → close_all b.subscribers b.channels ≡ some channels
      → close b ≡ some (record b { channels = channels; subscribers = []; closed = true })
  unfolding close
  close-open b channels h q = rw (h, q) refl

  close-StepsTo : (b : Broadcaster A) → IsSafe b → (b' : Broadcaster A) × StepsTo closes b b'
  unfolding step
  close-StepsTo b s = elim (Bool-cases b.closed) [
    | inl c ↦ (
      b,
      record {
        stepped = close-closed b c;
        safe = s;
        later = omega arith;
        gone = λ i h q. q;
        queued = λ i h. refl;
      },
    )
    | inr c ↦
        let (channels, p, q) = close_all_eq b.subscribers b.channels s.distinct s.is_open in
        (
          record b { channels = channels; subscribers = []; closed = true },
          record {
            stepped = close-open b channels c p;
            safe = record {
              distinct = tt;
              given = λ i h. cc;
              is_open = λ i h. cc;
              none_left = λ h. refl;
            };
            later = omega arith;
            gone = λ i h k. refl;
            queued = λ i h. q i;
          },
        )
  ]

  -- Every step of a safe broadcaster is one that does not panic.
  pub step-StepsTo :
      (e : Event A) (b : Broadcaster A) → IsSafe b → (b' : Broadcaster A) × StepsTo e b b'
  step-StepsTo subscribes b s = (subscribe b, subscribe-StepsTo b s)
  step-StepsTo (unsubscribes j) b s = unsubscribe-StepsTo b j s
  step-StepsTo (sends v) b s = send-StepsTo b v s
  step-StepsTo closes b s = close-StepsTo b s
  step-StepsTo (receives j) b s = (receive j b, receive-StepsTo b j s)
