-- ===== src/Compose/Target/Stored.antt =====
-- cmdman/compose/target.go: the replica counts that are read back from the stored entries bound
-- every stored replica of a known command.
use mathlib.Core.List.{Memᴰ}
use cmdman.Prelude.{
  ℕ, ◌≡◌, ◌≤◌, ◌⊎◌, inl, inr, refl, Bool, true, false, ◌&&◌, ◌||◌, List, [], ◌∷◌, Option, none,
  some, Bool-cases, arith,
}
use cmdman.Prelude.Text.{String, str_eq, str_eq_iff, str_eq_self, contains}
use cmdman.Prelude.Int.{ℤ, pos, negsuc}
use cmdman.Compose.Spec.{Command}
use cmdman.Compose.Entry.{Entry, command_name_of, scale_index_of}
use cmdman.Compose.Target.{
  is_none, count_of, store_replica, store_replicas, zero_replicas, stored_replicas, larger,
}
use cmdman.Compose.Target.Validity.{exists}
use cmdman.Compose.Graph.{names}

-- The map holds a count for the name, and it is at least `n`.
abbrev HoldsAtLeast : (String → Option ℕ) → String → ℕ → Type 0
HoldsAtLeast counts name n = (is_none (counts name) ≡ false) × (n ≤ count_of (counts name))

-- A map from the command names that the loop accepts.
abbrev Accepts : Bool → (String → Option ℕ) → String → Type 0
Accepts has_spec counts name = (has_spec ≡ false) ⊎ (is_none (counts name) ≡ false)

larger-le : (count : ℕ) (i : ℤ) → count ≤ larger count i
larger-le count (pos n) = ground arith
larger-le count (negsuc n) = omega arith

-- What one turn leaves at a name.
store_replica_at :
    (has_spec : Bool) (e : Entry) (counts : String → Option ℕ) (name : String)
    → (store_replica has_spec e counts name ≡ counts name)
      ⊎ ((command_name_of e ≡ name)
          × (store_replica has_spec e counts name
              ≡ some (larger (count_of (counts name)) (scale_index_of e))))
unfolding store_replica
store_replica_at has_spec e counts name =
    elim (Bool-cases
      (str_eq (command_name_of e) "" || (has_spec && is_none (counts (command_name_of e))))) [
        | inl q ↦ inl (rw q refl)
        | inr q ↦ elim (Bool-cases (str_eq (command_name_of e) name)) [
          | inl s ↦
              let same : command_name_of e ≡ name = (str_eq_iff (command_name_of e) name).0 s in
              inr (same, rw (q, s, same) refl)
          | inr s ↦ inl (rw (q, s) refl)
        ]
      ]

store_replica-HoldsAtLeast :
    (has_spec : Bool) (e : Entry) (counts : String → Option ℕ) (name : String) (n : ℕ)
    → HoldsAtLeast counts name n
    → HoldsAtLeast (store_replica has_spec e counts) name n
store_replica-HoldsAtLeast has_spec e counts name n h =
    elim (store_replica_at has_spec e counts name) [
      | inl q ↦ rw q h
      | inr (s, q) ↦
          rw q (refl, omega (arith, h.1, larger-le (count_of (counts name)) (scale_index_of e)))
    ]

store_replica-Accepts :
    (has_spec : Bool) (e : Entry) (counts : String → Option ℕ) (name : String)
    → Accepts has_spec counts name
    → Accepts has_spec (store_replica has_spec e counts) name
store_replica-Accepts has_spec e counts name (inl h) = inl h
store_replica-Accepts has_spec e counts name (inr h) =
    elim (store_replica_at has_spec e counts name) [
      | inl q ↦ inr (rw q h)
      | inr (s, q) ↦ inr (rw q refl)
    ]

store_replica-own :
    (has_spec : Bool) (e : Entry) (counts : String → Option ℕ) (n : ℕ)
    → str_eq (command_name_of e) "" ≡ false
    → Accepts has_spec counts (command_name_of e)
    → scale_index_of e ≡ pos n
    → HoldsAtLeast (store_replica has_spec e counts) (command_name_of e) n
unfolding store_replica
store_replica-own has_spec e counts n named (inl k) i =
    rw (named, k, str_eq_self (command_name_of e), i) (refl, ground arith)
store_replica-own has_spec e counts n named (inr k) i = elim (Bool-cases has_spec) [
  | inl q ↦ rw (named, q, k, str_eq_self (command_name_of e), i) (refl, ground arith)
  | inr q ↦ rw (named, q, str_eq_self (command_name_of e), i) (refl, ground arith)
]

store_replicas-HoldsAtLeast :
    (has_spec : Bool) (es : List Entry) (counts : String → Option ℕ) (name : String) (n : ℕ)
    → HoldsAtLeast counts name n
    → HoldsAtLeast (store_replicas has_spec es counts) name n
unfolding store_replicas
store_replicas-HoldsAtLeast has_spec [] counts name n h = h
store_replicas-HoldsAtLeast has_spec (e ∷ es) counts name n h =
    store_replicas-HoldsAtLeast has_spec es (store_replica has_spec e counts) name n
      (store_replica-HoldsAtLeast has_spec e counts name n h)

store_replicas-own :
    (has_spec : Bool) (es : List Entry) (counts : String → Option ℕ) (e : Entry) (n : ℕ)
    → Memᴰ e es
    → str_eq (command_name_of e) "" ≡ false
    → Accepts has_spec counts (command_name_of e)
    → scale_index_of e ≡ pos n
    → HoldsAtLeast (store_replicas has_spec es counts) (command_name_of e) n
unfolding store_replicas
store_replicas-own has_spec [] counts e n m named k i = elim m [ ]
store_replicas-own has_spec (x ∷ es) counts e n (Memᴰ.head q) named k i =
    store_replicas-HoldsAtLeast has_spec es (store_replica has_spec x counts) (command_name_of e) n
      (rw (← q) (store_replica-own has_spec e counts n named k i))
store_replicas-own has_spec (x ∷ es) counts e n (Memᴰ.tail m) named k i =
    store_replicas-own has_spec es (store_replica has_spec x counts) e n m named
      (store_replica-Accepts has_spec x counts (command_name_of e) k) i

-- Without a spec every command is known, and with one those that it lists.
abbrev pub is_known : Option (List Command) → String → Bool
is_known none name = true
is_known (some commands) name = contains (names commands) name

zero_replicas-known :
    (commands : List Command) (name : String)
    → contains (names commands) name ≡ true
    → is_none (zero_replicas commands name) ≡ false
unfolding zero_replicas
zero_replicas-known [] name h = cc
zero_replicas-known (c ∷ cs) name h = ground (arith, zero_replicas-known cs name)

-- A stored replica of a known command, with a name and an index that is not negative, can be
-- addressed: the target of its command and index is one that resolves against the stored counts,
-- whichever of the lower replicas are missing.
pub stored_replicas_addressable :
    (spec : Option (List Command)) (es : List Entry) (e : Entry) (n : ℕ)
    → Memᴰ e es
    → str_eq (command_name_of e) "" ≡ false
    → is_known spec (command_name_of e) ≡ true
    → scale_index_of e ≡ pos n
    → exists (stored_replicas spec es) (record { command = command_name_of e; scale_index = pos n })
      ≡ true
unfolding stored_replicas
stored_replicas_addressable none es e n m named k i =
    let h : HoldsAtLeast (store_replicas false es (λ name. none)) (command_name_of e) n =
      store_replicas-own false es (λ name. none) e n m named (inl refl) i in
    ground (arith, h.0, h.1)
stored_replicas_addressable (some commands) es e n m named k i =
    let h : HoldsAtLeast (store_replicas true es (zero_replicas commands)) (command_name_of e) n =
      store_replicas-own true es (zero_replicas commands) e n m named
        (inr (zero_replicas-known commands (command_name_of e) k)) i in
    ground (arith, h.0, h.1)
