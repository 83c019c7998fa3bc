-- ===== src/Compose/Plan/Actions.antt =====
-- cmdman/compose/plan.go: the loops over the layers plan every replica by the instance that the
-- entries have for it, and leave the other instances.
use cmdman.Prelude.{
  ℕ, zero, suc, ◌+◌, ◌≤◌, ◌<◌, ◌≡◌, refl, sym, ap, ap₂, Bool, false, ◌&&◌, ◌||◌, List, [], ◌∷◌,
  ◌++◌, Option, none, some, if◌then◌else◌, ltb, leb, arith,
}
use cmdman.Prelude.Text.{String, str_eq}
use cmdman.Prelude.Int.{ℤ, pos, negsuc}
use cmdman.Compose.Spec.{Command}
use cmdman.Compose.Entry.{Entry, command_name_of, scale_index_of}
use cmdman.Compose.Plan.{
  CommandAction, same_int, find_instance, delete_instance, replica_action, replica_count,
  command_by_name, plan_replicas,
}

-- The entries that a test does not take.
abbrev pub leave : (Entry → Bool) → List Entry → List Entry
leave test [] = []
leave test (e ∷ es) = let rest = leave test es in if test e then rest else e ∷ rest

-- An index from `index` on, of `count` ones.
abbrev pub in_span : ℕ → ℕ → ℤ → Bool
in_span index count (pos n) = leb index n && ltb n (index + count)
in_span index count (negsuc n) = false

abbrev pub is_replica : String → ℕ → ℕ → Entry → Bool
is_replica name index count e =
    str_eq (command_name_of e) name && in_span index count (scale_index_of e)

-- The actions for the replicas from `index` on, when the instances are looked up by `lookup`.
abbrev pub replica_actions : Command → String → ℕ → ℕ → (ℤ → Option Entry) → List CommandAction
replica_actions desired hash index zero lookup = []
replica_actions desired hash index (suc count) lookup =
    replica_action desired hash index (lookup (pos index))
    ∷ replica_actions desired hash (suc index) count lookup

pub replica_actions_ext :
    (desired : Command) (hash : String) (index count : ℕ) (lookup lookup' : ℤ → Option Entry)
    → ((n : ℕ) → index ≤ n → lookup (pos n) ≡ lookup' (pos n))
    → replica_actions desired hash index count lookup
      ≡ replica_actions desired hash index count lookup'
replica_actions_ext desired hash index zero lookup lookup' h = refl
replica_actions_ext desired hash index (suc count) lookup lookup' h =
    ap₂
      (λ (o : Option Entry) (later : List CommandAction).
        replica_action desired hash index o ∷ later)
      (h index (omega arith))
      (replica_actions_ext desired hash (suc index) count lookup lookup'
        (λ n k. h n (omega (arith, k))))

find-delete :
    (name : String) (i j : ℕ) (es : List Entry)
    → i < j
    → find_instance name (pos j) (delete_instance name (pos i) es) ≡ find_instance name (pos j) es
unfolding find_instance delete_instance
find-delete name i j [] h = refl
find-delete name i j (e ∷ es) h =
    ground (arith, find-delete name i j es, apart (scale_index_of e), h)
  where
    apart : (k : ℤ) → (same_int k (pos i) && same_int k (pos j)) ≡ false
    apart (pos k) = ground (arith, h)
    apart (negsuc k) = refl

leave-delete :
    (name : String) (index count : ℕ) (es : List Entry)
    → leave (is_replica name (suc index) count) (delete_instance name (pos index) es)
      ≡ leave (is_replica name index (suc count)) es
unfolding delete_instance
leave-delete name index count [] = refl
leave-delete name index count (e ∷ es) =
    ground (arith, leave-delete name index count es, span (scale_index_of e))
  where
    span :
        (k : ℤ)
        → in_span index (suc count) k ≡ (same_int k (pos index) || in_span (suc index) count k)
    span (pos k) = ground arith
    span (negsuc k) = refl

leave-none : (name : String) (index : ℕ) (es : List Entry) → leave (is_replica name index 0) es ≡ es
leave-none name index [] = refl
leave-none name index (e ∷ es) = ground (arith, leave-none name index es, span (scale_index_of e))
  where
    span : (k : ℤ) → in_span index 0 k ≡ false
    span (pos k) = ground arith
    span (negsuc k) = refl

pub plan_replicas_eq :
    (name : String) (desired : Command) (hash : String) (index count : ℕ) (es : List Entry)
    → plan_replicas name desired hash index count es ≡ (
      replica_actions desired hash index count (λ i. find_instance name i es),
      leave (is_replica name index count) es,
    )
unfolding plan_replicas
plan_replicas_eq name desired hash index zero es =
    let no_actions : List CommandAction = [] in
    ap (λ (l : List Entry). (no_actions, l)) (sym (leave-none name index es))
plan_replicas_eq name desired hash index (suc count) es =
    rw (plan_replicas_eq name desired hash (suc index) count (delete_instance name (pos index) es))
      (ap₂
        (λ (later : List CommandAction) (l : List Entry).
          (replica_action desired hash index (find_instance name (pos index) es) ∷ later, l))
        (replica_actions_ext desired hash (suc index) count _ _
          (λ n h. find-delete name index n es h))
        (leave-delete name index count es))

-- The replicas of the named commands, and the actions for them.
abbrev pub is_planned : List Command → List String → Entry → Bool
is_planned commands [] e = false
is_planned commands (name ∷ names) e =
    is_replica name 1 (replica_count (command_by_name commands name)) e
    || is_planned commands names e

abbrev pub hash_of : (Command → Option String) → Command → String
hash_of hash c = elim (hash c) [ none ↦ "" | some h ↦ h ]

abbrev pub named_actions :
    (Command → Option String)
    → List Command
    → List String
    → (String → ℤ → Option Entry)
    → List CommandAction
named_actions hash commands [] lookup = []
named_actions hash commands (name ∷ names) lookup =
    replica_actions (command_by_name commands name) (hash_of hash (command_by_name commands name)) 1
      (replica_count (command_by_name commands name)) (lookup name)
    ++ named_actions hash commands names lookup
