-- ===== src/Compose/Plan/Planned.antt =====
-- cmdman/compose/plan.go: planning commands with different names one after the other is planning each
-- of them by the instances from before.
use cmdman.Prelude.{
  ◌≡◌, inl, inr, refl, sym, ap, ap₂, ◌∙◌, Bool, true, false, ◌||◌, List, [], ◌∷◌, ◌++◌,
  append_assoc, append-nil, Option, none, some, Bool-cases, arith,
}
use cmdman.Prelude.Text.{String, str_eq, str_eq_iff, str_eq_self, contains, Distinct}
use cmdman.Prelude.Int.{ℤ, pos}
use cmdman.Prelude.Results.{Result, ok, >>=-ok}
use cmdman.Compose.Spec.{Command}
use cmdman.Compose.Entry.{Entry, command_name_of}
use cmdman.Compose.Plan.{
  PlanError, CommandAction, find_instance, replica_count, command_by_name, plan_replicas,
  plan_names,
}
use cmdman.Compose.Plan.Actions.{
  leave, replica_actions, replica_actions_ext, plan_replicas_eq, is_planned, hash_of, named_actions,
}

-- What planning some names makes of the instances.
pub record Planned (hash : Command → Option String) (commands : List Command) (names : List String)
    (es : List Entry) (actions : List CommandAction) (left : List Entry) : Type 0 where
  pub planned : actions ≡ named_actions hash commands names (λ name i. find_instance name i es)
  pub remaining : left ≡ leave (is_planned commands names) es

find-leave :
    (test : Entry → Bool) (name : String) (i : ℤ) (es : List Entry)
    → ((e : Entry) → str_eq (command_name_of e) name ≡ true → test e ≡ false)
    → find_instance name i (leave test es) ≡ find_instance name i es
unfolding find_instance
find-leave test name i [] h = refl
find-leave test name i (e ∷ es) h = ground (arith, find-leave test name i es h, h e)

leave-leave :
    (first second : Entry → Bool) (es : List Entry)
    → leave second (leave first es) ≡ leave (λ e. first e || second e) es
leave-leave first second [] = refl
leave-leave first second (e ∷ es) = ground (arith, leave-leave first second es)

leave_ext :
    (first second : Entry → Bool) (es : List Entry)
    → ((e : Entry) → first e ≡ second e)
    → leave first es ≡ leave second es
leave_ext first second [] h = refl
leave_ext first second (e ∷ es) h = ground (arith, leave_ext first second es h, h e)

-- A command that is not planned has no replica that is.
pub is_planned-other :
    (commands : List Command) (names : List String) (name : String) (e : Entry)
    → contains names name ≡ false
    → str_eq (command_name_of e) name ≡ true
    → is_planned commands names e ≡ false
is_planned-other commands [] name e h q = refl
is_planned-other commands (x ∷ names) name e h q = ground (
  arith,
  is_planned-other commands names name e,
  h,
  q,
  str_eq_iff (command_name_of e) name,
  str_eq_iff (command_name_of e) x,
  str_eq_iff x name,
)

pub named_actions_ext :
    (hash : Command → Option String) (commands : List Command) (names : List String)
    (lookup lookup' : String → ℤ → Option Entry)
    → ((name : String) (i : ℤ) → contains names name ≡ true → lookup name i ≡ lookup' name i)
    → named_actions hash commands names lookup ≡ named_actions hash commands names lookup'
named_actions_ext hash commands [] lookup lookup' h = refl
named_actions_ext hash commands (x ∷ names) lookup lookup' h =
    ap₂ (λ (first later : List CommandAction). first ++ later)
      (replica_actions_ext (command_by_name commands x) (hash_of hash (command_by_name commands x))
        1 (replica_count (command_by_name commands x)) (lookup x) (lookup' x)
        (λ n k. h x (pos n) (rw (str_eq_self x) refl)))
      (named_actions_ext hash commands names lookup lookup'
        (λ name i m. h name i (ground (arith, m))))

named_actions-append :
    (hash : Command → Option String) (commands : List Command) (xs ys : List String)
    (lookup : String → ℤ → Option Entry)
    → named_actions hash commands (xs ++ ys) lookup
      ≡ named_actions hash commands xs lookup ++ named_actions hash commands ys lookup
named_actions-append hash commands [] ys lookup = refl
named_actions-append hash commands (x ∷ xs) ys lookup =
    let first =
      replica_actions (command_by_name commands x) (hash_of hash (command_by_name commands x)) 1
        (replica_count (command_by_name commands x)) (lookup x) in
    ap (λ (later : List CommandAction). first ++ later)
      (named_actions-append hash commands xs ys lookup)
    ∙ sym (
        append_assoc first (named_actions hash commands xs lookup)
          (named_actions hash commands ys lookup))

is_planned-append :
    (commands : List Command) (xs ys : List String) (e : Entry)
    → is_planned commands (xs ++ ys) e ≡ (is_planned commands xs e || is_planned commands ys e)
is_planned-append commands [] ys e = refl
is_planned-append commands (x ∷ xs) ys e = ground (arith, is_planned-append commands xs ys e)

-- Planning names one after the other, when none stands in both lists.
pub Planned-append :
    (hash : Command → Option String) (commands : List Command) (xs ys : List String)
    (es : List Entry) (as1 : List CommandAction) (left : List Entry) (as2 : List CommandAction)
    (last : List Entry)
    → ((s : String) → contains ys s ≡ true → contains xs s ≡ false)
    → Planned hash commands xs es as1 left
    → Planned hash commands ys left as2 last
    → Planned hash commands (xs ++ ys) es (as1 ++ as2) last
Planned-append hash commands xs ys es as1 left as2 last apart p q = record {
  planned =
      ap₂ (λ (first later : List CommandAction). first ++ later) p.planned
        (q.planned
          ∙ named_actions_ext hash commands ys _ _ (λ name i m.
            ap (find_instance name i) p.remaining
            ∙ find-leave (is_planned commands xs) name i es
                (λ e k. is_planned-other commands xs name e (apart name m) k)))
      ∙ sym (named_actions-append hash commands xs ys (λ name i. find_instance name i es));
  remaining =
      q.remaining
      ∙ ap (leave (is_planned commands ys)) p.remaining
      ∙ leave-leave (is_planned commands xs) (is_planned commands ys) es
      ∙ leave_ext _ _ es (λ e. sym (is_planned-append commands xs ys e));
}

pub subst-Planned :
    (hash : Command → Option String) (commands : List Command) (names : List String)
    (es : List Entry) (as1 as2 : List CommandAction) (left1 left2 : List Entry)
    → ◌≡◌ {A = Result PlanError (List CommandAction × List Entry)}
        (ok (as1, left1))
        (ok (as2, left2))
    → Planned hash commands names es as1 left1
    → Planned hash commands names es as2 left2
subst-Planned hash commands names es as1 as2 left1 left2 h p = record {
  planned = ground (arith, h, p.planned);
  remaining = ground (arith, h, p.remaining);
}

pub no_names-Planned :
    (hash : Command → Option String) (commands : List Command) (es : List Entry)
    → Planned hash commands [] es [] es
no_names-Planned hash commands es = record { planned = refl; remaining = sym (leave-all es) }
  where
    leave-all : (xs : List Entry) → leave (is_planned commands []) xs ≡ xs
    leave-all [] = refl
    leave-all (x ∷ xs) = ap (λ (l : List Entry). x ∷ l) (leave-all xs)

one_name-Planned :
    (hash : Command → Option String) (commands : List Command) (name h : String) (es : List Entry)
    → hash (command_by_name commands name) ≡ some h
    → Planned hash commands
        (name ∷ [])
        es
        (plan_replicas name
          (command_by_name commands name)
          h
          1
          (replica_count (command_by_name commands name))
          es).0
        (plan_replicas name
          (command_by_name commands name)
          h
          1
          (replica_count (command_by_name commands name))
          es).1
one_name-Planned hash commands name h es q =
    rw
      (plan_replicas_eq name (command_by_name commands name) h 1
        (replica_count (command_by_name commands name)) es)
      (record {
        planned =
            ap
              (λ (k : String).
                replica_actions (command_by_name commands name) k 1
                  (replica_count (command_by_name commands name)) (λ i. find_instance name i es))
              (sym hashed)
            ∙ sym (append-nil _);
        remaining = leave_ext _ _ es (λ e. ground arith);
      })
  where
    hashed : hash_of hash (command_by_name commands name) ≡ h
    hashed = rw (hash_of, q) refl

pub plan_names-Planned :
    (hash : Command → Option String) (commands : List Command) (names : List String)
    (es : List Entry) (actions : List CommandAction) (left : List Entry)
    → Distinct names
    → plan_names hash commands names es ≡ ok (actions, left)
    → Planned hash commands names es actions left
unfolding plan_names
plan_names-Planned hash commands [] es actions left d h =
    subst-Planned hash commands [] es [] actions es left h (no_names-Planned hash commands es)
plan_names-Planned hash commands (name ∷ names) es actions left d h =
    by_hash (hash (command_by_name commands name)) refl
      (λ es' a l q. plan_names-Planned hash commands names es' a l d.1 q)
  where
    apart : (s : String) → contains names s ≡ true → contains (name ∷ []) s ≡ false
    apart s m = elim (Bool-cases (str_eq name s)) [
      | inr t ↦ rw t refl
      | inl t ↦ let u : contains names name ≡ true = rw ((str_eq_iff name s).0 t) m in cc (d.0)
    ]

    by_hash :
        (o : Option String)
        → hash (command_by_name commands name) ≡ o
        → ((es' : List Entry) (a : List CommandAction) (l : List Entry)
            → plan_names hash commands names es' ≡ ok (a, l)
            → Planned hash commands names es' a l)
        → Planned hash commands (name ∷ names) es actions left
    by_hash none q rest = let no = rw (plan_names, q) at h in cc
    by_hash (some k) q rest =
        let (as1, left1) =
          plan_replicas name (command_by_name commands name) k 1
            (replica_count (command_by_name commands name)) es in
        let ((more, last), p, e) =
          >>=-ok (plan_names hash commands names left1) _ (rw (plan_names, q) at h) in
        subst-Planned hash commands (name ∷ names) es (as1 ++ more) actions last left e (
          Planned-append hash commands (name ∷ []) names es as1 left1 more last (λ s m. apart s m)
            (one_name-Planned hash commands name k es q) (rest left1 more last p))
