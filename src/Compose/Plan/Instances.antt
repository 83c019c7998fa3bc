-- ===== src/Compose/Plan/Instances.antt =====
-- cmdman/compose/plan.go: what the loop over the existing entries leaves in the map of instances and
-- among the orphans.
use cmdman.Prelude.{
  ◌≡◌, inl, inr, refl, sym, ap, subst, ◌∙◌, Bool, true, false, not, ◌&&◌, List, [], ◌∷◌, ◌++◌,
  append_assoc, append-nil, Option, none, some, if◌then◌else◌, Bool-cases, arith,
}
use cmdman.Prelude.Text.{String, str_eq, str_eq_iff, contains}
use cmdman.Prelude.Int.{ℤ}
use cmdman.Prelude.Results.{ok, >>=-ok}
use cmdman.Compose.Entry.{Entry, label_file, command_name_of}
use cmdman.Compose.Plan.{
  is_instance, find_instance, put_instance, Indexed, is_foreign, index_entry, index_entries,
}
use cmdman.Compose.Plan.Keys.{find-put, Tidy, Tidy-put}

-- The last entry of an instance among those with a stored config.
abbrev pub has_config : Entry → Bool
has_config e = elim e.labels [ none ↦ false | some labels ↦ true ]

abbrev pub prefer : Option Entry → Option Entry → Option Entry
prefer (some a) b = some a
prefer none b = b

abbrev pub latest : String → ℤ → List Entry → Option Entry
latest name index [] = none
latest name index (e ∷ es) =
    prefer (latest name index es)
      (if has_config e && is_instance name index e then some e else none)

abbrev pub orphans_of : List String → List Entry → List Entry
orphans_of wanted [] = []
orphans_of wanted (e ∷ es) =
    let rest = orphans_of wanted es in
    if has_config e && not (contains wanted (command_name_of e)) then e ∷ rest else rest

-- The first file that owns the project in place of `file`.
abbrev pub first_foreign : String → List Entry → Option String
first_foreign file [] = none
first_foreign file (e ∷ es) =
    let later = first_foreign file es in
    elim e.labels [
      | none ↦ later
      | some labels ↦
          if is_foreign file (labels label_file) then some (labels label_file) else later
    ]

-- The whole loop, by the entries alone.
pub record Indexes (file : String) (wanted : List String) (es : List Entry) (x x' : Indexed)
    : Type 0 where
  pub owned : first_foreign file es ≡ none
  pub found :
      (name : String) (index : ℤ)
      → contains wanted name ≡ true
      → find_instance name index x'.instances
        ≡ prefer (latest name index es) (find_instance name index x.instances)
  pub left_over : x'.orphans ≡ x.orphans ++ orphans_of wanted es
  pub tidy : Tidy wanted x.instances → Tidy wanted x'.instances

-- One turn that accepts the entry.
record IndexesOne (file : String) (wanted : List String) (e : Entry) (x x' : Indexed) : Type 0 where
  owned : first_foreign file (e ∷ []) ≡ none
  found :
      (name : String) (index : ℤ)
      → contains wanted name ≡ true
      → find_instance name index x'.instances ≡ (
          if has_config e && is_instance name index e
          then some e
          else find_instance name index x.instances)
  left_over : x'.orphans ≡ x.orphans ++ orphans_of wanted (e ∷ [])
  tidy : Tidy wanted x.instances → Tidy wanted x'.instances

-- The three ways in which an entry is accepted.
skip-IndexesOne :
    (file : String) (wanted : List String) (e : Entry) (x : Indexed)
    → e.labels ≡ none
    → IndexesOne file wanted e x x
skip-IndexesOne file wanted e x q = record {
  owned = rw q refl;
  found = λ name index w. rw q refl;
  left_over = rw q (sym (append-nil x.orphans));
  tidy = λ t. t;
}

put-IndexesOne :
    (file : String) (wanted : List String) (e : Entry) (x : Indexed) (labels : String → String)
    → e.labels ≡ some labels
    → is_foreign file (labels label_file) ≡ false
    → contains wanted (command_name_of e) ≡ true
    → IndexesOne file wanted e x (record x { instances = put_instance e x.instances })
put-IndexesOne file wanted e x labels q own w = record {
  owned = rw (q, own) refl;
  found = λ name index k. find-put name index e x.instances ∙ ground (arith, has_it);
  left_over = rw (w, q) (sym (append-nil x.orphans));
  tidy = Tidy-put wanted e x.instances w;
}
  where
    has_it : has_config e ≡ true
    has_it = rw q refl

orphan-IndexesOne :
    (file : String) (wanted : List String) (e : Entry) (x : Indexed) (labels : String → String)
    → e.labels ≡ some labels
    → is_foreign file (labels label_file) ≡ false
    → contains wanted (command_name_of e) ≡ false
    → IndexesOne file wanted e x (record x { orphans = x.orphans ++ (e ∷ []) })
orphan-IndexesOne file wanted e x labels q own w = record {
  owned = rw (q, own) refl;
  found = λ name index k. rw (other name k) (ground arith);
  left_over = rw (w, q) refl;
  tidy = λ t. t;
}
  where
    other : (name : String) → contains wanted name ≡ true → str_eq (command_name_of e) name ≡ false
    other name k = elim (Bool-cases (str_eq (command_name_of e) name)) [
      | inr t ↦ t
      | inl t ↦
          let u : contains wanted name ≡ false =
            rw ((str_eq_iff (command_name_of e) name).0 t) at w in
          cc
    ]

index_entry-IndexesOne :
    (file : String) (wanted : List String) (e : Entry) (x : Indexed) {x' : Indexed}
    → index_entry file wanted e x ≡ ok x'
    → IndexesOne file wanted e x x'
unfolding index_entry
index_entry-IndexesOne file wanted e x {x'} h = by_config e.labels refl
  where
    by_config : (o : Option (String → String)) → e.labels ≡ o → IndexesOne file wanted e x x'
    by_config none q =
        let same : x ≡ x' = ground (arith, rw (index_entry, q) at h) in
        subst (λ y. IndexesOne file wanted e x y) same (skip-IndexesOne file wanted e x q)
    by_config (some labels) q = elim (Bool-cases (is_foreign file (labels label_file))) [
      | inl own ↦ let no = rw (index_entry, q, own) at h in cc
      | inr own ↦ elim (Bool-cases (contains wanted (command_name_of e))) [
        | inl w ↦
            let same : record x { instances = put_instance e x.instances } ≡ x' =
              ground (arith, rw (index_entry, q, own, w) at h) in
            subst (λ y. IndexesOne file wanted e x y) same
              (put-IndexesOne file wanted e x labels q own w)
        | inr w ↦
            let same : record x { orphans = x.orphans ++ (e ∷ []) } ≡ x' =
              ground (arith, rw (index_entry, q, own, w) at h) in
            subst (λ y. IndexesOne file wanted e x y) same
              (orphan-IndexesOne file wanted e x labels q own w)
      ]
    ]

prefer_if :
    (a : Option Entry) (b : Bool) (e : Entry) (c : Option Entry)
    → prefer a (if b then some e else c) ≡ prefer (prefer a (if b then some e else none)) c
prefer_if (some x) b e c = refl
prefer_if none true e c = refl
prefer_if none false e c = refl

orphans_of_cons :
    (wanted : List String) (e : Entry) (es : List Entry)
    → orphans_of wanted (e ∷ []) ++ orphans_of wanted es ≡ orphans_of wanted (e ∷ es)
orphans_of_cons wanted e es = ground arith

pub index_entries-Indexes :
    (file : String) (wanted : List String) (es : List Entry) (x : Indexed) {x' : Indexed}
    → index_entries file wanted es x ≡ ok x'
    → Indexes file wanted es x x'
unfolding index_entries
index_entries-Indexes file wanted [] x h =
    let same : x ≡ _ = ground (arith, h) in
    subst (λ y. Indexes file wanted [] x y) same
      (record {
        owned = refl;
        found = λ name index k. refl;
        left_over = sym (append-nil x.orphans);
        tidy = λ t. t;
      })
index_entries-Indexes file wanted (e ∷ es) x h =
    let (y, p, q) = >>=-ok (index_entry file wanted e x) (index_entries file wanted es) h in
    let one : IndexesOne file wanted e x y = index_entry-IndexesOne file wanted e x p in
    let rest : Indexes file wanted es y _ = index_entries-Indexes file wanted es y q in
    record {
      owned = ground (arith, one.owned, rest.owned);
      found = λ name index k.
          rest.found name index k
          ∙ ap (prefer (latest name index es)) (one.found name index k)
          ∙ prefer_if (latest name index es) (has_config e && is_instance name index e) e
              (find_instance name index x.instances);
      left_over =
          rest.left_over
          ∙ ap (λ (o : List Entry). o ++ orphans_of wanted es) one.left_over
          ∙ append_assoc x.orphans (orphans_of wanted (e ∷ [])) (orphans_of wanted es)
          ∙ ap (λ (o : List Entry). x.orphans ++ o) (orphans_of_cons wanted e es);
      tidy = λ t. rest.tidy (one.tidy t);
    }
