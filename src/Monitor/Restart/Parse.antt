-- ===== src/Monitor/Restart/Parse.antt =====
-- cmdman/model/restart_policy.go: which texts are restart policies.
use cmdman.Prelude.{
  ℕ, ◌≡◌, refl, sym, ap, ◌∙◌, ◌⊎◌, inl, inr, ◌↔◌, true, List, ◌∷◌, ◌++◌, Option, none, some,
  Bool-cases, arith,
}
use cmdman.Prelude.Bytes.{equal, equal_iff, cut, cut_join, cut_whole}
use cmdman.Prelude.Int.{ℤ, pos, negsuc}
use cmdman.Prelude.Numbers.{codes, atoi_bytes}
use cmdman.Prelude.Results.{Result, ok, err}
use cmdman.Monitor.Restart.{
  RestartPolicy, RestartError, is_restart_policy, retry_count, with_count, restart_count_of,
  parse_restart_policy,
}

-- How a policy with its count of retries is written: one of the three names alone, and the count is
-- 0, or "on-failure:" with a number behind it.
abbrev pub Spells : List ℕ → RestartPolicy → ℕ → Type 0
Spells s p n =
    ((s ≡ p) × (n ≡ 0) × ((p ≡ codes "no") ⊎ (p ≡ codes "on-failure") ⊎ (p ≡ codes "always")))
    ⊎ ((p ≡ codes "on-failure")
        × (count : List ℕ) × (s ≡ codes "on-failure:" ++ count)
        × (atoi_bytes count ≡ some (pos n)))

retry_count-ok : (o : Option ℤ) (n : ℕ) → retry_count o ≡ ok n → o ≡ some (pos n)
unfolding retry_count
retry_count-ok none n h = cc
retry_count-ok (some (pos m)) n h = ground (arith, h)
retry_count-ok (some (negsuc m)) n h = cc

with_count-ok :
    (p q : RestartPolicy) (r : Result RestartError ℕ) (n : ℕ)
    → with_count p r ≡ ok (q, n)
    → (p ≡ q) × (r ≡ ok n)
with_count-ok p q (ok m) n h = ground (arith, h)
with_count-ok p q (err e) n h = cc

restart_count_of-ok :
    (p q : RestartPolicy) (count : List ℕ) (n : ℕ)
    → restart_count_of p count ≡ ok (q, n)
    → (p ≡ q) × (p ≡ codes "on-failure") × (atoi_bytes count ≡ some (pos n))
unfolding restart_count_of
restart_count_of-ok p q count n h = elim (Bool-cases (equal p (codes "on-failure"))) [
  | inl e ↦
      let (same, counted) =
        with_count-ok p q (retry_count (atoi_bytes count)) n (rw (restart_count_of, e) at h) in
      (same, (equal_iff p _).0 e, retry_count-ok (atoi_bytes count) n counted)
  | inr e ↦ let no = rw (restart_count_of, e) at h in cc
]

is_restart_policy-name :
    (p : List ℕ)
    → is_restart_policy p ≡ true
    → (p ≡ codes "no") ⊎ (p ≡ codes "on-failure") ⊎ (p ≡ codes "always")
unfolding is_restart_policy
is_restart_policy-name p h = elim (Bool-cases (equal p (codes "no"))) [
  | inl e ↦ inl ((equal_iff p _).0 e)
  | inr e ↦ elim (Bool-cases (equal p (codes "on-failure"))) [
    | inl f ↦ inr (inl ((equal_iff p _).0 f))
    | inr f ↦ inr (inr ((equal_iff p _).0 (rw (e, f) at h)))
  ]
]

parse_restart_policy_sound :
    (s : List ℕ) (p : RestartPolicy) (n : ℕ) → parse_restart_policy s ≡ ok (p, n) → Spells s p n
unfolding parse_restart_policy
parse_restart_policy_sound s p n h = elim (Bool-cases (is_restart_policy (cut b':' s).before)) [
  | inr k ↦ let no = rw (parse_restart_policy, k) at h in cc
  | inl k ↦ elim (Bool-cases (cut b':' s).found) [
    | inl f ↦
        let (same, kind, number) =
          restart_count_of-ok (cut b':' s).before p (cut b':' s).after n
            (rw (parse_restart_policy, k, f) at h) in
        inr (
          sym same ∙ kind,
          (cut b':' s).after,
          cut_join b':' s f ∙ ap (λ (l : List ℕ). l ++ (b':' ∷ (cut b':' s).after)) kind,
          number,
        )
    | inr f ↦
        let done = rw (parse_restart_policy, k, f) at h in
        let whole : (cut b':' s).before ≡ s = cut_whole b':' s f in
        let same : s ≡ p = cc (whole, done) in
        inl (same, cc, is_restart_policy-name p (rw (whole, same) at k))
  ]
]

name_alone :
    (p : RestartPolicy)
    → (p ≡ codes "no") ⊎ (p ≡ codes "on-failure") ⊎ (p ≡ codes "always")
    → parse_restart_policy p ≡ ok (p, 0)
unfolding parse_restart_policy is_restart_policy
name_alone p (inl e) = rw e refl
name_alone p (inr (inl e)) = rw e refl
name_alone p (inr (inr e)) = rw e refl

with_number :
    (count : List ℕ) (n : ℕ)
    → atoi_bytes count ≡ some (pos n)
    → parse_restart_policy (codes "on-failure:" ++ count) ≡ ok (codes "on-failure", n)
unfolding parse_restart_policy is_restart_policy restart_count_of retry_count
with_number count n h = rw h refl

-- A text parses to a policy and a count exactly when it spells them: it is one of the names "no",
-- "on-failure" and "always" and the count is 0, or it is "on-failure:" with a number behind it that
-- `Atoi` reads as the count.
pub parse_restart_policy-Spells :
    (s : List ℕ) (p : RestartPolicy) (n : ℕ) → parse_restart_policy s ≡ ok (p, n) ↔ Spells s p n
parse_restart_policy-Spells s p n = (parse_restart_policy_sound s p n, spelled)
  where
    spelled : Spells s p n → parse_restart_policy s ≡ ok (p, n)
    spelled (inl (same, none_left, name)) = rw (same, none_left) (name_alone p name)
    spelled (inr (kind, count, text, number)) = rw (text, kind) (with_number count n number)
