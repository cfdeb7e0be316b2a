-- ===== src/Tests/Workers.antt =====
-- Two workers that want the same resource.
use helm_operator.Base.{
  Bool, Bool-cases, Option, String, [], arith, false, if◌then◌else◌, inl, inr, none, not, refl,
  some, str_eq, str_eq_iff, true, ℕ, ◌&&◌, ◌||◌, ◌∷◌, ◌≡◌, ◌≤◌, ◌≢◌, sym,
}
use helm_operator.Errors.{Error, plain}
use helm_operator.Kube.{Kube}
use helm_operator.Status.Retry.{retries}
use helm_operator.Effects.{ok, returned}
use helm_operator.Operator.{
  Controller, Workers, Turn, Runs, advance, go_on, expected, ready, taken, locking, reading,
  handled,
}
use helm_operator.Operator.Locks.{LockFiles, holders}
use helm_operator.Operator.Exclusion.{Runs-IsExclusive}
use helm_operator.Tests.Cluster.{web}

-- The names of the lock files that are held.
abbrev Files : Type 0
Files = String → Bool

abbrev lock_file : String → Bool → Files → Option Error × Files
lock_file n true w = (some (plain "held"), w)
lock_file n false w = (none, λ m. str_eq m n || w m)

abbrev busy : Controller Files
busy = record {
  queue_len = λ w. (1, w);
  queue_get = λ w. ((expected "apps/web", false), w);
  queue_done = λ o w. w;
  queue_forget = λ o w. w;
  add_rate_limited = λ k w. w;
  set_queue_length = λ n w. w;
  add_releases = λ n w. w;
  split_key = λ k. ok ("apps", "web");
  key_of = λ hr. ok "apps/web";
  handle_error = λ w. w;
  lock = λ n w. lock_file n (w n) w;
  unlock = λ n w m. not (str_eq m n) && w m;
  get = λ ns n w. (ok web, w);
  event = λ hr r w. w;
  diff_spec = λ a b. "";
  diff_status = λ a b. "";
  diff_chart_source = λ a b. "";
  sync_mirror = λ hr w. w;
  sync = λ hr w. (returned none, w);
  uninstall = λ hr w. (returned none, w);
}

abbrev files_kube : Kube Files
files_kube = record {
  get = λ ns name w. (ok web, w);
  update_status = λ ns hr w. (ok hr, w);
  retry_on_conflict = retries 4;
  now = λ w. 0;
  gauge = λ op w. w;
}

abbrev held : String → Files → ℕ
held n w = if w n then 1 else 0

file_obtained :
    (n : String) (w : Files) (b : Bool)
    → w n ≡ b
    → (lock_file n b w).0 ≡ none
    → (held n w ≡ 0) × (held n (lock_file n b w).1 ≡ 1)
file_obtained n w true e h = absurd (ground arith)
file_obtained n w false e h = let same = (str_eq_iff n n).1 refl in (ground arith, ground arith)

file_refused :
    (n m : String) (w : Files) (e : Error) (b : Bool)
    → (lock_file n b w).0 ≡ some e
    → held m (lock_file n b w).1 ≡ held m w
file_refused n m w e true h = refl
file_refused n m w e false h = absurd (ground arith)

file_other : (n m : String) (w : Files) (b : Bool) → n ≢ m → held m (lock_file n b w).1 ≡ held m w
file_other n m w true d = refl
file_other n m w false d = elim (Bool-cases (str_eq m n)) [
  | inl t ↦ absurd (d (sym ((str_eq_iff m n).0 t)))
  | inr f ↦ rw f refl
]

file_released : (n m : String) (w : Files) → n ≢ m → held m (busy.unlock n w) ≡ held m w
file_released n m w d = elim (Bool-cases (str_eq m n)) [
  | inl t ↦ absurd (d (sym ((str_eq_iff m n).0 t)))
  | inr f ↦ rw f refl
]

files_are_locked : LockFiles busy files_kube held
files_are_locked = record {
  obtained = λ n w h. file_obtained n w (w n) refl h;
  refused = λ n m w e h. file_refused n m w e (w n) h;
  lock_other = λ n m w d. file_other n m w (w n) d;
  unlock_other = λ n m w d. file_released n m w d;
  one = λ n w. ground arith;
  len = λ m w. refl;
  got = λ m w. refl;
  done = λ m o w. refl;
  forget = λ m o w. refl;
  limited = λ m k w. refl;
  gauge = λ m k w. refl;
  releases = λ m i w. refl;
  failed = λ m w. refl;
  listed = λ m ns n w. refl;
  event = λ m hr r w. refl;
  mirror = λ m hr w. refl;
  uninstalled = λ m hr w. refl;
  conditions = λ m op w. refl;
  sync = λ m hr w. refl;
}

abbrev unlocked : Files
unlocked n = false

abbrev first_locks : Workers Files
first_locks = record {
  world = λ m. str_eq m "apps-web" || false;
  stages = reading "apps/web" "apps" "web" ∷ ready ∷ [];
}

abbrev second_fails : Workers Files
second_fails = record first_locks {
  stages = reading "apps/web" "apps" "web" ∷ handled "apps/web" (returned none) ∷ [];
}

first-Runs : Runs busy files_kube 2 unlocked first_locks
unfolding advance go_on
first-Runs =
    Runs.after_turn
      (Runs.after_turn (Runs.after_turn Runs.starting (Turn.worked [] (ready ∷ []) ready refl))
        (Turn.worked [] (ready ∷ []) (taken (expected "apps/web")) refl))
      (Turn.worked [] (ready ∷ []) (locking "apps/web" "apps" "web") refl)

second-Runs : Runs busy files_kube 2 unlocked second_fails
unfolding advance go_on
second-Runs =
    let first = reading "apps/web" "apps" "web" ∷ [] in
    Runs.after_turn
      (Runs.after_turn (Runs.after_turn first-Runs (Turn.worked first [] ready refl))
        (Turn.worked first [] (taken (expected "apps/web")) refl))
      (Turn.worked first [] (locking "apps/web" "apps" "web") refl)

Runs-IsExclusive_example : holders busy "apps-web" second_fails.stages ≤ 1
Runs-IsExclusive_example =
    Runs-IsExclusive busy files_kube held files_are_locked 2 unlocked second_fails second-Runs
      "apps-web"
