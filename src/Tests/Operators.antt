-- ===== src/Tests/Operators.antt =====
-- The controller in the small cluster.
use helm_operator.Base.{
  String, arith, false, if◌then◌else◌, none, refl, some, str_eq, true, ℕ, ◌+◌, ◌-◌, ◌≡◌,
}
use helm_operator.Errors.{plain}
use helm_operator.Effects.{ok, returned}
use helm_operator.Operator.{
  Controller, Obj, expected, invalid, sync_handler, process_next_work_item,
}
use helm_operator.Operator.Items.{
  Counts, sync_handler-count, process_next_work_item-count, synced_item_forgotten,
}
use helm_operator.Tests.Cluster.{web}

-- The lock that is held, the item that is done, and how many are forgotten.
abbrev Book : Type 0
Book = ℕ × ℕ × ℕ

-- Specifications that differ in the name of the release, statuses in the revision.
abbrev compare_by {ℓ} : {A : Type ℓ} → (A → String) → A → A → String
compare_by f a b = if str_eq (f a) (f b) then "" else "differs"

-- One lock and one item are counted.
abbrev lock_weight : String → ℕ
lock_weight n = if str_eq n "apps-web" then 1 else 0

abbrev item_weight : Obj String → ℕ
item_weight invalid = 0
item_weight (expected key) = if str_eq key "apps/web" then 1 else 0

abbrev failing : Controller Book
failing = record {
  queue_len = λ w. (1, w);
  queue_get = λ w. ((expected "apps/web", false), w);
  queue_done = λ o w. (w.0, w.1 + item_weight o, w.2);
  queue_forget = λ o w. (w.0, w.1, w.2 + 1);
  add_rate_limited = λ k w. w;
  set_queue_length = λ n w. w;
  add_releases = λ n w. w;
  split_key = λ k. ok ("apps", "web");
  key_of = λ hr. ok "apps/web";
  handle_error = λ w. w;
  lock = λ n w. (none, (w.0 + lock_weight n, w.1, w.2));
  unlock = λ n w. (w.0 - lock_weight n, w.1, w.2);
  get = λ ns n w. (ok web, w);
  event = λ hr r w. w;
  diff_spec = compare_by (λ s. s.release_name);
  diff_status = compare_by (λ s. s.revision);
  diff_chart_source = λ a b. "";
  sync_mirror = λ hr w. w;
  sync = λ hr w. (returned (some (plain "no chart")), w);
  uninstall = λ hr w. (returned none, w);
}

locks_held : Counts failing (λ w. w.0)
locks_held = record {
  per_lock = lock_weight;
  per_item = λ o. 0;
  locked = λ n w h. refl;
  refused = λ n w e h. absurd (ground arith);
  unlocked = λ n w h. omega arith;
  done = λ o w. omega arith;
  len = λ w. refl;
  got = λ w. refl;
  forget = λ o w. refl;
  gauge = λ n w. refl;
  handled = λ w. refl;
  listed = λ ns n w. refl;
  event = λ hr r w. refl;
  sync = λ hr w. refl;
}

items_done : Counts failing (λ w. w.1)
items_done = record {
  per_lock = λ n. 0;
  per_item = item_weight;
  locked = λ n w h. omega arith;
  refused = λ n w e h. absurd (ground arith);
  unlocked = λ n w h. omega arith;
  done = λ o w. refl;
  len = λ w. refl;
  got = λ w. refl;
  forget = λ o w. refl;
  gauge = λ n w. refl;
  handled = λ w. refl;
  listed = λ ns n w. refl;
  event = λ hr r w. refl;
  sync = λ hr w. refl;
}

sync_handler-count_example : (sync_handler failing "apps/web" (0, 0, 0)).1.0 ≡ 0
sync_handler-count_example = sync_handler-count failing (λ w. w.0) locks_held "apps/web" (0, 0, 0)

process_next_work_item-count_example : (process_next_work_item failing (0, 0, 0)).1.1 ≡ 1
unfolding items_done
process_next_work_item-count_example =
    process_next_work_item-count failing (λ w. w.1) items_done (0, 0, 0)

synced_item_forgotten_example :
    process_next_work_item failing (0, 0, 0) ≡ (returned true, (0, 1, 1))
synced_item_forgotten_example =
    synced_item_forgotten failing "apps/web" "apps" "web" web (some (plain "no chart")) (0, 0, 0)
      (0, 0, 0) (1, 0, 0) (1, 0, 0) (1, 0, 0) refl refl refl refl refl
