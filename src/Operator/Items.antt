-- ===== src/Operator/Items.antt =====
-- What becomes of an item of the queue and of its lock (`processNextWorkItem`, `syncHandler`
-- in pkg/operator/operator.go).
use helm_operator.Base.{
  Bool, Bool-cases, Option, String, ap, arith, false, if◌then◌else◌, inl, inr, none, refl, some,
  true, ℕ, ◌+◌, ◌∙◌, ◌≡◌, ◌≤◌,
}
use helm_operator.Api.{HelmRelease}
use helm_operator.Errors.{Error, is_not_found}
use helm_operator.Effects.{Result, ok, err, Outcome, returned, panicked, ◌>>=◌}
use helm_operator.Operator.Calls.{Controller, Obj, EventReason, expected, invalid}
use helm_operator.Operator.Queue.{
  recorded, sync_handler, sync_locked, sync_found, process_next_work_item, process_item,
  process_got, finish_item, report_error, lock_name, reason_of, sync_split,
}

-- A number of the world that no call of the controller changes, but for those that the fields
-- `locked`, `unlocked` and `done` say: each lock has a weight of its own, which is added when it is
-- obtained and taken away when it is released, and each item one that is added when it is done.
pub record Counts {W : Type 0} (c : Controller W) (count : W → ℕ) : Type 0 where
  pub per_lock : String → ℕ
  pub per_item : Obj String → ℕ
  pub locked :
      (n : String) (w : W) → (c.lock n w).0 ≡ none → count (c.lock n w).1 ≡ count w + per_lock n
  pub refused :
      (n : String) (w : W) (e : Error) → (c.lock n w).0 ≡ some e → count (c.lock n w).1 ≡ count w
  pub unlocked :
      (n : String) (w : W) → per_lock n ≤ count w → count (c.unlock n w) + per_lock n ≡ count w
  pub done : (o : Obj String) (w : W) → count (c.queue_done o w) ≡ count w + per_item o
  pub len : (w : W) → count (c.queue_len w).1 ≡ count w
  pub got : (w : W) → count (c.queue_get w).1 ≡ count w
  pub forget : (o : Obj String) (w : W) → count (c.queue_forget o w) ≡ count w
  pub gauge : (n : ℕ) (w : W) → count (c.set_queue_length n w) ≡ count w
  pub handled : (w : W) → count (c.handle_error w) ≡ count w
  pub listed : (ns n : String) (w : W) → count (c.get ns n w).1 ≡ count w
  pub event : (hr : HelmRelease) (r : EventReason) (w : W) → count (c.event hr r w) ≡ count w
  pub sync : (hr : HelmRelease) (w : W) → count (c.sync hr w).1 ≡ count w

module _ {W : Type 0} (c : Controller W) (count : W → ℕ) (laws : Counts c count) where
  synced-count :
      (hr : HelmRelease) (o : Outcome (Option Error)) (w : W)
      → count (((λ v. (o, v)) >>= recorded c hr) w).1 ≡ count w
  synced-count hr (returned e) w = laws.event hr (reason_of c e) w
  synced-count hr panicked w = refl

  found-count : (x : Result HelmRelease × W) → count (sync_found c x).1 ≡ count x.1
  found-count (err e, w) = elim (Bool-cases (is_not_found e)) [
    | inl h ↦ rw h (laws.handled w)
    | inr h ↦ rw h refl
  ]
  found-count (ok hr, w) = let x = c.sync hr w in synced-count hr x.0 x.1 ∙ laws.sync hr w

  locked-count :
      (ns n : String) (w : W) (e : Option Error)
      → (c.lock (lock_name c ns n) w).0 ≡ e
      → count (sync_locked c ns n (e, (c.lock (lock_name c ns n) w).1)).1 ≡ count w
  locked-count ns n w (some e) h = laws.refused (lock_name c ns n) w e h
  locked-count ns n w none h =
      let v = (c.lock (lock_name c ns n) w).1 in
      let u = (sync_found c (c.get ns n v)).1 in
      let held : count u ≡ count w + laws.per_lock (lock_name c ns n) =
        found-count (c.get ns n v) ∙ laws.listed ns n v ∙ laws.locked (lock_name c ns n) w h in
      omega (arith, laws.unlocked (lock_name c ns n) u (omega arith))

  split-count : (r : Result (String × String)) (w : W) → count (sync_split c r w).1 ≡ count w
  split-count (err _) w = laws.handled w
  split-count (ok (ns, n)) w = locked-count ns n w (c.lock (lock_name c ns n) w).0 refl

  -- However a sync ends, by a panic too, it releases the lock that it took, and no other: whatever
  -- the weights of the locks are, the weight of those that are held is what it was.
  pub sync_handler-count : (key : String) (w : W) → count (sync_handler c key w).1 ≡ count w
  unfolding sync_handler
  sync_handler-count key w = split-count (c.split_key key) w

  finished-count :
      (key : String) (o : Outcome (Option Error)) (w : W)
      → count (((λ v. (o, v)) >>= finish_item c key) w).1 ≡ count w
  finished-count key (returned none) w = laws.forget (expected key) w
  finished-count key (returned (some e)) w = refl
  finished-count key panicked w = refl

  item-count : (o : Obj String) (w : W) → count (process_item c o w).1 ≡ count w
  item-count invalid w = laws.handled (c.queue_forget invalid w) ∙ laws.forget invalid w
  item-count (expected key) w =
      let x = sync_handler c key w in finished-count key x.0 x.1 ∙ sync_handler-count key w

  reported-count :
      (o : Outcome (Option Error)) (w : W)
      → count (((λ v. (o, v)) >>= report_error c) w).1 ≡ count w
  reported-count (returned none) w = refl
  reported-count (returned (some e)) w = laws.handled w
  reported-count panicked w = refl

  got-count :
      (x : (Obj String × Bool) × W)
      → count (process_got c x).1 ≡ count x.1 + (if x.0.1 then 0 else laws.per_item x.0.0)
  got-count ((o, true), w) = omega arith
  got-count ((o, false), w) =
      let x = process_item c o w in
      reported-count x.0 (c.queue_done o x.1)
      ∙ laws.done o x.1
      ∙ ap (λ n. n + laws.per_item o) (item-count o w)

  -- The worker marks the item that it gets as done once, and no other, however its sync ends, by a
  -- panic too, and marks none where the queue is shut down: whatever the weights of the items are,
  -- that of the item is added to those that are done.
  pub process_next_work_item-count :
      (w : W)
      → let n = c.queue_len w in
        let got = c.queue_get (c.set_queue_length n.0 n.1) in
        count (process_next_work_item c w).1
        ≡ count w + (if got.0.1 then 0 else laws.per_item got.0.0)
  unfolding process_next_work_item
  process_next_work_item-count w =
      let n = c.queue_len w in
      let got = c.queue_get (c.set_queue_length n.0 n.1) in
      got-count got
      ∙ ap (λ k. k + (if got.0.1 then 0 else laws.per_item got.0.0))
          (laws.got (c.set_queue_length n.0 n.1) ∙ laws.gauge n.0 n.1 ∙ laws.len w)

-- An item whose resource was found is forgotten by the queue once its sync has returned, whether
-- the sync succeeded or failed, so that a failure is not tried again before the next event.
pub synced_item_forgotten :
    {W : Type 0} (c : Controller W) (key namespace name : String) (hr : HelmRelease)
    (result : Option Error) (w w₁ w₂ w₃ w₄ : W)
    → c.queue_get (c.set_queue_length (c.queue_len w).0 (c.queue_len w).1)
      ≡ ((expected key, false), w₁)
    → c.split_key key ≡ ok (namespace, name)
    → c.lock (lock_name c namespace name) w₁ ≡ (none, w₂)
    → c.get namespace name w₂ ≡ (ok hr, w₃)
    → c.sync hr w₃ ≡ (returned result, w₄)
    → process_next_work_item c w ≡ (
      returned true,
      c.queue_done (expected key) (
          c.queue_forget
            (expected key)
            (c.unlock (lock_name c namespace name) (c.event hr (reason_of c result) w₄))),
    )
unfolding process_next_work_item sync_handler
synced_item_forgotten {W = W} c key ns name hr result w w₁ w₂ w₃ w₄ g s l f y =
    ap (process_got c) g
    ∙ ap after (
        ap (λ r. sync_split c r w₁) s
        ∙ ap (sync_locked c ns name) l
        ∙ ap (λ x. unlocked (sync_found c x)) f
        ∙ ap (λ x. unlocked (synced x)) y)
  where
    after : Outcome (Option Error) × W → Outcome Bool × W
    after x =
        let (o, v) = ((λ v. (x.0, v)) >>= finish_item c key) x.1 in
        ((λ v. (o, v)) >>= report_error c) (c.queue_done (expected key) v)

    unlocked : Outcome (Option Error) × W → Outcome (Option Error) × W
    unlocked x = (x.0, c.unlock (lock_name c ns name) x.1)

    synced : Outcome (Option Error) × W → Outcome (Option Error) × W
    synced x = ((λ v. (x.0, v)) >>= recorded c hr) x.1
