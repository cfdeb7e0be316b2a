-- ===== src/Operator/Queue.antt =====
-- The worker: one item of the queue and its sync (`processNextWorkItem`, `syncHandler`
-- in pkg/operator/operator.go).
use helm_operator.Base.{Bool, Option, String, false, if◌then◌else◌, none, some, true, ◌++s◌}
use helm_operator.Api.{HelmRelease}
use helm_operator.Errors.{Error, is_not_found, error, plain}
use helm_operator.Effects.{Result, ok, err, Outcome, returned, M, with_defer, ◌>>=◌}
use helm_operator.Operator.Calls.{
  Controller, Obj, EventReason, expected, invalid, failed_release_sync, release_synced,
}

module _ {W : Type 0} (c : Controller W) where
  abbrev pub lock_name : String → String → String
  lock_name namespace name = namespace ++s ("-" ++s name)

  abbrev pub reason_of : Option Error → EventReason
  reason_of none = release_synced
  reason_of (some _) = failed_release_sync

  abbrev pub recorded : HelmRelease → Option Error → M W (Option Error)
  recorded hr e w = (returned none, c.event hr (reason_of e) w)

  -- The sync of a resource that was found, and its event.
  abbrev pub sync_found : Result HelmRelease × W → Outcome (Option Error) × W
  sync_found (err e, w) =
      if is_not_found e then (returned none, c.handle_error w) else (returned (some e), w)
  sync_found (ok hr, w) = (c.sync hr >>= recorded hr) w

  abbrev pub sync_locked : String → String → Option Error × W → Outcome (Option Error) × W
  sync_locked namespace name (some _, w) = (returned none, w)
  sync_locked namespace name (none, w) =
      with_defer (λ v. sync_found (c.get namespace name v))
        (λ _. c.unlock (lock_name namespace name)) w

  abbrev pub sync_split : Result (String × String) → M W (Option Error)
  sync_split (err _) w = (returned none, c.handle_error w)
  sync_split (ok (namespace, name)) w =
      sync_locked namespace name (c.lock (lock_name namespace name) w)

  -- `syncHandler`
  unfoldable pub sync_handler : String → M W (Option Error)
  sync_handler key = sync_split (c.split_key key)

  abbrev pub finish_item : String → Option Error → M W (Option Error)
  finish_item key (some e) w = (
    returned (some (plain ("errored syncing HelmRelease '" ++s (key ++s ("': " ++s error e))))),
    w,
  )
  finish_item key none w = (returned none, c.queue_forget (expected key) w)

  -- The function that the worker calls on an item.
  abbrev pub process_item : Obj String → M W (Option Error)
  process_item invalid w = (returned none, c.handle_error (c.queue_forget invalid w))
  process_item (expected key) w = (sync_handler key >>= finish_item key) w

  abbrev pub report_error : Option Error → M W Bool
  report_error none w = (returned true, w)
  report_error (some _) w = (returned true, c.handle_error w)

  abbrev pub process_got : (Obj String × Bool) × W → Outcome Bool × W
  process_got ((_, true), w) = (returned false, w)
  process_got ((obj, false), w) =
      (with_defer (process_item obj) (λ _. c.queue_done obj) >>= report_error) w

  -- `processNextWorkItem`: whether the worker goes on.
  unfoldable pub process_next_work_item : M W Bool
  process_next_work_item w =
      let (n, w₁) = c.queue_len w in process_got (c.queue_get (c.set_queue_length n w₁))
