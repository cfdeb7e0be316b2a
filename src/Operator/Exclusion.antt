-- ===== src/Operator/Exclusion.antt =====
-- The workers exclude each other (`syncHandler` in pkg/operator/operator.go).
use helm_operator.Base.{
  Bool, Bool-cases, Option, String, ap, arith, false, if◌then◌else◌, inl, inr, none, refl, some,
  str_eq, str_eq_iff, sym, true, ℕ, ◌+◌, ◌∷◌, ◌∙◌, ◌≡◌, ◌≤◌, subst,
}
use helm_operator.Api.{HelmRelease}
use helm_operator.Errors.{Error, is_not_found}
use helm_operator.Effects.{Result, ok, err, Outcome, returned, panicked, ◌>>=◌}
use helm_operator.Kube.{Kube}
use helm_operator.Operator.Calls.{Controller, Obj, expected, invalid}
use helm_operator.Operator.Queue.{finish_item, report_error, lock_name, reason_of}
use helm_operator.Operator.Turns.{
  Stage, ready, taken, locking, reading, syncing, recording, releasing, handled, marking, reporting,
  ended, on_item, on_key, on_lock, on_resource, on_sync, advance, go_on, Workers, Turn, Runs,
}
use helm_operator.Operator.Locks.{
  LockFiles, lock_of, is_of, holders, holders-++, holders-started_workers,
}
use helm_operator.Operator.Bystanders.{added-held, updated-held, deleted-held}

module _ {W : Type 0} (c : Controller W) (kube : Kube W) (held : String → W → ℕ)
    (laws : LockFiles c kube held) where
  -- With `k` other holders of a lock file there are no more holders than the file allows.
  abbrev Within : ℕ → String → Stage × W → Type 0
  Within k m x = k + is_of c m (lock_of c x.0) ≤ held m x.1

  on_item-Within :
      (k : ℕ) (m : String) (x : (Obj String × Bool) × W) → k ≤ held m x.1 → Within k m (on_item c x)
  on_item-Within k m ((o, true), w) h = omega arith
  on_item-Within k m ((o, false), w) h = omega arith

  on_key-Within :
      (k : ℕ) (m key : String) (r : Result (String × String)) (w : W)
      → k ≤ held m w
      → Within k m (on_key c key r w)
  on_key-Within k m key (ok (ns, n)) w h = omega arith
  on_key-Within k m key (err e) w h = omega (arith, laws.failed m w)

  taken_lock :
      (k : ℕ) (m n : String) (w : W)
      → (c.lock n w).0 ≡ none
      → k ≤ held m w
      → k + is_of c m (some n) ≤ held m (c.lock n w).1
  taken_lock k m n w e h = elim (Bool-cases (str_eq n m)) [
    | inl t ↦
        let same = (str_eq_iff n m).0 t in
        let o = laws.obtained n w e in
        let a : held m w ≡ 0 = ap (λ s. held s w) (sym same) ∙ o.0 in
        let b : held m (c.lock n w).1 ≡ 1 = ap (λ s. held s (c.lock n w).1) (sym same) ∙ o.1 in
        rw t (omega arith)
    | inr f ↦
        rw f (omega (arith, laws.lock_other n m w (λ s. absurd (ground (arith, str_eq_iff n m)))))
  ]

  on_lock-Within :
      (k : ℕ) (m key ns n : String) (w : W) (e : Option Error)
      → (c.lock (lock_name c ns n) w).0 ≡ e
      → k ≤ held m w
      → Within k m (on_lock c key ns n (e, (c.lock (lock_name c ns n) w).1))
  on_lock-Within k m key ns n w none e h = taken_lock k m (lock_name c ns n) w e h
  on_lock-Within k m key ns n w (some x) e h =
      omega (arith, laws.refused (lock_name c ns n) m w x e)

  unlocked-Within :
      (k : ℕ) (m n : String) (w : W) → k + is_of c m (some n) ≤ held m w → k ≤ held m (c.unlock n w)
  unlocked-Within k m n w h = elim (Bool-cases (str_eq n m)) [
    | inl t ↦
        let at_most : k + 1 ≤ held m w = subst (λ b. k + (if b then 1 else 0) ≤ held m w) t h in
        omega (arith, laws.one m w)
    | inr f ↦
        let rest : k + 0 ≤ held m w = subst (λ b. k + (if b then 1 else 0) ≤ held m w) f h in
        omega (arith, laws.unlock_other n m w (λ s. absurd (ground (arith, str_eq_iff n m))))
  ]

  on_resource-Within :
      (k : ℕ) (m key ns n : String) (x : Result HelmRelease × W)
      → k + is_of c m (some (lock_name c ns n)) ≤ held m x.1
      → Within k m (on_resource c key ns n x)
  on_resource-Within k m key ns n (ok hr, w) h = h
  on_resource-Within k m key ns n (err e, w) h = elim (Bool-cases (is_not_found e)) [
    | inl t ↦ rw t (omega (arith, laws.failed m w))
    | inr f ↦ rw f h
  ]

  on_sync-Within :
      (k : ℕ) (m key ns n : String) (hr : HelmRelease) (x : Outcome (Option Error) × W)
      → k + is_of c m (some (lock_name c ns n)) ≤ held m x.1
      → Within k m (on_sync c key ns n hr x)
  on_sync-Within k m key ns n hr (returned e, w) h = h
  on_sync-Within k m key ns n hr (panicked, w) h = h

  finished-held :
      (m key : String) (o : Outcome (Option Error)) (w : W)
      → held m (((λ v. (o, v)) >>= finish_item c key) w).1 ≡ held m w
  finished-held m key (returned none) w = laws.forget m (expected key) w
  finished-held m key (returned (some e)) w = refl
  finished-held m key panicked w = refl

  reported-held :
      (m : String) (o : Outcome (Option Error)) (w : W)
      → held m (((λ v. (o, v)) >>= report_error c) w).1 ≡ held m w
  reported-held m (returned none) w = refl
  reported-held m (returned (some e)) w = laws.failed m w
  reported-held m panicked w = refl

  advance-Within :
      (k : ℕ) (m : String) (p : Stage) (w : W) → Within k m (p, w) → Within k m (advance c p w)
  unfolding advance
  advance-Within k m ready w h =
      let n = c.queue_len w in
      let v = c.set_queue_length n.0 n.1 in
      on_item-Within k m (c.queue_get v)
        (omega (arith, laws.got m v, laws.gauge m n.0 n.1, laws.len m w))
  advance-Within k m (taken invalid) w h =
      omega (arith, laws.failed m (c.queue_forget invalid w), laws.forget m invalid w)
  advance-Within k m (taken (expected key)) w h =
      on_key-Within k m key (c.split_key key) w (omega arith)
  advance-Within k m (locking key ns n) w h =
      on_lock-Within k m key ns n w (c.lock (lock_name c ns n) w).0 refl (omega arith)
  advance-Within k m (reading key ns n) w h =
      on_resource-Within k m key ns n (c.get ns n w) (omega (arith, laws.listed m ns n w))
  advance-Within k m (syncing key ns n hr) w h =
      on_sync-Within k m key ns n hr (c.sync hr w) (omega (arith, laws.sync m hr w))
  advance-Within k m (recording key ns n hr e) w h =
      omega (arith, laws.event m hr (reason_of c e) w)
  advance-Within k m (releasing key ns n o) w h =
      omega (arith, unlocked-Within k m (lock_name c ns n) w h)
  advance-Within k m (handled key o) w h = omega (arith, finished-held m key o w)
  advance-Within k m (marking obj o) w h = omega (arith, laws.done m obj w)
  advance-Within k m (reporting o) w h = omega (arith, reported-held m o w)
  advance-Within k m (ended o) w h = h

  go_on-Within :
      (k : ℕ) (m : String) (p : Stage) (w : W) → Within k m (p, w) → Within k m (go_on c p, w)
  unfolding go_on
  go_on-Within k m (ended (returned true)) w h = h
  go_on-Within k m (ended (returned false)) w h = h
  go_on-Within k m (ended panicked) w h = h
  go_on-Within k m ready w h = h
  go_on-Within k m (taken _) w h = h
  go_on-Within k m (locking _ _ _) w h = h
  go_on-Within k m (reading _ _ _) w h = h
  go_on-Within k m (syncing _ _ _ _) w h = h
  go_on-Within k m (recording _ _ _ _ _) w h = h
  go_on-Within k m (releasing _ _ _ _) w h = h
  go_on-Within k m (handled _ _) w h = h
  go_on-Within k m (marking _ _) w h = h
  go_on-Within k m (reporting _) w h = h

  turned-Within :
      (m : String) (s t : Workers W)
      → holders c m s.stages ≤ held m s.world
      → Turn c kube s t
      → holders c m t.stages ≤ held m t.world
  turned-Within m s _ h (Turn.worked before after p e) =
      let q = advance c (go_on c p) s.world in
      let split : holders c m s.stages
          ≡ holders c m before + (is_of c m (lock_of c p) + holders c m after) =
        ap (holders c m) e ∙ holders-++ c m before (p ∷ after) in
      let k = holders c m before + holders c m after in
      let first : k + is_of c m (lock_of c p) ≤ held m s.world = omega arith in
      let last = advance-Within k m (go_on c p) s.world (go_on-Within k m p s.world first) in
      omega (arith, last, holders-++ c m before (q.0 ∷ after))
  turned-Within m s _ h (Turn.deleted obj) =
      omega (arith, deleted-held c kube held laws m obj s.world)
  turned-Within m s _ h (Turn.added obj) = omega (arith, added-held c kube held laws m obj s.world)
  turned-Within m s _ h (Turn.updated old new) =
      omega (arith, updated-held c kube held laws m old new s.world)

  -- Whatever turns the workers and the handlers of events take, and whichever lock files were held
  -- at the start: no more than one worker is between the lock and the unlock of a lock file, and
  -- only while the file is held.
  pub Runs-IsExclusive :
      (threadiness : ℕ) (w : W) (s : Workers W)
      → Runs c kube threadiness w s
      → (m : String) → holders c m s.stages ≤ held m s.world
  Runs-IsExclusive k w _ Runs.starting m = omega (arith, holders-started_workers c m k)
  Runs-IsExclusive k w _ (Runs.after_turn {s} {t} r turn) m =
      turned-Within m s t (Runs-IsExclusive k w s r m) turn
