-- ===== src/Program/Mirrors.antt =====
-- The syncs of the mirrors that run at a time (`SyncGit`, pkg/http/daemon/server.go).
use helm_operator.Base.{List, [], arith, refl, sym, ◌++◌, ◌∙◌, ◌∷◌, ◌≡◌, ◌≢◌}
use helm_operator.Program.Daemon.{
  Worker, Server, Step, Reachable, sync_git, claimed, syncing, synced,
}

-- The flag is set for as long as there is a goroutine, and there is at most one.
pub data Excludes : Server → Type 0 where
  idle : {s : Server} → s.syncing_git ≡ 0 → s.workers ≡ [] → Excludes s
  busy : {s : Server} (w : Worker) → s.syncing_git ≡ 1 → s.workers ≡ w ∷ [] → Excludes s

-- The only element of a list is the one between two others, and they are empty.
alone :
    (w x : Worker) (before after : List Worker)
    → w ∷ [] ≡ before ++ (x ∷ after)
    → (before ≡ []) × (after ≡ [])
alone w x [] [] e = (refl, refl)
alone w x [] (y ∷ after) e = absurd cc
alone w x (y ∷ []) after e = absurd cc
alone w x (y ∷ z ∷ before) after e = absurd cc

none_between : (x : Worker) (before after : List Worker) → [] ≢ before ++ (x ∷ after)
none_between x [] after = λ e. cc
none_between x (y ∷ before) after = λ e. cc

requested-Excludes : {s : Server} → Excludes s → Excludes (sync_git s)
unfolding sync_git
requested-Excludes (idle f w) = busy claimed (ground (arith, f)) (ground (arith, f, w))
requested-Excludes (busy x f w) = busy x (ground (arith, f)) (ground (arith, f, w))

-- A goroutine that goes on is still the only one.
moved-Excludes :
    {s : Server} (x y : Worker) (before after : List Worker)
    → s.workers ≡ before ++ (x ∷ after)
    → Excludes s
    → Excludes (record s { workers = before ++ (y ∷ after) })
moved-Excludes x y before after e (idle f w) = absurd (none_between x before after (sym w ∙ e))
moved-Excludes x y before after e (busy v f w) =
    let (p, q) = alone v x before after (sym w ∙ e) in busy y f (rw (p, q) refl)

cleared-Excludes :
    {s : Server} (before after : List Worker)
    → s.workers ≡ before ++ (synced ∷ after)
    → Excludes s
    → Excludes (record s { syncing_git = 0; workers = before ++ after })
cleared-Excludes before after e (idle f w) = absurd (none_between synced before after (sym w ∙ e))
cleared-Excludes before after e (busy v f w) =
    let (p, q) = alone v synced before after (sym w ∙ e) in idle refl (rw (p, q) refl)

step-Excludes : {s t : Server} → Excludes s → Step s t → Excludes t
step-Excludes e Step.requested = requested-Excludes e
step-Excludes e (Step.spawned before after w) = moved-Excludes claimed syncing before after w e
step-Excludes e (Step.finished before after w) = moved-Excludes syncing synced before after w e
step-Excludes e (Step.cleared before after w) = cleared-Excludes before after w e
step-Excludes (idle f w) Step.replied = idle f w
step-Excludes (busy x f w) Step.replied = busy x f w

-- However requests and goroutines follow each other, at most one goroutine syncs the mirrors, and the
-- flag is set exactly while there is one, from the request that wins it to its end.
pub Reachable-Excludes : {s : Server} → Reachable s → Excludes s
Reachable-Excludes Reachable.initial = idle refl refl
Reachable-Excludes (Reachable.after_step r step) = step-Excludes (Reachable-Excludes r) step
