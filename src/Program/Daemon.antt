-- ===== src/Program/Daemon.antt =====
-- The server that syncs the git mirrors (pkg/http/daemon/server.go). A request swaps a flag and
-- starts a goroutine; the goroutine syncs and then clears the flag. `SyncMirrors` is other code.
use helm_operator.Base.{Bool, List, [], false, if◌then◌else◌, true, ℕ, ◌++◌, ◌+◌, ◌==◌, ◌∷◌, ◌≡◌}

-- A goroutine: not yet started by the request that won the flag, in `SyncMirrors`, or after it.
pub data Worker : Type 0 where
  claimed syncing synced : Worker

-- `APIServer`, with the goroutines that are under way and the requests that were answered.
pub record Server : Type 0 where
  pub syncing_git : ℕ
  pub workers : List Worker
  pub answered : ℕ

-- `atomic.CompareAndSwapUint32`
abbrev pub compare_and_swap : ℕ → ℕ → ℕ → Bool × ℕ
compare_and_swap v old new = if v == old then (true, new) else (false, v)

abbrev pub claim : Bool → List Worker → List Worker
claim swapped ws = if swapped then claimed ∷ ws else ws

-- The swap at the start of `SyncGit`
unfoldable pub sync_git : Server → Server
sync_git s =
    let (swapped, v) = compare_and_swap s.syncing_git 0 1 in
    record s { syncing_git = v; workers = claim swapped s.workers }

-- What requests and goroutines do, in any order.
pub data Step (s : Server) : Server → Type 0 where
  requested : Step s (sync_git s)
  spawned :
      (before after : List Worker)
      → s.workers ≡ before ++ (claimed ∷ after)
      → Step s (record s { workers = before ++ (syncing ∷ after) })
  finished :
      (before after : List Worker)
      → s.workers ≡ before ++ (syncing ∷ after)
      → Step s (record s { workers = before ++ (synced ∷ after) })
  cleared :
      (before after : List Worker)
      → s.workers ≡ before ++ (synced ∷ after)
      → Step s (record s { syncing_git = 0; workers = before ++ after })
  -- The status 200 and the body, whether or not a sync was started.
  replied : Step s (record s { answered = s.answered + 1 })

abbrev pub new_server : Server
new_server = record { syncing_git = 0; workers = []; answered = 0 }

pub data Reachable : Server → Type 0 where
  initial : Reachable new_server
  after_step : {s t : Server} → Reachable s → Step s t → Reachable t
