-- ===== src/Tests/Programs.antt =====
-- A program in the small cluster, and a server with a request.
use helm_operator.Base.{[], if◌then◌else◌, none, refl, some, str_eq, ℕ, ◌+◌, ◌∷◌, ◌≡◌}
use helm_operator.Effects.{ok}
use helm_operator.Program.{
  Flags, System, default_flags, enabled_versions, start_helm, Reachable, Step, sync_git, new_server,
  split, write, cut_newline, get_env_as_slice,
}
use helm_operator.Program.Versions.{Starts, start_helm-Starts, has_v3}
use helm_operator.Program.Mirrors.{Excludes, Reachable-Excludes}
use helm_operator.Tests.Cluster.{client_of, release_of}

abbrev system : System ℕ
system = record {
  lookup_env = λ key. if str_eq key "HELM_VERSION" then some "v2,v3" else none;
  build_config = λ master path w. (none, w + 1);
  new_kube_client = λ w. (none, w + 1);
  new_if_client = λ w. (none, w + 1);
  helm_v3_client = client_of (ok none) (ok (some (release_of 1)));
}

abbrev flags : Flags
flags = record default_flags { versioned_helm_repository_indexes = "v3:/tmp/index.yaml" ∷ [] }

start_helm-Starts_example :
    Starts system (has_v3 (enabled_versions flags system.lookup_env)) (start_helm system flags 0).0
start_helm-Starts_example = start_helm-Starts system flags 0

enabled_by_environment : enabled_versions flags system.lookup_env ≡ "v2" ∷ "v3" ∷ []
unfolding enabled_versions get_env_as_slice split
enabled_by_environment = refl

index_imported : (start_helm system flags 0).1 ≡ 1
unfolding start_helm enabled_versions get_env_as_slice split
index_imported = refl

newline_cut : write (104 ∷ 105 ∷ 10 ∷ []) ≡ (104 ∷ 105 ∷ [], 3)
unfolding cut_newline
newline_cut = refl

requested_twice : Reachable (sync_git (sync_git new_server))
requested_twice =
    Reachable.after_step (Reachable.after_step Reachable.initial Step.requested) Step.requested

Reachable-Excludes_example : Excludes (sync_git (sync_git new_server))
Reachable-Excludes_example = Reachable-Excludes requested_twice
