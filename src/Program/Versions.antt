-- ===== src/Program/Versions.antt =====
-- The clients that the program starts with (`main`, cmd/helm-operator/main.go).
use helm_operator.Base.{
  Bool, List, Option, String, [], ap, arith, false, get_or, if◌then◌else◌, lookup-put, none, refl,
  some, str_eq, str_eq_iff, true, ◌&&◌, ◌||◌, ◌∙◌, ◌∷◌, ◌≡◌,
}
use helm_operator.Api.{HelmRelease, get_helm_version}
use helm_operator.Effects.{returned, panicked, Outcome}
use helm_operator.Helm.{Client}
use helm_operator.HelmV3.{version_v3}
use helm_operator.Release.{Clients, load, add}
use helm_operator.Program.Options.{Flags, enabled_versions}
use helm_operator.Program.Startup.{
  System, Services, Started, make_clients, start_helm, with_default, make_client, exited, running,
}

-- Whether the version of the client of Helm 3 is among those that are enabled.
abbrev pub has_v3 : List String → Bool
has_v3 [] = false
has_v3 (v ∷ vs) = str_eq v version_v3 || has_v3 vs

module _ {W : Type 0} (sys : System W) where
  load-add :
      (cs : Clients W) (k : String)
      → load (add cs version_v3 sys.helm_v3_client) k
        ≡ (if str_eq version_v3 k then some sys.helm_v3_client else load cs k)
  unfolding load add
  load-add cs k = lookup-put k version_v3 sys.helm_v3_client cs

  abbrev served : Bool → String → Clients W → Option (Client W)
  served b k cs = if b && str_eq version_v3 k then some sys.helm_v3_client else load cs k

  load-make_client :
      (b c : Bool) (v k : String) (s : Clients W × Option String)
      → served c k (make_client sys b v s).0 ≡ served (b || c) k s.0
  load-make_client true true v k s = ground (arith, load-add s.0 k)
  load-make_client true false v k s = load-add s.0 k
  load-make_client false c v k s = refl

  make_clients-load :
      (vs : List String) (k : String) (s : Clients W × Option String)
      → load (make_clients sys vs s).0 k ≡ served (has_v3 vs) k s.0
  unfolding make_clients
  make_clients-load [] k s = refl
  make_clients-load (v ∷ vs) k s =
      make_clients-load vs k (make_client sys (str_eq v version_v3) v s)
      ∙ load-make_client (str_eq v version_v3) (has_v3 vs) v k s

  abbrev defaulted : Bool → Option String → Option String
  defaulted b d = if b then some (get_or d version_v3) else d

  default-make_client :
      (b c : Bool) (v : String) (s : Clients W × Option String)
      → (b ≡ true → v ≡ version_v3)
      → defaulted c (make_client sys b v s).1 ≡ defaulted (b || c) s.1
  default-make_client true true v s h = ap (λ u. some (get_or s.1 u)) (h refl)
  default-make_client true false v s h = ap (λ u. some (get_or s.1 u)) (h refl)
  default-make_client false c v s h = refl

  make_clients-default :
      (vs : List String) (s : Clients W × Option String)
      → (make_clients sys vs s).1 ≡ defaulted (has_v3 vs) s.1
  unfolding make_clients
  make_clients-default [] s = refl
  make_clients-default (v ∷ vs) s =
      make_clients-default vs (make_client sys (str_eq v version_v3) v s)
      ∙ default-make_client (str_eq v version_v3) (has_v3 vs) v s (str_eq_iff v version_v3).0

  abbrev enabled_v3 : Flags → Bool
  enabled_v3 fs = has_v3 (enabled_versions fs sys.lookup_env)

  -- What a running operator serves: a release that names no version or that of Helm 3.
  abbrev pub Serves : Services W → Type 0
  Serves o =
      (hr : HelmRelease)
      → load o.clients (get_helm_version hr o.default_helm_version) ≡ (
          if str_eq version_v3 (get_helm_version hr version_v3)
          then some sys.helm_v3_client
          else none)

  -- The result of a start once the clients of the cluster are there.
  abbrev pub Starts : Bool → Outcome (Started W) → Type 0
  Starts enabled panicked = enabled ≡ false
  Starts enabled (returned (exited n)) = ⊥
  Starts enabled (returned (running o)) = (enabled ≡ true) × Serves o

  default_of :
      (fs : Flags) (cs : Clients W) (b : Bool) (d : Option String)
      → d ≡ defaulted b none
      → ((k : String) → load cs k ≡ served b k [])
      → Starts b (with_default sys fs cs d)
  unfolding load
  default_of fs cs true none e l = absurd cc
  default_of fs cs true (some v) e l = (refl, λ hr. serves_with v hr cc)
    where
      serves_with :
          (u : String) (hr : HelmRelease)
          → u ≡ version_v3
          → load cs (get_helm_version hr u) ≡ (
              if str_eq version_v3 (get_helm_version hr version_v3)
              then some sys.helm_v3_client
              else none)
      serves_with u hr h =
          ap (λ x. load cs (get_helm_version hr x)) h ∙ l (get_helm_version hr version_v3)
  default_of fs cs false none e l = refl
  default_of fs cs false (some v) e l = absurd cc

  -- Once the clients of the cluster are there, the program panics where the version of Helm 3 is not
  -- among the versions that are enabled. Where it is, the operator runs, and has a client for each
  -- release that names no version or that of Helm 3, and for no other.
  pub start_helm-Starts :
      (fs : Flags) (w : W)
      → Starts (has_v3 (enabled_versions fs sys.lookup_env)) (start_helm sys fs w).0
  unfolding start_helm
  start_helm-Starts fs w =
      let vs = enabled_versions fs sys.lookup_env in
      default_of fs (make_clients sys vs ([], none)).0 (has_v3 vs)
        (make_clients sys vs ([], none)).1 (make_clients-default vs ([], none))
        (λ k. make_clients-load vs k ([], none))
