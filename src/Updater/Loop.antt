-- ===== src/Updater/Loop.antt =====
-- `Updater.Loop` (pkg/status/status.go). The ticks and the stop that the channels deliver are a list;
-- a client that fails to tell the status returns the empty one.
use helm_operator.Base.{List, Option, String, [], none, some, ◌∷◌}
use helm_operator.Api.{HelmRelease, get_release_name, get_target_namespace, get_helm_version}
use helm_operator.Errors.{Error}
use helm_operator.Effects.{Result, ok, err, Call}
use helm_operator.Helm.{Client, Status, status_string}
use helm_operator.Kube.{Kube}
use helm_operator.Release.{Clients, load}
use helm_operator.Status.{set_release_status}

pub record Updater (W : Type 0) : Type 0 where
  pub kube : Kube W
  -- `hrLister.List`
  pub list : Call W (Result (List HelmRelease))
  pub clients : Clients W
  pub default_helm_version : String

pub data Signal : Type 0 where
  tick stop : Signal

module _ {W : Type 0} (u : Updater W) where
  abbrev pub record_status : HelmRelease → Result Status × W → W
  record_status hr (err _, w) = w
  record_status hr (ok s, w) =
      (set_release_status u.kube hr.namespace hr (get_release_name hr) (status_string s) w).1

  abbrev pub ask_client : HelmRelease → Option (Client W) → W → W
  ask_client hr none w = w
  ask_client hr (some c) w = record_status hr (
      c.status (get_release_name hr) (record { namespace = get_target_namespace hr; version = 0 })
        w)

  -- A round of the inner loop.
  unfoldable pub update_one : HelmRelease → W → W
  update_one hr = ask_client hr (load u.clients (get_helm_version hr u.default_helm_version))

  unfoldable pub update_each : List HelmRelease → W → W
  update_each [] w = w
  update_each (hr ∷ hrs) w = update_each hrs (update_one hr w)

  -- What goes on with the listed resources, and the error that ends the loop.
  abbrev pub listed : (W → Option Error × W) → Result (List HelmRelease) × W → Option Error × W
  listed rest (err e, w) = (some e, w)
  listed rest (ok hrs, w) = rest (update_each hrs w)

  -- `Loop`
  unfoldable pub loop : List Signal → Call W (Option Error)
  loop [] w = (none, w)
  loop (Signal.stop ∷ _) w = (none, w)
  loop (Signal.tick ∷ signals) w = listed (loop signals) (u.list w)
