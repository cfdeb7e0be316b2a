-- ===== src/Frame/Laws.antt =====
-- That a call keeps a property of the world, for each of the records of calls.
use helm_operator.Base.{Bool, List, Option, String}
use helm_operator.Effects.{Call}
use helm_operator.Api.{HelmRelease}
use helm_operator.Errors.{Error}
use helm_operator.Helm.{
  Client, GetOptions, UpgradeOptions, RollbackOptions, UninstallOptions, TestOptions,
  HistoryOptions,
}
use helm_operator.Kube.{Kube, Attempt, GaugeOp}
use helm_operator.Chartsync.{Os}
use helm_operator.Values.{Sources}
use helm_operator.Release.{Env, Export, Observation}

-- A call keeps a property, whatever it answers.
pub record Keeps {W A : Type 0} (P : W → Type 0) (c : Call W A) : Type 0 where
  pub at : (w : W) → P w → P (c w).1

pub record KubeKeeps {W : Type 0} (P : W → Type 0) (kube : Kube W) : Type 0 where
  pub get : (ns name : String) → Keeps P (kube.get ns name)
  pub update_status : (ns : String) (hr : HelmRelease) → Keeps P (kube.update_status ns hr)
  pub gauge : (op : GaugeOp) (w : W) → P w → P (kube.gauge op w)
  -- A closure that keeps the property may be run any number of times.
  pub retry :
      (f : Attempt W → Option Error × Attempt W) (a : Attempt W)
      → ((b : Attempt W) → P b.world → P ((f b).1).world)
      → P a.world
      → P ((kube.retry_on_conflict f a).1).world

pub record OsKeeps {W : Type 0} (P : W → Type 0) (os : Os W) : Type 0 where
  pub stat : (path : String) → Keeps P (os.stat path)
  pub mkdir_all : (path : String) → Keeps P (os.mkdir_all path)
  pub create : (path : String) → Keeps P (os.create path)
  pub copy : (path body : String) → Keeps P (os.copy path body)
  pub http_get : (url : String) → Keeps P (os.http_get url)
  pub oss_new : (endpoint id secret : String) → Keeps P (os.oss_new endpoint id secret)
  pub oss_bucket : (bucket : String) → Keeps P (os.oss_bucket bucket)
  pub oss_get_to_file : (bucket key path : String) → Keeps P (os.oss_get_to_file bucket key path)
  pub obs_new : (id secret endpoint : String) → Keeps P (os.obs_new id secret endpoint)
  pub obs_download : (bucket key path : String) → Keeps P (os.obs_download bucket key path)
  pub obs_close : (w : W) → P w → P (os.obs_close w)

pub record SourcesKeeps {W : Type 0} (P : W → Type 0) (src : Sources W) : Type 0 where
  pub config_map : (ns name : String) → Keeps P (src.config_map ns name)
  pub secret : (ns name : String) → Keeps P (src.secret ns name)
  pub http_get : (url : String) → Keeps P (src.http_get url)
  pub read_file : (path : String) → Keeps P (src.read_file path)

pub record ClientKeeps {W : Type 0} (P : W → Type 0) (client : Client W) : Type 0 where
  pub get : (name : String) (opts : GetOptions) → Keeps P (client.get name opts)
  pub upgrade_from_path :
      (path name values : String) (opts : UpgradeOptions)
      → Keeps P (client.upgrade_from_path path name values opts)
  pub history : (name : String) (opts : HistoryOptions) → Keeps P (client.history name opts)
  pub rollback : (name : String) (opts : RollbackOptions) → Keeps P (client.rollback name opts)
  pub test : (name : String) (opts : TestOptions) → Keeps P (client.test name opts)
  pub dependency_update : (path : String) → Keeps P (client.dependency_update path)
  pub pull_with_repo_url :
      (url name version dest : String) → Keeps P (client.pull_with_repo_url url name version dest)
  pub uninstall : (name : String) (opts : UninstallOptions) → Keeps P (client.uninstall name opts)
  pub get_chart_revision : (path : String) (w : W) → P w → P (client.get_chart_revision path w).1

-- The calls of a release, less those that make and remove the copy of a mirror.
pub record EnvKeeps {W : Type 0} (P : W → Type 0) (env : Env W) : Type 0 where
  pub kube : KubeKeeps P env.kube
  pub os : OsKeeps P env.os
  pub changed_files :
      (export : Export) (revision path : String) → Keeps P (env.changed_files export revision path)
  pub delete_mirror : (hr : HelmRelease) (w : W) → P w → P (env.delete_mirror hr w)
  pub v2_release_exists : (name : String) → Keeps P (env.v2_release_exists name)
  pub convert : (name : String) (dry_run : Bool) → Keeps P (env.convert name dry_run)
  pub kubectl_get : (ns resource : String) → Keeps P (env.kubectl_get ns resource)
  pub kubectl_annotate :
      (ns : String) (resources : List String) (id : String)
      → Keeps P (env.kubectl_annotate ns resources id)
  pub observe : (o : Observation) (w : W) → P w → P (env.observe o w)
