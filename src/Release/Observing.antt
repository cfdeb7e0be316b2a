-- ===== src/Release/Observing.antt =====
-- The histograms of durations (pkg/release/metrics.go). The duration itself is left out.
use helm_operator.Base.{All, Bool, List, String, [], false, refl, true, ℕ, ◌++◌, ◌∷◌, ◌≡◌}

pub record Histogram : Type 0 where
  pub namespace : String
  pub subsystem : String
  pub name : String
  pub help : String
  pub buckets : List ℕ
  pub label_names : List String

-- A duration that a histogram observes, with its labels.
pub record Observation : Type 0 where
  pub histogram : Histogram
  pub labels : List (String × String)

abbrev pub duration_buckets : List ℕ
duration_buckets = 1 ∷ 5 ∷ 10 ∷ 30 ∷ 60 ∷ 120 ∷ 180 ∷ 300 ∷ 600 ∷ 1800 ∷ []

abbrev pub release_duration : Histogram
release_duration = record {
  namespace = "flux";
  subsystem = "helm_operator";
  name = "release_duration_seconds";
  help = "Release synchronization duration in seconds.";
  buckets = duration_buckets;
  label_names = "success" ∷ "namespace" ∷ "release_name" ∷ [];
}

abbrev pub release_phase_duration : Histogram
release_phase_duration = record {
  namespace = "flux";
  subsystem = "helm_operator";
  name = "release_phase_duration_seconds";
  help = "Release synchronization phase duration in seconds.";
  buckets = duration_buckets;
  label_names = "action" ∷ "success" ∷ "namespace" ∷ "release_name" ∷ [];
}

abbrev pub release_action_duration : Histogram
release_action_duration = record {
  namespace = "flux";
  subsystem = "helm_operator";
  name = "release_action_duration_seconds";
  help = "Release synchronization action duration in seconds.";
  buckets = duration_buckets;
  label_names = "action" ∷ "success" ∷ "target_namespace" ∷ "release_name" ∷ [];
}

-- `fmt.Sprint` of a Boolean
abbrev pub sprint : Bool → String
sprint true = "true"
sprint false = "false"

-- The observation of an action, which `namespace` is the target namespace of.
abbrev pub action_observation : String → Bool → String → String → Observation
action_observation action success namespace release_name = record {
  histogram = release_action_duration;
  labels =
      ("action", action)
      ∷ ("success", sprint success)
      ∷ ("target_namespace", namespace)
      ∷ ("release_name", release_name)
      ∷ [];
}

-- `ObserveRelease`
abbrev pub release_observations : Bool → String → String → List Observation
release_observations success namespace release_name =
    record {
      histogram = release_duration;
      labels =
          ("success", sprint success)
          ∷ ("namespace", namespace)
          ∷ ("release_name", release_name)
          ∷ [];
    }
    ∷ action_observation "sync" success namespace release_name
    ∷ []

-- `ObserveReleaseAction`
abbrev pub action_observations : String → Bool → String → String → List Observation
action_observations action success namespace release_name =
    record {
      histogram = release_phase_duration;
      labels =
          ("action", action)
          ∷ ("success", sprint success)
          ∷ ("namespace", namespace)
          ∷ ("release_name", release_name)
          ∷ [];
    }
    ∷ action_observation action success namespace release_name
    ∷ []

abbrev pub observe_all : {W : Type 0} → (Observation → W → W) → List Observation → W → W
observe_all observe [] w = w
observe_all observe (o ∷ os) w = observe_all observe os (observe o w)

-- `With` panics where the labels are not those of the histogram.
abbrev names_of : List (String × String) → List String
names_of [] = []
names_of ((name, value) ∷ ls) = name ∷ names_of ls

observations-labelled :
    (action namespace release_name : String) (success : Bool)
    → All
        (λ o. names_of o.labels ≡ o.histogram.label_names)
        (action_observations action success namespace release_name
          ++ release_observations success namespace release_name)
observations-labelled action namespace release_name success = (refl, (refl, (refl, (refl, tt))))
