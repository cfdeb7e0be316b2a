-- ===== src/Tests/Replacings.antt =====
-- The injection of Istio in a cluster with one workload, which the world says is there.
use helm_operator.Base.{
  Bool, Bool-cases, String, arith, false, if◌then◌else◌, inl, inr, none, refl, str_eq, str_eq_iff,
  true, ◌&&◌, ◌≡◌, ◌≢◌, ◌⊎◌, ◌∙◌, sym,
}
use helm_operator.Effects.{ok}
use helm_operator.Release.{Dynamic, istio_inject_handle}
use helm_operator.Release.Replacing.{Cluster, istio_inject_handle-kept}
use helm_operator.Tests.Cluster.{object_of, web}

abbrev is_web : String → String → String → Bool
is_web r ns n = str_eq r "deployments" && (str_eq ns "apps" && str_eq n "web")

abbrev client : Dynamic Bool
client = record {
  build_config = λ w. (none, w);
  new_for_config = λ w. (none, w);
  get = λ r ns n w. (ok (object_of "apps" "Deployment"), w);
  delete = λ r ns n w. (none, if is_web r ns n then false else w);
  until_with_context = λ f w. (f w).1;
  marshal = λ o. o.name;
}

abbrev is_present : String → String → String → Bool → Bool
is_present r ns n w = is_web r ns n && w

other_kept :
    (r ns n resource namespace name : String) (w : Bool)
    → (r ≢ resource) ⊎ ((ns ≢ namespace) ⊎ (n ≢ name))
    → is_present r ns n (client.delete resource namespace name w).1 ≡ is_present r ns n w
other_kept r ns n resource namespace name w o = elim (Bool-cases (is_web r ns n)) [
  | inr f ↦ rw f refl
  | inl t ↦ elim (Bool-cases (is_web resource namespace name)) [
    | inr f ↦ rw f refl
    | inl u ↦ absurd (elim o [
      | inl d ↦ d (named r resource "deployments" (ground arith) (ground arith))
      | inr (inl d) ↦ d (named ns namespace "apps" (ground arith) (ground arith))
      | inr (inr d) ↦ d (named n name "web" (ground arith) (ground arith))
    ])
  ]
]
  where
    named : (a b c : String) → str_eq a c ≡ true → str_eq b c ≡ true → a ≡ b
    named a b c p q = (str_eq_iff a c).0 p ∙ sym ((str_eq_iff b c).0 q)

one_workload : Cluster client
one_workload = record {
  present = is_present;
  queried = λ r ns n resource namespace name w. refl;
  other_deleted = other_kept;
  waited = λ r ns n f w h. h w;
}

istio_inject_handle-kept_example :
    is_present "deployments" "apps" "web"
      (istio_inject_handle client web "deployments" (object_of "" "Deployment") true true).1
    ≡ true
unfolding one_workload
istio_inject_handle-kept_example =
    istio_inject_handle-kept client one_workload web "deployments" (object_of "" "Deployment") true
      "deployments" "apps" "web" true
      (inl (inr (inl (λ e. absurd (ground (arith, str_eq_iff "apps" ""))))))
