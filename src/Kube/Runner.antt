-- ===== src/Kube/Runner.antt =====
-- internal/source/kubernetes/recommendation: the factory that picks the checks, and their runner.
use botkube.Base.{ℕ, String, Bool, true, false, Option, List, [], ◌∷◌, ◌++◌, ◌||◌}
use botkube.Kube.Config.{Recommendations}
use botkube.Kube.Event.{Event}
use botkube.Kube.Recommend.{to_value}
use botkube.Kube.Checks.{Recommendation, Pod, pod_labels_set, pod_no_latest_image_tag}
use botkube.Kube.Ingress.{Answer, Ingress, ingress_backend_service_valid, ingress_tls_secret_valid}

-- The loop of `AggregatedRunner.Do`: every check sees the event with the results so far; the flag
-- tells whether some check failed.
unfoldable pub do_all : List Recommendation → Event → Event × Bool
do_all [] e = (e, false)
do_all (r ∷ recommendations) e =
    let (result, failed) = r.do_check e in
    let (e', more) = do_all recommendations (record e {
      recommendations = e.recommendations ++ result.info;
      warnings = e.warnings ++ result.warnings;
    }) in
    (e', failed || more)

-- `append` under an `if`.
abbrev pub when : Bool → Recommendation → List Recommendation
when true r = r ∷ []
when false r = []

module _ (pod_of : Event → Option Pod) (ingress_of : Event → Option Ingress)
    (service_ports secret : String → String → Answer) (decimal : ℕ → String) where
  unfoldable pub recommendations_for_config : Recommendations → List Recommendation
  recommendations_for_config cfg =
      when (to_value cfg.pod.labels_set)
        (record { name = "PodLabelsSet"; do_check = pod_labels_set pod_of })
      ++ when (to_value cfg.pod.no_latest_image_tag)
          (record { name = "PodNoLatestImageTag"; do_check = pod_no_latest_image_tag pod_of })
      ++ when (to_value cfg.ingress.backend_service_valid) (record {
        name = "IngressBackendServiceValid";
        do_check = ingress_backend_service_valid ingress_of service_ports decimal;
      })
      ++ when (to_value cfg.ingress.tls_secret_valid) (record {
        name = "IngressTLSSecretValid";
        do_check = ingress_tls_secret_valid ingress_of secret;
      })
