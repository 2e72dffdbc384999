-- ===== src/Kube/Ingress.antt =====
-- internal/source/kubernetes/recommendation: the two checks of Ingress objects. The cluster's answers
-- on services and secrets are parameters.
use botkube.Base.{
  ℕ, String, Bool, true, false, not, Option, none, some, List, [], ◌∷◌, ◌==◌, ◌||◌, nat_eq,
  if◌then◌else◌,
}
use botkube.Base.Text.{split, concat}
use botkube.Kube.Config.{create_event}
use botkube.Kube.Event.{Event}
use botkube.Kube.Checks.{Result, no_result}

-- A path of an Ingress rule: its backend service, nil for `none`.
pub record ServiceBackend : Type 0 where
  pub name : String
  pub port : ℕ

pub record Ingress : Type 0 where
  pub name : String
  pub namespace : String
  pub backends : List (Option ServiceBackend)
  pub tls_secrets : List String

-- How the cluster answers: the object, `IsNotFound`, or another error.
pub data Answer : Type 0 where
  found : List ℕ → Answer
  not_found cluster_error : Answer

abbrev pub full_stop : ℕ
full_stop = 0x2e

-- The loop of `validateServicePort`, over the ports that the service exposes.
unfoldable pub validate_service_port : List ℕ → ℕ → Bool
validate_service_port [] port = false
validate_service_port (p ∷ ports) port =
    let rest = validate_service_port ports port in if nat_eq p port then true else rest

unfoldable pub find_namespace_from_service : String → String → String
find_namespace_from_service service default_ns = elim (split full_stop service) [
  | [] ↦ default_ns
  | first ∷ parts ↦ elim parts [ [] ↦ default_ns | ns ∷ more ↦ ns ]
]

module _ (ingress_of : Event → Option Ingress) where
  module _ (service_ports : String → String → Answer) (decimal : ℕ → String) where
    -- The loop over the paths of the rules: the warnings, and whether an error was appended. A
    -- service whose look-up fails counts as missing, too.
    unfoldable pub check_backends : Ingress → List (Option ServiceBackend) → List String × Bool
    unfolding validate_service_port
    check_backends ingress [] = ([], false)
    check_backends ingress (none ∷ backends) = check_backends ingress backends
    check_backends ingress (some service ∷ backends) =
        let (warnings, failed) = check_backends ingress backends in
        let ns = find_namespace_from_service service.name ingress.namespace in
        let missing = concat (
          "Service '" ∷ service.name ∷ "' referred in Ingress '" ∷ ingress.namespace ∷ "/"
          ∷ ingress.name ∷ "' spec does not exist." ∷ []) in
        elim (service_ports service.name ns) [
          | cluster_error ↦ (missing ∷ warnings, true)
          | not_found ↦ (missing ∷ warnings, failed)
          | found ports ↦ if validate_service_port ports service.port then (warnings, failed) else (
            concat (
                  "Service '"
                  ∷ service.name
                  ∷ "' referred in Ingress '"
                  ∷ ingress.namespace
                  ∷ "/"
                  ∷ ingress.name
                  ∷ "' spec does not expose port '"
                  ∷ decimal service.port
                  ∷ "'."
                  ∷ [])
                ∷ warnings,
            failed,
          )
        ]

    -- `IngressBackendServiceValid.Do`.
    unfoldable pub ingress_backend_service_valid : Event → Result × Bool
    unfolding check_backends
    ingress_backend_service_valid e =
        if not (e.kind == "Ingress") || (not (e.type == create_event) || (e.object_kind == "Event"))
        then (no_result, false)
        else elim (ingress_of e) [
          | none ↦ (no_result, true)
          | some ingress ↦
              let (warnings, failed) = check_backends ingress ingress.backends in
              (record { info = []; warnings = warnings }, failed)
        ]

  module _ (secret : String → String → Answer) where
    -- The loop over the TLS entries, with `validateSecretExists`.
    unfoldable pub check_secrets : Ingress → List String → List String × Bool
    check_secrets ingress [] = ([], false)
    check_secrets ingress (name ∷ names) =
        let (warnings, failed) = check_secrets ingress names in
        let missing = concat (
          "TLS secret '" ∷ name ∷ "' referred in Ingress '" ∷ ingress.namespace ∷ "/" ∷ ingress.name
          ∷ "' does not exist." ∷ []) in
        elim (secret name ingress.namespace) [
          | cluster_error ↦
              (concat ("TLS secret '" ∷ name ∷ "' does not exist" ∷ []) ∷ missing ∷ warnings, true)
          | not_found ↦ (missing ∷ warnings, failed)
          | found ports ↦ (warnings, failed)
        ]

    -- `IngressTLSSecretValid.Do`.
    unfoldable pub ingress_tls_secret_valid : Event → Result × Bool
    unfolding check_secrets
    ingress_tls_secret_valid e =
        if not (e.kind == "Ingress") || (not (e.type == create_event) || (e.object_kind == "Event"))
        then (no_result, false)
        else elim (ingress_of e) [
          | none ↦ (no_result, true)
          | some ingress ↦
              let (warnings, failed) = check_secrets ingress ingress.tls_secrets in
              (record { info = []; warnings = warnings }, failed)
        ]
