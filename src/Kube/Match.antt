-- ===== src/Kube/Match.antt =====
-- `registration.matchEvent` and `kvsSatisfiedForMap` of
-- internal/source/kubernetes/registration.go: which routes an event takes.
pub mod Labels
pub mod Meets
pub mod Spec
use botkube.Base.{
  String, Bool, true, false, Option, none, some, List, [], ◌∷◌, ◌++◌, ◌==◌, Dict, lookup, ltb,
  length, if◌then◌else◌,
}
use botkube.Kube.Config.{RegexConstraints, KubernetesEvent, are_constraints_defined}
use botkube.Kube.Event.{Event, Route}
use botkube.Kube.Allowed.{MatchError, Allowed, verdict, failed, is_allowed}

-- The loop over the expected keys and values.
unfoldable pub kvs_loop : Dict String → Dict String → Bool
kvs_loop [] obj = true
kvs_loop ((k, v) ∷ expected) obj =
    let rest = kvs_loop expected obj in
    elim (lookup k obj) [ none ↦ false | some got ↦ if got == v then rest else false ]

unfoldable pub kvs_satisfied_for_map : Option (Dict String) → Dict String → Bool
unfolding kvs_loop
kvs_satisfied_for_map none obj = true
kvs_satisfied_for_map (some []) obj = true
kvs_satisfied_for_map (some (kv ∷ expected)) [] = false
kvs_satisfied_for_map (some (kv ∷ expected)) (o ∷ obj) = kvs_loop (kv ∷ expected) (o ∷ obj)

-- How one test of the loop body ends: it goes on to the next test, or `continue`s with the next
-- route. Both carry the errors that were appended.
pub data Check : Type 0 where
  pass skip : List MatchError → Check

-- The next test, made only after one that passed.
infixl 5 ◌then_check◌
abbrev pub ◌then_check◌ : Check → Check → Check
pass es then_check pass fs = pass (es ++ fs)
pass es then_check skip fs = skip (es ++ fs)
skip es then_check c = skip es

-- An error appended before what follows.
abbrev pub with_error : MatchError → Check → Check
with_error e (pass es) = pass (e ∷ es)
with_error e (skip es) = skip (e ∷ es)

module _ (match_string : String → String → Option Bool) where
  -- A single constraint, as the reason, the resource name and the namespace are tested.
  unfoldable pub check_value : RegexConstraints → String → Check
  check_value r value =
      if are_constraints_defined r
      then elim (is_allowed match_string (some r) value) [
        | failed e ↦ skip (e ∷ [])
        | verdict true ↦ pass []
        | verdict false ↦ skip []
      ]
      else pass []

  -- The loop over the messages, with what it appends to the errors: it stops at the first match.
  unfoldable pub check_messages : RegexConstraints → List String → Check
  check_messages r [] = skip []
  check_messages r (msg ∷ msgs) =
      let rest = check_messages r msgs in
      elim (is_allowed match_string (some r) msg) [
        | failed e ↦ with_error e rest
        | verdict true ↦ pass []
        | verdict false ↦ rest
      ]

  -- Event reason.
  abbrev pub check_reason : Option KubernetesEvent → String → Check
  check_reason none reason = pass []
  check_reason (some k) reason = check_value k.reason reason

  -- Event message; no messages are treated as an empty message.
  abbrev pub tested_messages : List String → List String
  tested_messages [] = "" ∷ []
  tested_messages (m ∷ ms) = m ∷ ms

  abbrev pub check_message : Option KubernetesEvent → List String → Check
  check_message none messages = pass []
  check_message (some k) messages =
      if are_constraints_defined k.message
      then check_messages k.message (tested_messages messages)
      else pass []

  -- Namespace.
  abbrev pub check_namespace : Option RegexConstraints → String → Check
  check_namespace none namespace = pass []
  check_namespace (some ns) namespace = check_value ns namespace

  -- Annotations, then labels.
  abbrev pub check_labels : Route → Event → Check
  check_labels rt e =
      if kvs_satisfied_for_map rt.annotations e.annotations
      then (if kvs_satisfied_for_map rt.labels e.labels then pass [] else skip [])
      else skip []

  -- The body of the loop over the routes.
  unfoldable pub check_route : Route → Event → Check
  unfolding check_value check_messages
  check_route rt e =
      check_reason rt.event e.reason
      then_check check_message rt.event e.messages
      then_check check_value rt.resource_name e.name
      then_check check_namespace rt.namespaces e.namespace
      then_check check_labels rt e

  -- `matchEvent`: the sources of the routes that pass every test, and the errors. Its error is nil
  -- where the list of errors is empty.
  unfoldable pub match_event : List Route → Event → List String × List MatchError
  unfolding check_route
  match_event [] e = ([], [])
  match_event (rt ∷ routes) e =
      let (out, errs) = match_event routes e in
      elim (check_route rt e) [
        | pass es ↦ (rt.source ∷ out, es ++ errs)
        | skip es ↦ (out, es ++ errs)
      ]
