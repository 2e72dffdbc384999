-- ===== src/Kube/Scenarios.antt =====
-- The theorems on the filters, the handler and the image check at concrete events.
use botkube.Base.{
  String, ◌≡◌, refl, ◌⊎◌, inl, inr, Bool, true, false, ◌||◌, Option, some, List, [], ◌∷◌, ◌==◌,
  Dict, lookup, insert, sym, ap, ◌∙◌, arith, Bool-cases,
}
use mathlib.Core.Path.{subst}
use Prim.Native.String.{◌++◌ as ◌+++◌}
use botkube.Base.Text.{split, sort}
use botkube.Kube.Config.{Recommendations, Filters, create_event}
use botkube.Kube.Event.{Event}
use botkube.Kube.Checks.{Recommendation, is_latest, colon}
use botkube.Kube.Runner.{do_all}
use botkube.Kube.Checks.Laws.{is_latest-port}
use botkube.Kube.Filter.{
  FilterEngine, run, with_all_filters, node_events_checker, object_annotation_checker,
}
use botkube.Kube.Filter.Skip.{skips, skip-run}
use botkube.Kube.Handle.{SourceConfig, handle_sources}
use botkube.Kube.Handle.Leak.{
  KeepSkips, LeaveAlone, Configured, deliveries, skip-stops_others, sent-independent,
}
use botkube.Kube.Recommend.{should_ignore_event}
use botkube.Kube.RouterTests.{source_config, no_recommendations}

abbrev node_event : Event
node_event = record {
  kind = "Node";
  name = "node-1";
  namespace = "";
  messages = [];
  type = create_event;
  reason = "Starting";
  level = "info";
  skip = false;
  resource = "v1/nodes";
  recommendations = [];
  warnings = [];
  annotations = [];
  labels = [];
  object_kind = "Node";
}

abbrev no_annotations : Event → Option (Dict String)
no_annotations e = some []

abbrev both : Filters
both = record { object_annotation_checker = true; node_events_checker = true }

abbrev neither : Filters
neither = record { object_annotation_checker = false; node_events_checker = false }

skip-run_example :
    (run (with_all_filters no_annotations both) node_event).skip
    ≡ (skips no_annotations both node_event || false)
skip-run_example = skip-run no_annotations both node_event (λ e. refl)

abbrev no_checks : Recommendations → List Recommendation
no_checks r = []

abbrev builds : Event → Bool
builds e = true

-- The first source has its filters enabled, the second has none of them.
abbrev store : Dict SourceConfig
store =
    (
      "strict",
      record {
        cfg = source_config no_recommendations [];
        active = some (with_all_filters no_annotations both);
      },
    )
    ∷ ("lax", record { cfg = source_config no_recommendations []; active = some [] })
    ∷ []

abbrev lax_store : Dict SourceConfig
lax_store = ("lax", record { cfg = source_config no_recommendations []; active = some [] }) ∷ []

abbrev strict_engine : FilterEngine
strict_engine = with_all_filters no_annotations both

strict-keeps : (e : Event) → e.skip ≡ true → (run strict_engine e).skip ≡ true
strict-keeps e s = skip-run no_annotations both e (λ d. refl) ∙ ground arith

empty-alone : (e : Event) → run [] e ≡ e
unfolding run sort
empty-alone e = refl

engines :
    (key : String) (src : SourceConfig) (engine : FilterEngine)
    → lookup key store ≡ some src
    → src.active ≡ some engine
    → (engine ≡ strict_engine) ⊎ (engine ≡ [])
unfolding lookup
engines key src engine h a = elim (Bool-cases ("strict" == key)) [
  | inl t ↦ inl (ground arith)
  | inr n ↦ inr (ground arith)
]

store-KeepSkips : KeepSkips store
store-KeepSkips key src engine e h a s = elim (engines key src engine h a) [
  | inl p ↦ subst (λ z. (run z e).skip ≡ true) (sym p) (strict-keeps e s)
  | inr p ↦
      subst (λ z. (run z e).skip ≡ true) (sym p) (ap (λ (d : Event). d.skip) (empty-alone e) ∙ s)
]

strict-skips : (run strict_engine node_event).skip ≡ true
unfolding run with_all_filters insert lookup sort node_events_checker object_annotation_checker
strict-skips = refl

strict-found :
    lookup "strict" store
    ≡ some (record { cfg = source_config no_recommendations []; active = some strict_engine })
unfolding lookup
strict-found = refl

skip-stops_others_example :
    (handle_sources no_checks builds store node_event ("strict" ∷ "lax" ∷ [])).sent ≡ []
skip-stops_others_example =
    skip-stops_others no_checks builds store node_event "strict" ("lax" ∷ [])
      (record { cfg = source_config no_recommendations []; active = some strict_engine })
      strict_engine store-KeepSkips strict-found refl strict-skips

lax-entry :
    (key : String) (src : SourceConfig)
    → lookup key lax_store ≡ some src
    → (src.active ≡ some []) × (src.cfg.recommendations ≡ some no_recommendations)
unfolding lookup
lax-entry key src h = (ground arith, ground arith)

lax-LeaveAlone : LeaveAlone lax_store node_event
lax-LeaveAlone key src engine h a =
    subst (λ z. run z node_event ≡ node_event) (cc ((lax-entry key src h).0, a))
      (empty-alone node_event)

lax-Configured : Configured lax_store
lax-Configured key src h n = cc ((lax-entry key src h).1, n)

sent-independent_example :
    ((handle_sources no_checks builds lax_store node_event ("lax" ∷ "gone" ∷ [])).sent
      ≡ deliveries no_checks builds lax_store node_event ("lax" ∷ "gone" ∷ []))
    × ((handle_sources no_checks builds lax_store node_event ("lax" ∷ "gone" ∷ [])).panicked
        ≡ false)
sent-independent_example =
    sent-independent no_checks builds lax_store node_event ("lax" ∷ "gone" ∷ []) lax-LeaveAlone
      lax-Configured refl

is_latest-port_example :
    is_latest (split colon ("registry" +++ String.◌∷◌ ":" ("5000/web" +++ String.◌∷◌ ":" "latest")))
    ≡ ("5000/web" == "latest")
is_latest-port_example = is_latest-port "registry" "5000/web" "latest" refl refl

-- Alone, the lax source would be sent the event.
lax-sends :
    (handle_sources no_checks builds lax_store node_event ("lax" ∷ [])).sent
    ≡ ("lax", node_event) ∷ []
unfolding handle_sources lookup run sort should_ignore_event do_all
lax-sends = refl
