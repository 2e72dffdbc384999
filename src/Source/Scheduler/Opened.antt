-- ===== src/Source/Scheduler/Opened.antt =====
-- When the scheduler of internal/source/scheduler.go opens a stream.
use botkube.Base.{
  ℕ, suc, ◌+◌, String, ◌≡◌, refl, Bool, true, false, ◌&&◌, ◌||◌, List, [], ◌∷◌, arith, ◌==◌, eq_iff,
  eq_refl, get_or_zero, if◌then◌else◌, Bool-cases, Option-cases, inl, inr, Dict, keys,
}
use botkube.Base.Text.{sort}
use botkube.Source.Scheduler.{
  PluginDispatch, Scheduler, schedule_source, schedule_keys, schedule, open_stream, is_filtered_out,
  is_started_stream_with_configuration,
}
use botkube.Source.Scheduler.Streams.{is_started-report}

-- How often the dispatcher opened the stream.
abbrev pub calls : String → String → List (String × String) → ℕ
calls p k [] = 0
calls p k ((q, j) ∷ log) =
    let rest = calls p k log in if (q == p) && (j == k) then suc rest else rest

abbrev pub IsOpen : String → String → Scheduler → Type 0
IsOpen p k s = is_started_stream_with_configuration p k s.opened_streams ≡ true

-- From `s` to `t`, the stream was opened once if it is open in `t` only, and else not at all; none
-- was closed, and the configurations are the same.
pub record Opens (p k : String) (s t : Scheduler) : Type 0 where
  pub stays : IsOpen p k s → IsOpen p k t
  pub once : calls p k t.dispatched ≡ (
      if is_started_stream_with_configuration p k s.opened_streams
      then calls p k s.dispatched
      else if is_started_stream_with_configuration p k t.opened_streams
      then calls p k s.dispatched + 1
      else calls p k s.dispatched)
  pub same : t.dispatch_config ≡ s.dispatch_config

Opens-refl : (p k : String) (s : Scheduler) → Opens p k s s
Opens-refl p k s = record { stays = λ h. h; once = ground arith; same = refl }

Opens-trans : (p k : String) (s t u : Scheduler) → Opens p k s t → Opens p k t u → Opens p k s u
Opens-trans p k s t u a b = record {
  stays = λ h. b.stays (a.stays h);
  once = ground (arith, a.once, b.once, a.stays, b.stays);
  same = cc;
}

Opens-open_stream :
    (p k q j : String) (s : Scheduler)
    → is_started_stream_with_configuration q j s.opened_streams ≡ false
    → Opens p k s (open_stream q j s)
unfolding open_stream
Opens-open_stream p k q j s h = record {
  stays = λ i. ground (arith, is_started-report p k q j s.opened_streams);
  once = ground (arith, is_started-report p k q j s.opened_streams, eq_iff q p, eq_iff j k);
  same = refl;
}

pub IsOpen-open_stream : (p k q : String) (s : Scheduler) → p ≡ q → IsOpen p k (open_stream q k s)
unfolding open_stream
IsOpen-open_stream p k q s e = rw is_started-report (rw e (rw eq_refl (rw eq_refl (ground arith))))

module _ (dispatch : PluginDispatch → Bool) (plugin_filter p k : String) where
  pub schedule_source-Opens :
      (j : String) (configs : Dict PluginDispatch) (s : Scheduler)
      → Opens p k s (schedule_source dispatch plugin_filter j configs s).0
  unfolding schedule_source
  schedule_source-Opens j [] s = Opens-refl p k s
  schedule_source-Opens j ((q, cfg) ∷ configs) s =
      elim (Bool-cases (
        is_filtered_out plugin_filter q
        || is_started_stream_with_configuration q j s.opened_streams)) [
          | inl e ↦ rw (e, schedule_source) (schedule_source-Opens j configs s)
          | inr e ↦
              rw (e, schedule_source)
                (elim (Bool-cases (dispatch cfg)) [
                  | inl d ↦ rw d (
                      Opens-trans p k s (open_stream q j s) _
                        (Opens-open_stream p k q j s (ground arith))
                        (schedule_source-Opens j configs (open_stream q j s)))
                  | inr d ↦ rw d (Opens-refl p k s)
                ])
        ]

  pub schedule_keys-Opens :
      (js : List String) (s : Scheduler) → Opens p k s (schedule_keys dispatch plugin_filter js s).0
  unfolding schedule_keys
  schedule_keys-Opens [] s = Opens-refl p k s
  schedule_keys-Opens (j ∷ js) s =
      let configs = get_or_zero [] j s.dispatch_config in
      let step = schedule_source-Opens j configs s in
      elim (Option-cases (schedule_source dispatch plugin_filter j configs s).1) [
        | inl e ↦
            rw (e, schedule_keys)
              (Opens-trans p k s _ _ step
                (schedule_keys-Opens js (schedule_source dispatch plugin_filter j configs s).0))
        | inr (err, e) ↦ rw (e, schedule_keys) step
      ]

  pub schedule-Opens : (s : Scheduler) → Opens p k s (schedule dispatch plugin_filter s).0
  unfolding schedule
  schedule-Opens s = schedule_keys-Opens (sort (keys s.dispatch_config)) s
