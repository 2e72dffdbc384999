-- ===== src/Reload/Runs.antt =====
-- The loop of internal/config/reloader/remote.go against an abstract machine that sees the version,
-- the configuration and the number of restarts only.
use botkube.Base.{
  ℕ, suc, ◌<◌, ◌≤◌, String, ◌≡◌, refl, ◌⊎◌, inl, inr, Bool, true, Option, some, List, [], ◌∷◌, map,
  arith, All, In,
}
use botkube.Reload.{
  Loaded, config, RemoteConfigReloader, Answers, poll, take, Signal, tick, done, Outcome,
  compare_res_ver, set_resource_version_for_all, query_config, compare_configs, load_config,
  process_new_config, restart_if, polling, returned, restart_failed, do_loop,
}
use botkube.Reload.Versions.{Restarts-if, Restarts-only_if}

-- What an observer sees of the reloader.
pub record View (C : Type 0) : Type 0 where
  pub version : ℕ
  pub cfg : C
  pub restarts : ℕ

abbrev pub view : {C : Type 0} → RemoteConfigReloader C → View C
view u = record { version = u.res_version; cfg = u.current_cfg; restarts = u.restarts }

View-eq :
    {C : Type 0} (s t : View C)
    → s.version ≡ t.version
    → s.cfg ≡ t.cfg
    → s.restarts ≡ t.restarts
    → s ≡ t
View-eq s t e1 e2 e3 = cc

-- The abstract machine: it may take a higher version and keep its configuration, or take a
-- configuration that differs, which loads from a text, under a higher version and ask for a restart.
pub data Advance {C : Type 0} (loads : String → C → Type 0) (differ : C → C → Type 0) (s t : View C)
    : Type 0 where
  stay : t ≡ s → Advance loads differ s t
  acknowledge :
      s.version < t.version → t.cfg ≡ s.cfg → t.restarts ≡ s.restarts → Advance loads differ s t
  replace :
      (yaml : String)
      → s.version < t.version
      → loads yaml t.cfg
      → differ s.cfg t.cfg
      → t.restarts ≡ suc s.restarts
      → Advance loads differ s t

-- The machine comes from a view to `end`.
pub data Reach {C : Type 0} (loads : String → C → Type 0) (differ : C → C → Type 0) (end : View C)
    : View C → Type 0 where
  here : Reach loads differ end end
  next :
      {s m : View C}
      → Advance loads differ s m
      → Reach loads differ end m
      → Reach loads differ end s

-- Every holder was told the version that the reloader stands at.
abbrev pub HoldersAgree : {C : Type 0} → RemoteConfigReloader C → Type 0
HoldersAgree u = All (λ h. h ≡ u.res_version) u.res_ver_holders

All-told : (v : ℕ) (holders : List ℕ) → All (λ h. h ≡ v) (map (λ _. v) holders)
All-told v [] = tt
All-told v (h ∷ holders) = (refl, All-told v holders)

module _ {C : Type 0} (unmarshals : String → Bool) (load_with_defaults : String → Loaded C)
    (diff : C → C → Option (List String)) where
  abbrev pub Loads : String → C → Type 0
  Loads yaml cfg = load_with_defaults yaml ≡ config cfg

  abbrev pub Differ : C → C → Type 0
  Differ old new = (path : String) × (paths : List String) × (diff old new ≡ some (path ∷ paths))

  -- How a poll ends for the version and the holders.
  poll-told :
      (a : Answers) (u : RemoteConfigReloader C)
      → let after = (poll unmarshals load_with_defaults diff a u).0 in
        ((after.res_version ≡ u.res_version) × (after.res_ver_holders ≡ u.res_ver_holders))
        ⊎ ((u.res_version < after.res_version)
            × (after.res_ver_holders ≡ map (λ _. after.res_version) u.res_ver_holders))
  unfolding poll compare_res_ver set_resource_version_for_all query_config compare_configs
      load_config process_new_config restart_if
  poll-told a u = ground arith

  poll-Advance :
      (a : Answers) (u : RemoteConfigReloader C)
      → Advance Loads Differ (view u) (view (poll unmarshals load_with_defaults diff a u).0)
  poll-Advance a u =
      let after = (poll unmarshals load_with_defaults diff a u).0 in
      elim (Restarts-only_if unmarshals load_with_defaults diff a u) [
        | inl (new, r) ↦
            let (once, cfg, higher) = Restarts-if unmarshals load_with_defaults diff a u new r in
            let (v, d, p, ps, _, _, _, _, _, l, c) = r in
            replace d.yaml_config higher (rw cfg l) (p, ps, rw cfg c) once
        | inr (same, cfg) ↦ elim (poll-told a u) [
          | inl (version, _) ↦ stay (View-eq (view after) (view u) version cfg same)
          | inr (higher, _) ↦ acknowledge higher cfg same
        ]
      ]

  take-view :
      (signal : Signal) (u : RemoteConfigReloader C) (o : Outcome)
      → Advance Loads Differ
          (view u)
          (view (take unmarshals load_with_defaults diff signal (u, o)).0)
  unfolding take
  take-view (tick a) u polling = poll-Advance a u
  take-view done u polling = stay refl
  take-view signal u returned = stay refl
  take-view signal u restart_failed = stay refl

  -- Any run of the loop is a run of the abstract machine: it takes strictly higher versions only, and
  -- where its configuration changes the new one was loaded, differs from the last one, and comes with
  -- one restart.
  pub do_loop-Reach :
      (signals : List Signal) (s : RemoteConfigReloader C × Outcome)
      → Reach Loads Differ
          (view (do_loop unmarshals load_with_defaults diff signals s).0)
          (view s.0)
  unfolding do_loop
  do_loop-Reach [] s = here
  do_loop-Reach (signal ∷ signals) s =
      next (take-view signal s.0 s.1)
        (do_loop-Reach signals (take unmarshals load_with_defaults diff signal s))

  poll-HoldersAgree :
      (a : Answers) (u : RemoteConfigReloader C)
      → HoldersAgree u
      → HoldersAgree (poll unmarshals load_with_defaults diff a u).0
  poll-HoldersAgree a u h = elim (poll-told a u) [
    | inl (version, holders) ↦ rw holders (rw version h)
    | inr (higher, holders) ↦
        rw holders
          (All-told (poll unmarshals load_with_defaults diff a u).0.res_version u.res_ver_holders)
  ]

  take-told :
      (signal : Signal) (u : RemoteConfigReloader C) (o : Outcome)
      → let after = (take unmarshals load_with_defaults diff signal (u, o)).0 in
        (HoldersAgree u → HoldersAgree after) × (u.res_version ≤ after.res_version)
  unfolding take
  take-told (tick a) u polling = (poll-HoldersAgree a u, ground (arith, poll-told a u))
  take-told done u polling = (λ h. h, omega arith)
  take-told signal u returned = (λ h. h, omega arith)
  take-told signal u restart_failed = (λ h. h, omega arith)

  -- If every holder was told the version that the reloader stands at, so it is after any signals, and
  -- the version is not lower than before.
  pub do_loop-HoldersAgree :
      (signals : List Signal) (s : RemoteConfigReloader C × Outcome)
      → HoldersAgree s.0
      → let after = (do_loop unmarshals load_with_defaults diff signals s).0 in
        HoldersAgree after × (s.0.res_version ≤ after.res_version)
  unfolding do_loop
  do_loop-HoldersAgree [] s h = (h, omega arith)
  do_loop-HoldersAgree (signal ∷ signals) s h =
      let (agree, le) = take-told signal s.0 s.1 in
      let (agree', le') =
        do_loop-HoldersAgree signals (take unmarshals load_with_defaults diff signal s) (agree h) in
      (agree', omega (arith, le, le'))

  -- No restart fails.
  abbrev pub Succeeds : Signal → Type 0
  Succeeds (tick a) = a.restarted ≡ true
  Succeeds done = Unit

  poll-polling :
      (a : Answers) (u : RemoteConfigReloader C)
      → a.restarted ≡ true
      → (poll unmarshals load_with_defaults diff a u).1 ≡ polling
  unfolding poll compare_res_ver set_resource_version_for_all query_config compare_configs
      load_config process_new_config restart_if
  poll-polling a u e = ground arith

  stays_returned :
      (signals : List Signal) (u : RemoteConfigReloader C)
      → (do_loop unmarshals load_with_defaults diff signals (u, returned)).1 ≡ returned
  unfolding do_loop take
  stays_returned [] u = refl
  stays_returned (signal ∷ signals) u = stays_returned signals u

  returns_from :
      (signals : List Signal) (s : RemoteConfigReloader C × Outcome)
      → s.1 ≡ polling
      → All Succeeds signals
      → In done signals
      → (do_loop unmarshals load_with_defaults diff signals s).1 ≡ returned
  unfolding do_loop take
  returns_from [] s p ok i = absurd i
  returns_from (done ∷ signals) (u, polling) p ok i = stays_returned signals u
  returns_from (tick a ∷ signals) (u, polling) p (ok, oks) (inl e) = absurd cc
  returns_from (tick a ∷ signals) (u, polling) p (ok, oks) (inr i) =
      returns_from signals (poll unmarshals load_with_defaults diff a u) (poll-polling a u ok) oks i
  returns_from (signal ∷ signals) (u, returned) p ok i = absurd cc
  returns_from (signal ∷ signals) (u, restart_failed) p ok i = absurd cc

  -- If no restart fails and the shutdown is requested, the loop returns, without an error.
  pub do_loop-returned :
      (signals : List Signal) (u : RemoteConfigReloader C)
      → All Succeeds signals
      → In done signals
      → (do_loop unmarshals load_with_defaults diff signals (u, polling)).1 ≡ returned
  do_loop-returned signals u ok i = returns_from signals (u, polling) refl ok i
