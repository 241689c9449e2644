-- ===== src/Server/Lifecycle/Serving.antt =====
-- A whole run of http_server_run, from the registered listening socket to the end.
use http_c.Prelude.{
  ℕ, ◌≡◌, refl, subst, Bool, true, false, Option, none, some, some-injective, List, [], arith,
  iterate-ends, iterate, if◌then◌else◌,
}
use http_c.Common.{ResultCode, ok}
use http_c.Span.{CommonLib}
use http_c.Server.{Slot}
use http_c.Server.Timers.{next_tick_ms}
use http_c.Server.Loop.{Env, Shared, ServerState, running, is_running, call_now}
use http_c.Server.Loop.Table.{flush_pending_responses, sweep_pending_deadlines}
use http_c.Server.Loop.Steps.{flushes, expires, sweeps, elsewhere, Runs, start, step, Runs_trans}
use http_c.Server.Loop.Finalizers.{Chosen, starts, finals}
use http_c.Server.Loop.Finalizers.Rounds.{AllSound, owed_all}
use http_c.Server.Loop.Finalizers.Served.{tear_down-finalized}
use http_c.Server.Lifecycle.{Change}
use http_c.Server.Lifecycle.Run.{
  Serving, follow_tick, is_initialized, call_next_tick, after_events, follow_events, serve_round,
  finish, finish_loop, serve,
}

module _ (lib : CommonLib) (env : Env)
    (run_once : Option ℕ → List Slot × Shared env.World → Serving env.World)
    (set_state : ServerState → env.World → env.World) where
  open env use {World}

  -- event_loop_run_once does nothing to the table but call the callbacks.
  unfoldable pub CallsBack : Type 0
  CallsBack =
      (timeout : Option ℕ) (s : List Slot × Shared World) → Runs lib env s (run_once timeout s).1

  follow_tick-Runs :
      (tick : Option ℕ) (slots : List Slot) (shared : Shared World) (w : World)
      → Runs lib env
          (slots, shared)
          (
            slots,
            (follow_tick lib env run_once set_state tick shared (record shared { world = w })).1,
          )
  follow_tick-Runs none slots shared w = start
  follow_tick-Runs (some ms) slots shared w = step start (elsewhere w slots shared)

  after_events-Runs :
      (s : List Slot × Shared World) → Runs lib env s (after_events lib env run_once set_state s)
  unfolding after_events
  after_events-Runs (slots, shared) =
      let (slots1, shared1) = flush_pending_responses lib env slots shared in
      let (slots2, shared2) = sweep_pending_deadlines lib env slots1 shared1 in
      step (step (step start (flushes slots shared)) (expires slots1 shared1))
        (sweeps slots2 shared2)

  either-Runs :
      (s : List Slot × Shared World) (test : Bool) (a b : Bool × Serving World)
      → Runs lib env s a.1.1
      → Runs lib env s b.1.1
      → Runs lib env s (if test then a else b).1.1
  either-Runs s true a b r q = r
  either-Runs s false a b r q = q

  follow_events-Runs :
      (s : Serving World) → Runs lib env s.1 (follow_events lib env run_once set_state s).1.1
  unfolding follow_events
  follow_events-Runs (result, s) =
      either-Runs s (lib.is_error result) (false, (result, s))
        (true, (result, after_events lib env run_once set_state s)) start (after_events-Runs s)

  serve_round-Runs :
      CallsBack
      → (s : Serving World) → Runs lib env s.1 (serve_round lib env run_once set_state s).1.1
  unfolding serve_round call_next_tick call_now CallsBack
  serve_round-Runs calls (result, (slots, shared)) =
      let (state, world) = env.server_get_state shared.world in
      let shared' : Shared World = record shared { world = world } in
      let (now, world') = env.now_ms world in
      let (timeout, shared'') = call_next_tick lib env run_once set_state (slots, shared') in
      let seen : Runs lib env (slots, shared) (slots, shared') =
        step start (elsewhere world slots shared) in
      let ticked : Runs lib env (slots, shared) (slots, shared'') = Runs_trans lib env seen (
        follow_tick-Runs (next_tick_ms shared'.listen_registered env.idle_timeout_ms now slots)
          slots shared' world') in
      let served = run_once timeout (slots, shared'') in
      either-Runs (slots, shared) (is_running state)
        (follow_events lib env run_once set_state served) (false, (result, (slots, shared')))
        (Runs_trans lib env ticked
          (Runs_trans lib env (calls timeout (slots, shared'')) (follow_events-Runs served)))
        seen

  finish-finalized :
      (chosen : Chosen) (listen_sd : ℕ) (slots : List Slot) (shared : Shared World)
      (s : Option (Serving World)) {r : ResultCode × List Change × (List Slot × Shared World)}
      → AllSound slots
      → owed_all chosen slots ≡ 0
      → shared.effects ≡ []
      → ((t : Serving World) → s ≡ some t → Runs lib env (slots, shared) t.1)
      → finish_loop lib env run_once set_state listen_sd s ≡ some r
      → finals chosen r.2.1.effects ≡ starts chosen r.2.1.effects
  unfolding finish_loop
  finish-finalized chosen listen_sd slots shared none sound owes fresh runs done =
      absurd (ground arith)
  finish-finalized chosen listen_sd slots shared (some t) {r} sound owes fresh runs done =
      subst
        (λ (r : ResultCode × List Change × (List Slot × Shared World)).
          finals chosen r.2.1.effects ≡ starts chosen r.2.1.effects)
        (some-injective (finish lib env run_once set_state listen_sd t) r done)
        (tear_down-finalized chosen lib env listen_sd slots shared sound owes fresh (runs t refl))

  -- Where event_loop_run_once changes the table by its callbacks alone, a run of http_server_run
  -- that has come to its end, from a table of sound slots that owes nothing and before any call,
  -- has called every chosen finalizer exactly as often as a streamed body with it was started.
  pub serve-finalized :
      (chosen : Chosen) (fuel listen_sd : ℕ) (slots : List Slot) (shared : Shared World)
      {r : ResultCode × List Change × (List Slot × Shared World)}
      → CallsBack
      → AllSound slots
      → owed_all chosen slots ≡ 0
      → shared.effects ≡ []
      → serve lib env run_once set_state fuel listen_sd slots shared ≡ some r
      → finals chosen r.2.1.effects ≡ starts chosen r.2.1.effects
  unfolding serve
  serve-finalized chosen fuel listen_sd slots shared {r} calls sound owes fresh done =
      let (state, world) = env.server_get_state shared.world in
      let world' = if is_initialized state then set_state running world else world in
      let begun : Shared World = record shared { listen_registered = true; world = world' } in
      finish-finalized chosen listen_sd slots begun
        (iterate (serve_round lib env run_once set_state) fuel (ok, (slots, begun))) sound owes
        fresh
        (λ t ended.
          iterate-ends (serve_round lib env run_once set_state)
            (λ (s : Serving World). Runs lib env (slots, begun) s.1)
            (λ (s : Serving World). Runs lib env (slots, begun) s.1)
            (λ s runs _. Runs_trans lib env runs (serve_round-Runs calls s))
            (λ s runs _. Runs_trans lib env runs (serve_round-Runs calls s)) fuel
            (ok, (slots, begun)) start ended)
        done
