-- ===== src/Server/Loop/Finalizers/Served.antt =====
-- While the server runs and when it has stopped: finalizers are called as often as they were due.
use http_c.Prelude.{◌∙◌, ◌%◌, ◌^◌, ℕ, ◌+◌, ◌≡◌, refl, ap, false, List, [], ◌∷◌, arith}
use http_c.Span.{CommonLib}
use http_c.Server.{Slot}
use http_c.Server.Loop.{Env, Shared, end_stream, leave_loop, call_deinit}
use http_c.Server.Loop.Table.{each_slot, tear_down_slot, tear_down}
use http_c.Server.Loop.Steps.{
  LoopStep, io, accepts, flushes, expires, sweeps, posts, elsewhere, Runs, start, step,
}
use http_c.Server.Loop.Finalizers.{
  Chosen, starts, finals, owed, IsSound, plain, KeepsTo, end_stream-KeepsTo, leave_loop-quiet,
  either,
}
use http_c.Server.Loop.Finalizers.Sending.{stays}
use http_c.Server.Loop.Finalizers.Events.{on_connection_io-Keeps}
use http_c.Server.Loop.Finalizers.Rounds.{AllSound, also, owed_all, KeepsAll, each_slot-KeepsAll}
use http_c.Server.Loop.Finalizers.Callbacks.{
  join_all, flush-KeepsAll, expire-KeepsAll, sweep-KeepsAll, post_at-same, listen-KeepsAll,
  put-KeepsAll,
}

module _ (chosen : Chosen) (lib : CommonLib) (env : Env) where
  open env use {World}

  LoopStep-KeepsAll :
      (s t : List Slot × Shared World)
      → AllSound s.0
      → LoopStep lib env s t
      → KeepsAll chosen env s.0 s.1 t
  LoopStep-KeepsAll s t h (io failed fuel i slots shared slot slot' shared' at used done) =
      put-KeepsAll chosen lib env i slots slot slot' shared shared' at h
        (λ sound. on_connection_io-Keeps chosen lib env failed fuel slot shared sound used done)
  LoopStep-KeepsAll s t h (accepts fd slots shared) =
      listen-KeepsAll chosen lib env fd slots shared h
  LoopStep-KeepsAll s t h (flushes slots shared) = flush-KeepsAll chosen lib env slots shared h
  LoopStep-KeepsAll s t h (expires slots shared) = expire-KeepsAll chosen lib env slots shared h
  LoopStep-KeepsAll s t h (sweeps slots shared) = sweep-KeepsAll chosen lib env slots shared h
  LoopStep-KeepsAll s t h (posts i generation completion slots shared) =
      let (sound, same) = post_at-same chosen lib env i generation completion slots h in
      record { sound = sound; balance = omega arith }
  LoopStep-KeepsAll s t h (elsewhere w slots shared) = record { sound = h; balance = refl }

  Runs-KeepsAll :
      (s : List Slot × Shared World) {u : List Slot × Shared World}
      → AllSound s.0
      → Runs lib env s u
      → KeepsAll chosen env s.0 s.1 u
  Runs-KeepsAll s h start = record { sound = h; balance = refl }
  Runs-KeepsAll s {u} h (step {t} r st) =
      let k = Runs-KeepsAll s h r in
      join_all chosen lib env s.0 s.1 t u k (LoopStep-KeepsAll t u k.sound st)

  tear_down_slot-KeepsTo :
      (slot : Slot) (shared : Shared World)
      → IsSound slot
      → KeepsTo chosen env slot shared (tear_down_slot lib env slot shared)
  unfolding tear_down_slot call_deinit starts finals owed
  tear_down_slot-KeepsTo slot shared h =
      let (k, closed) = end_stream-KeepsTo chosen env slot shared in
      let b = k.balance in
      let r1 = end_stream env slot shared in
      let (s, f, a) = leave_loop-quiet chosen env r1.0 r1.1 in
      let r2 = leave_loop env r1.0 r1.1 in
      let gone = record r2.0 {
        pending_ready = false;
        pending_cancelled = false;
        generation = (r2.0.generation + 1) % 2 ^ 32;
        in_use = false;
      } in
      either chosen env slot shared slot.in_use (gone, call_deinit env r2.0.sd r2.1) (slot, shared)
        (record { sound = plain (a ∙ closed); balance = ground arith })
        (stays chosen lib env slot shared h)

  tear_down_slot-inactive :
      (slot : Slot) (shared : Shared World)
      → IsSound slot
      → (tear_down_slot lib env slot shared).0.stream_active ≡ false
  unfolding tear_down_slot
  tear_down_slot-inactive slot shared h =
      let (k, closed) = end_stream-KeepsTo chosen env slot shared in
      let r1 = end_stream env slot shared in
      let (s, f, a) = leave_loop-quiet chosen env r1.0 r1.1 in ground arith

  tear_down-owes_none :
      (slots : List Slot) (shared : Shared World)
      → AllSound slots
      → owed_all chosen (each_slot (tear_down_slot lib env) slots shared).0 ≡ 0
  unfolding each_slot owed_all owed
  tear_down-owes_none [] shared h = refl
  tear_down-owes_none (slot ∷ slots) shared (also h hs) =
      let inactive = tear_down_slot-inactive slot shared h in
      let rest = tear_down-owes_none slots (tear_down_slot lib env slot shared).1 hs in ground arith

  -- Along any run of the loop, from a table of sound slots that owes nothing and before any call,
  -- a chosen finalizer was called as often as a streamed body with it was started, but for the
  -- slots that still stream such a body; and the slots stay sound.
  pub Runs-accounted :
      (slots : List Slot) (shared : Shared World) {t : List Slot × Shared World}
      → AllSound slots
      → owed_all chosen slots ≡ 0
      → shared.effects ≡ []
      → Runs lib env (slots, shared) t
      → AllSound t.0 × (starts chosen t.1.effects ≡ owed_all chosen t.0 + finals chosen t.1.effects)
  unfolding starts finals
  Runs-accounted slots shared h owes fresh runs =
      let k = Runs-KeepsAll (slots, shared) h runs in
      let b = k.balance in
      let st = ap (starts chosen) fresh in
      let fi = ap (finals chosen) fresh in (k.sound, omega arith)

  -- When http_server_run has torn down the table after such a run, every chosen finalizer was
  -- called exactly as often as a streamed body with it was started.
  pub tear_down-finalized :
      (listen_sd : ℕ) (slots : List Slot) (shared : Shared World) {t : List Slot × Shared World}
      → AllSound slots
      → owed_all chosen slots ≡ 0
      → shared.effects ≡ []
      → Runs lib env (slots, shared) t
      → finals chosen (tear_down lib env listen_sd t.0 t.1).1.effects
        ≡ starts chosen (tear_down lib env listen_sd t.0 t.1).1.effects
  unfolding tear_down starts finals
  tear_down-finalized listen_sd slots shared {t} h owes fresh runs =
      let (sound, account) = Runs-accounted slots shared h owes fresh runs in
      let step = tear_down_slot lib env in
      let k = each_slot-KeepsAll chosen env step tear_down_slot-KeepsTo t.0 t.1 sound in
      let b = k.balance in let none_left = tear_down-owes_none t.0 t.1 sound in ground arith
