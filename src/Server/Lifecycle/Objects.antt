-- ===== src/Server/Lifecycle/Objects.antt =====
-- What a server creates is destroyed in the reverse order, on the error paths too.
use http_c.Prelude.{
  ℕ, ◌≡◌, ◌≢◌, ◌⊎◌, refl, Bool, true, false, Bool-cases, inl, inr, not, Option, none, some, List,
  [], ◌∷◌, ◌++◌, arith, length, ◌==◌, ◌||◌, ◌&&◌,
}
use http_c.Common.{ok, error}
use http_c.Span.{CommonLib}
use http_c.Server.{Slot}
use http_c.Server.Loop.{Env, Shared, ServerState, is_ok, is_running}
use http_c.Server.Lifecycle.{
  Object, state_mutex, state_cond, pending_mutex, Change, creates, destroys, Config, Server,
  http_server_init, http_server_deinit, fresh,
}
use http_c.Server.Lifecycle.Run.{Answers, Serving, set_up, finish}

abbrev same_object : Object → Object → Bool
same_object Object.state_mutex Object.state_mutex = true
same_object Object.state_cond Object.state_cond = true
same_object Object.pending_mutex Object.pending_mutex = true
same_object Object.local_endpoint Object.local_endpoint = true
same_object Object.event_loop Object.event_loop = true
same_object _ _ = false

-- The objects that are left, the newest first, where each one is destroyed before those that were
-- created before it; `none` where that is not so.
unfoldable pub replay : List Object → List Change → Option (List Object)
replay alive [] = some alive
replay alive (creates object ∷ changes) = replay (object ∷ alive) changes
replay [] (destroys object ∷ changes) = none
replay (newest ∷ alive) (destroys object ∷ changes) = elim (same_object newest object) [
  | true ↦ replay alive changes
  | false ↦ none
]

-- what a successful http_server_init leaves
abbrev pub init_objects : List Object
init_objects = pending_mutex ∷ state_cond ∷ state_mutex ∷ []

-- http_server_init ends with ok exactly where it sets up the server, and leaves its three objects
-- then; in every other case it leaves none. http_server_deinit destroys the three.
pub http_server_init-objects :
    {R : Type 0} (can : Object → Bool) (config : Option Config) (storage : Option (List Slot × ℕ))
    (server : Server R)
    → let (made, result, changes) = http_server_init {R = R} can config storage in
      (((result ≡ ok)
          × (replay [] changes ≡ some init_objects)
          × ((s : Server R) × (made ≡ some s)))
        ⊎ ((made ≡ none) × (result ≢ ok) × (replay [] changes ≡ some [])))
      × (replay init_objects (http_server_deinit server).2 ≡ some [])
unfolding http_server_init http_server_deinit replay
http_server_init-objects can none storage server =
    (inr (refl, λ e. absurd (ground arith), refl), refl)
http_server_init-objects can (some config) none server =
    (inr (refl, λ e. absurd (ground arith), refl), refl)
http_server_init-objects {R} can (some config) (some (slots, route_count)) server = (
  elim (Bool-cases (length slots == 0 || route_count == 0)) [
    | inl e ↦ inr (ground arith, λ f. ground arith, ground arith)
    | inr e ↦ elim (Bool-cases (can state_mutex && can state_cond && can pending_mutex)) [
      | inl f ↦ inl (ground arith, ground arith, (fresh config slots route_count, ground arith))
      | inr f ↦ inr (ground arith, λ g. ground arith, ground arith)
    ]
  ],
  refl,
)

-- http_server_run leaves no object behind where it returns before its loop, and where it goes on,
-- its end destroys what it created, in reverse order, in whatever state the loop has left.
pub set_up-objects :
    (lib : CommonLib) (env : Env)
    (run_once : Option ℕ → List Slot × Shared env.World → Serving env.World)
    (set_state : ServerState → env.World → env.World) (state : ServerState) (answers : Answers)
    (listen_sd : ℕ) (served : Serving env.World)
    → let (goes_on, result, changes) = set_up lib state answers in
      let (result', changes', left) = finish lib env run_once set_state listen_sd served in
      ((goes_on ≡ true) × (result ≡ ok) × (replay [] (changes ++ changes') ≡ some []))
      ⊎ ((goes_on ≡ false) × (result ≡ error) × (replay [] changes ≡ some []))
unfolding set_up replay finish
set_up-objects lib env run_once set_state state answers listen_sd (r, (slots, shared)) =
    elim (Bool-cases (
      is_running state
      || lib.is_error answers.endpoint_init
      || not (is_ok answers.set_nonblocking)
      || lib.is_error answers.loop_init
      || not (is_ok answers.register))) [
        | inl e ↦ inr (ground arith, ground arith, ground arith)
        | inr e ↦ inl (ground arith, ground arith, ground arith)
      ]
