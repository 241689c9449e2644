-- ===== src/Server/Routes.antt =====
-- The routes of src/http_server.c: http_server_add_route and the choice of a route in
-- run_handler_and_serialize. span_regex_compile and span_regex_match are parameters.
pub mod Order
use http_c.Prelude.{
  ℕ, suc, Bool, true, false, not, ◌||◌, Option, none, some, List, [], ◌∷◌, ◌++◌, length,
  if◌then◌else◌, ◌==◌,
}
use http_c.Common.{Bytes, ResultCode, ok, error, invalid_argument, insufficient_size}
use http_c.Span.{CommonLib}
use http_c.Headers.{is_empty}

-- http_route_t, with a compiled pattern of type R; a handler and its context are opaque numbers.
pub record Route (R : Type 0) : Type 0 where
  pub method : Bytes
  pub path : Bytes
  pub compiled_path : R
  pub handler : ℕ
  pub user_context : Option ℕ

-- the routes of http_server_storage_t in use, and how many it can hold
pub record RouteTable (R : Type 0) : Type 0 where
  pub route_count_max : ℕ
  pub routes : List (Route R)

-- What a request leads to: a handler with its captures, or an answer of the server itself.
pub data Dispatch (R : Type 0) : Type 0 where
  runs : Route R → List Bytes → Dispatch R
  answers_404 answers_405 : Dispatch R

module _ {R : Type 0} (compile : Bytes → Option R) where
  -- http_server_add_route; a NULL server and a NULL handler are `none`
  unfoldable pub add_route :
      Option (RouteTable R)
      → Bytes
      → Bytes
      → Option ℕ
      → Option ℕ
      → Option (RouteTable R) × ResultCode
  add_route none method path handler user_context = (none, invalid_argument)
  add_route (some table) method path none user_context = (some table, invalid_argument)
  add_route (some table) method path (some handler) user_context =
      if is_empty method || is_empty path
      then (some table, invalid_argument)
      else if length table.routes == table.route_count_max
      then (some table, insufficient_size)
      else elim (compile path) [
        | none ↦ (some table, error)
        | some compiled ↦ (
          some (record table {
            routes =
                table.routes
                ++ (record {
                  method = method;
                  path = path;
                  compiled_path = compiled;
                  handler = handler;
                  user_context = user_context;
                }
                    ∷ []);
          }),
          ok,
        )
      ]

module _ (lib : CommonLib) {R : Type 0} (match_path : R → Bytes → Option (List Bytes)) where
  -- The loop over the routes: whether a method fitted so far, and the route that is run.
  unfoldable pub route_loop :
      Bytes → Bytes → Bool → List (Route R) → Bool × Option (Route R × List Bytes)
  route_loop method path method_matched [] = (method_matched, none)
  route_loop method path method_matched (route ∷ routes) =
      elim (lib.compare_is_zero route.method method) [
        | false ↦ route_loop method path method_matched routes
        | true ↦ elim (match_path route.compiled_path path) [
          | none ↦ route_loop method path true routes
          | some captures ↦ (true, some (route, captures))
        ]
      ]

  -- what run_handler_and_serialize does with the end of the loop
  abbrev pub dispatch_of : Bool → Bool × Option (Route R × List Bytes) → Dispatch R
  dispatch_of no_routes (method_matched, some (route, captures)) = runs route captures
  dispatch_of no_routes (method_matched, none) =
      if method_matched || no_routes then answers_404 else answers_405

  -- the part of run_handler_and_serialize that chooses the handler or the status
  unfoldable pub dispatch : List (Route R) → Bytes → Bytes → Dispatch R
  unfolding route_loop
  dispatch routes method path =
      dispatch_of (length routes == 0) (route_loop method path false routes)
