-- ===== src/Examples/Routes.antt =====
-- A table of routes whose patterns are plain paths.
use http_c.Prelude.{Option, none, some, List, [], ◌∷◌, ◌++◌, ◌≡◌, refl, if◌then◌else◌}
use http_c.Common.{Bytes, ok}
use http_c.Span.{CommonLib}
use http_c.Span.Reference.{reference}
use http_c.Server.Routes.{Route, runs, answers_404, answers_405, add_route, dispatch}
use http_c.Server.Routes.Order.{dispatch-append}
use http_c.Prelude.Text.{bytes}

-- A pattern is a path, and it matches that path.
abbrev pub same_path : Bytes → Bytes → Option (List Bytes)
same_path pattern path = if CommonLib.compare_is_zero reference pattern path then some [] else none

abbrev pub get_a : Route Bytes
get_a = record {
  method = bytes "GET";
  path = bytes "/a";
  compiled_path = bytes "/a";
  handler = 1;
  user_context = none;
}

abbrev get_b : Route Bytes
get_b = record {
  method = bytes "GET";
  path = bytes "/b";
  compiled_path = bytes "/b";
  handler = 2;
  user_context = none;
}

add_b :
    add_route
      (λ (path : Bytes). some path)
      (some (record { route_count_max = 2; routes = get_a ∷ [] }))
      (bytes "GET")
      (bytes "/b")
      (some 2)
      none
    ≡ (some (record { route_count_max = 2; routes = get_a ∷ get_b ∷ [] }), ok)
unfolding add_route
add_b = refl

no_route_for_b : dispatch reference same_path (get_a ∷ []) (bytes "GET") (bytes "/b") ≡ answers_404
unfolding dispatch reference
no_route_for_b = refl

no_post : dispatch reference same_path (get_a ∷ []) (bytes "POST") (bytes "/a") ≡ answers_405
unfolding dispatch reference
no_post = refl

dispatch-append_example :
    dispatch reference same_path ((get_a ∷ []) ++ (get_b ∷ [])) (bytes "GET") (bytes "/a")
    ≡ runs get_a []
unfolding dispatch reference
dispatch-append_example =
    dispatch-append reference same_path (bytes "GET") (bytes "/a") (get_a ∷ []) (get_b ∷ []) refl
