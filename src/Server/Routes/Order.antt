-- ===== src/Server/Routes/Order.antt =====
-- The order of the routes decides, and one that is added later does not take requests away.
use http_c.Prelude.{
  ◌≡◌, refl, sym, ap, ◌∙◌, Bool, true, false, Bool-cases, inl, inr, Option, Option-cases, ◌⊎◌, none,
  some, List, [], ◌∷◌, ◌++◌, arith,
}
use http_c.Common.{Bytes}
use http_c.Span.{CommonLib}
use http_c.Server.Routes.{Route, runs, answers_404, answers_405, route_loop, dispatch}

module _ (lib : CommonLib) {R : Type 0} (match_path : R → Bytes → Option (List Bytes))
    (method path : Bytes) where
  abbrev loop : Bool → List (Route R) → Bool × Option (Route R × List Bytes)
  loop matched routes = route_loop lib match_path method path matched routes

  loop-other :
      (matched : Bool) (r : Route R) (routes : List (Route R))
      → lib.compare_is_zero r.method method ≡ false
      → loop matched (r ∷ routes) ≡ loop matched routes
  unfolding route_loop
  loop-other matched r routes h = rw (h, route_loop) refl

  loop-miss :
      (matched : Bool) (r : Route R) (routes : List (Route R))
      → lib.compare_is_zero r.method method ≡ true
      → match_path r.compiled_path path ≡ none
      → loop matched (r ∷ routes) ≡ loop true routes
  unfolding route_loop
  loop-miss matched r routes h k = rw (h, k, route_loop) refl

  loop-hit :
      (matched : Bool) (r : Route R) (routes : List (Route R)) {captures : List Bytes}
      → lib.compare_is_zero r.method method ≡ true
      → match_path r.compiled_path path ≡ some captures
      → loop matched (r ∷ routes) ≡ (true, some (r, captures))
  unfolding route_loop
  loop-hit matched r routes h k = rw (h, k, route_loop) refl

  abbrev go_on :
      List (Route R) → Bool × Option (Route R × List Bytes) → Bool × Option (Route R × List Bytes)
  go_on more (matched, none) = loop matched more
  go_on more (matched, some found) = (matched, some found)

  -- What the loop found before the end stays what it finds; otherwise it goes on behind the end.
  loop-append :
      (matched : Bool) (routes more : List (Route R))
      → loop matched (routes ++ more) ≡ go_on more (loop matched routes)
  loop-append matched [] more = unfold route_loop in refl
  loop-append matched (r ∷ routes) more = elim (Bool-cases (lib.compare_is_zero r.method method)) [
    | inl e ↦ elim (Option-cases (match_path r.compiled_path path)) [
      | inl f ↦
          loop-miss matched r (routes ++ more) e f
          ∙ loop-append true routes more
          ∙ ap (go_on more) (sym (loop-miss matched r routes e f))
      | inr (captures, f) ↦
          loop-hit matched r (routes ++ more) e f
          ∙ ap (go_on more) (sym (loop-hit matched r routes e f))
    ]
    | inr e ↦
        loop-other matched r (routes ++ more) e
        ∙ loop-append matched routes more
        ∙ ap (go_on more) (sym (loop-other matched r routes e))
  ]

  -- The loop's answer, by whether a route was found.
  found-dispatch :
      (routes : List (Route R)) {route : Route R} {captures : List Bytes}
      → dispatch lib match_path routes method path ≡ runs route captures
      → (loop false routes).1 ≡ some (route, captures)
  unfolding dispatch
  found-dispatch routes h = ground arith

  -- A request that a route answers is answered by the same route, with the same captures, however
  -- many routes are added behind.
  pub dispatch-append :
      (routes more : List (Route R)) {route : Route R} {captures : List Bytes}
      → dispatch lib match_path routes method path ≡ runs route captures
      → dispatch lib match_path (routes ++ more) method path ≡ runs route captures
  unfolding dispatch
  dispatch-append routes more h =
      ground (arith, found-dispatch routes h, loop-append false routes more)

  -- A request whose method and path the last of the routes matches, and that no route before it
  -- answers, is answered by that route.
  pub dispatch-last :
      (routes : List (Route R)) (route : Route R) {captures : List Bytes}
      → (dispatch lib match_path routes method path ≡ answers_404)
        ⊎ (dispatch lib match_path routes method path ≡ answers_405)
      → route.method ≡ method
      → match_path route.compiled_path path ≡ some captures
      → dispatch lib match_path (routes ++ (route ∷ [])) method path ≡ runs route captures
  unfolding dispatch
  dispatch-last routes route h same hit = ground (
    arith,
    loop-append false routes (route ∷ []),
    loop-hit (loop false routes).0 route [] ((lib.compare_iff route.method method).1 same) hit,
  )
