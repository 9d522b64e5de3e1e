-- ===== src/Release/Routes/ClosureRoutes.antt =====
-- review_routes.py: the routes of a release closure, `closure_routes`.
use opcua_drafts.Prelude.{
  String, Bool, true, false, ◌==◌, List, [], ◌∷◌, all, All, ok, err, value_error, bind_ok,
  if◌then◌else◌, ◌≡◌, refl, subst, &&-left, &&-right, false≢true, same,
}
use opcua_drafts.Release.Manifest.{closure}
use opcua_drafts.Release.Routes.{Route}
use opcua_drafts.Release.Routes.Export.{Plan, route_for, routes_for, one_repository, closure_routes}

-- The routes of the ids, in their order.
abbrev pub Routed : Plan → List String → List (String × Route) → Type 0
Routed plan [] [] = Unit
Routed plan (id ∷ ids) (r ∷ rs) = (r.0 ≡ id) × (route_for plan id ≡ ok r.1) × Routed plan ids rs
Routed plan _ _ = ⊥

ok_routes : (ps qs : List (String × Route)) → ok ps ≡ ok qs → ps ≡ qs
ok_routes ps qs h = cc h

routes_for-Routed :
    (plan : Plan) (ids : List String) (routes : List (String × Route))
    → routes_for plan ids ≡ ok routes
    → Routed plan ids routes
routes_for-Routed plan [] routes h = subst (Routed plan []) (ok_routes [] routes h) tt
routes_for-Routed plan (id ∷ ids) routes h =
    let one = bind_ok (route_for plan id) _ routes h in
    let rest = bind_ok (routes_for plan ids) _ routes one.2 in
    subst (Routed plan (id ∷ ids)) (ok_routes ((id, one.0) ∷ rest.0) routes rest.2)
      (refl, one.1, routes_for-Routed plan ids rest.0 rest.1)

-- The routes lead to one repository.
abbrev pub OneRepository : List (String × Route) → Type 0
OneRepository routes = (repository : String) × All (λ q. q.1.repository ≡ repository) routes

all-same :
    (repository : String) (rs : List (String × Route))
    → all (λ q. q.1.repository == repository) rs ≡ true
    → All (λ q. q.1.repository ≡ repository) rs
all-same repository [] h = tt
all-same repository (q ∷ qs) h =
    let p = λ (r : String × Route). r.1.repository == repository in
    (
      same q.1.repository repository (&&-left (p q) (all p qs) h),
      all-same repository qs (&&-right (p q) (all p qs) h),
    )

one_repository-OneRepository :
    (rs : List (String × Route)) → one_repository rs ≡ true → OneRepository rs
one_repository-OneRepository [] h = absurd (false≢true h)
one_repository-OneRepository (r ∷ rs) h = (r.1.repository, (refl, all-same r.1.repository rs h))

checked :
    (b : Bool) (p q : List (String × Route))
    → (if b then ok p else err value_error) ≡ ok q
    → (b ≡ true) × (p ≡ q)
checked true p q h = (refl, ok_routes p q h)
checked false p q h = cc h

-- If `closure_routes` returns, it returns the routes of the ids of the closure, in their order, and
-- they lead to one repository.
pub closure_routes_lem :
    (plan : Plan) (id : String) (routes : List (String × Route))
    → closure_routes plan id ≡ ok routes
    → (ids : List String) × (closure plan.specs id ≡ ok ids)
      × Routed plan ids routes
      × OneRepository routes
unfolding closure_routes
closure_routes_lem plan id routes h =
    let ids = bind_ok (closure plan.specs id) _ routes h in
    let found = bind_ok (routes_for plan ids.0) _ routes ids.2 in
    let one = checked (one_repository found.0) found.0 routes found.2 in
    (
      ids.0,
      ids.1,
      subst (Routed plan ids.0) one.1 (routes_for-Routed plan ids.0 found.0 found.1),
      subst OneRepository one.1 (one_repository-OneRepository found.0 one.0),
    )
