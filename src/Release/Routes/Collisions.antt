-- ===== src/Release/Routes/Collisions.antt =====
-- review_routes.py: the files of `public_file_map`, their owners and their targets.
use opcua_drafts.Prelude.{
  String, Bool, true, false, ◌==◌, List, [], ◌∷◌, elem, NoDup, All, Result, ok, err, value_error,
  bind_ok, if◌then◌else◌, ◌≡◌, ◌⊎◌, refl, sym, ◌∙◌, subst, inl, inr, Bool-cases, arith, eq_refl,
  false≢true, same,
}
use opcua_drafts.Release.Routes.{Route, excludes, require_content, route_translate}
use opcua_drafts.Release.Routes.Export.{
  Plan, Owner, has_id, owner_for_public, closure_routes, export_files, public_file_map,
}

-- A file that goes to `target`: its owner is among the routes, does not exclude it and translates
-- it to a content path.
abbrev pub Exported : Plan → List (String × Route) → String × String → Type 0
Exported plan routes p =
    (o : Owner) × (owner_for_public plan p.0 ≡ ok o)
    × (has_id o.owner routes ≡ true)
    × (excludes o.route p.0 ≡ false)
    × (route_translate o.route false p.0 ≡ ok p.1)
    × (require_content o.route p.1 ≡ ok tt)

abbrev pub targets_of : List (String × String) → List String
targets_of [] = []
targets_of (p ∷ ps) = p.1 ∷ targets_of ps

choice :
    (b : Bool) (x y : Result (List (String × String))) (p : List (String × String))
    → elim b [ true ↦ x | false ↦ y ] ≡ ok p
    → ((b ≡ true) × (x ≡ ok p)) ⊎ ((b ≡ false) × (y ≡ ok p))
choice true x y p h = inl (refl, h)
choice false x y p h = inr (refl, h)

required : (b : Bool) (u : Unit {0}) → (if b then ok tt else err value_error) ≡ ok u → b ≡ true
required true u h = refl
required false u h = cc h

refused : (b : Bool) (u : Unit {0}) → (if b then err value_error else ok tt) ≡ ok u → b ≡ false
refused true u h = cc h
refused false u h = refl

ok_pairs : (ps qs : List (String × String)) → ok ps ≡ ok qs → ps ≡ qs
ok_pairs ps qs h = cc h

-- The pairs are exported, and their targets are new and distinct.
Export : Plan → List (String × Route) → List String → List (String × String) → Type 0
Export plan routes targets pairs =
    All (Exported plan routes) pairs
    × NoDup (targets_of pairs)
    × ((t : String) → elem t (targets_of pairs) ≡ true → elem t targets ≡ false)

Export-one :
    (plan : Plan) (routes : List (String × Route)) (targets : List String) (path target : String)
    (rest : List (String × String))
    → elem target targets ≡ false
    → Exported plan routes (path, target)
    → Export plan routes (target ∷ targets) rest
    → Export plan routes targets ((path, target) ∷ rest)
unfolding Export
Export-one plan routes targets path target rest fresh e r = (
  (e, r.0),
  (once, r.1),
  λ t k. elim (Bool-cases (target == t)) [
    | inl d ↦ subst (λ z. elem z targets ≡ false) (same target t d) fresh
    | inr d ↦ ground (arith, r.2 t (ground arith))
  ],
)
  where
    once : elem target (targets_of rest) ≡ false
    once = elim (Bool-cases (elem target (targets_of rest))) [
      | inl d ↦ absurd (false≢true (sym (r.2 target d) ∙ ground (arith, eq_refl target)))
      | inr d ↦ d
    ]

export_files_lem :
    (plan : Plan) (routes : List (String × Route)) (targets paths : List String)
    (pairs : List (String × String))
    → export_files plan routes targets paths ≡ ok pairs
    → Export plan routes targets pairs
unfolding export_files Export
export_files_lem plan routes targets [] pairs h =
    subst (Export plan routes targets) (ok_pairs [] pairs h) (tt, tt, λ t e. absurd (false≢true e))
export_files_lem plan routes targets (path ∷ paths) pairs h =
    let owner = bind_ok (owner_for_public plan path) _ pairs h in
    let o = owner.0 in
    let moving =
      bind_ok (if has_id o.owner routes then ok (tt {0}) else err value_error) _ pairs owner.2 in
    elim (choice (excludes o.route path) _ _ pairs moving.2) [
      | inl e ↦ export_files_lem plan routes targets paths pairs e.1
      | inr e ↦
          (let translated = bind_ok (route_translate o.route false path) _ pairs e.1 in
            let target = translated.0 in
            let content = bind_ok (require_content o.route target) _ pairs translated.2 in
            let new =
              bind_ok (if elem target targets then err value_error else ok (tt {0})) _ pairs
                content.2 in
            let rest = bind_ok (export_files plan routes (target ∷ targets) paths) _ pairs new.2 in
            subst (Export plan routes targets) (ok_pairs ((path, target) ∷ rest.0) pairs rest.2) (
              Export-one plan routes targets path target rest.0
                (refused (elem target targets) new.0 new.1)
                (
                  o,
                  owner.1,
                  required (has_id o.owner routes) moving.0 moving.1,
                  e.0,
                  translated.1,
                  content.1,
                )
                (export_files_lem plan routes (target ∷ targets) paths rest.0 rest.1)))
    ]

-- If `public_file_map` returns, the routes of the closure are found; each of its files has an owner
-- among them that does not exclude it and translates it to its target, which is a content path;
-- and no two files have the same target.
pub public_file_map_lem :
    (plan : Plan) (id : String) (files : List String) (pairs : List (String × String))
    → public_file_map plan id files ≡ ok pairs
    → (routes : List (String × Route)) × (closure_routes plan id ≡ ok routes)
      × All (Exported plan routes) pairs
      × NoDup (targets_of pairs)
unfolding public_file_map Export
public_file_map_lem plan id files pairs h =
    let found = bind_ok (closure_routes plan id) _ pairs h in
    let all = export_files_lem plan found.0 [] files pairs found.2 in
    (found.0, found.1, all.0, all.1)
