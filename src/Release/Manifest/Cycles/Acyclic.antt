-- ===== src/Release/Manifest/Cycles/Acyclic.antt =====
-- manifest.py: what the cycles mean that the last loop of `_validate_relations` reports.
use opcua_drafts.Prelude.{
  suc, String, true, List, [], length, elem, filter, All, ok, ◌>>=◌, ◌≡◌, refl, sym, ◌∙◌, bind_ok,
  ok_inj, &&-right, arith, false≢true,
}
use opcua_drafts.Unseen.{unseen-length}
use opcua_drafts.Release.Sorting.{sort, elem-sort}
use opcua_drafts.Release.Manifest.{Manifest, spec, keys, spec_ids, add_new}
use opcua_drafts.Release.Manifest.Walk.{Edge, Reach, Closed}
use opcua_drafts.Release.Manifest.Known.{elem-filter, spec_known, known_spec}
use opcua_drafts.Release.Manifest.Cycles.{Search, declared, visit_cycles, cycle_search}
use opcua_drafts.Release.Manifest.Cycles.Paths.{IsCycle, Ranked-no_cycle}
use opcua_drafts.Release.Manifest.Cycles.Visit.{Steady, Explored, visit_each_lem, visit_cycles_lem}

declared-Closed : (m : Manifest) → Closed (declared m) (keys m)
declared-Closed m x k =
    let found = spec_known m x k in
    let all = sort (add_new found.0.vendors (add_new found.0.closes_over [])) in
    (
      filter (λ dep. elem dep (keys m)) all,
      rw (found.1),
      λ y e.
          &&-right (elem y all) (elem y (keys m))
            (sym (elem-filter (λ dep. elem dep (keys m)) y all) ∙ e),
    )

start : Search
start = record { visiting = []; visited = []; stack = []; cycles = [] }

start-Steady : (m : Manifest) → Steady (declared m) start
unfolding start
start-Steady m = record {
  stacked = refl;
  genuine = tt;
  ranked = λ q x y k e. absurd (false≢true k);
}

search :
    (m : Manifest)
    → (v : Search) × (cycle_search m ≡ ok v.cycles) × Explored (declared m) (spec_ids m) start v
unfolding cycle_search start
search m =
    let walk =
      visit_each_lem (declared m) (keys m) (suc (length (keys m)))
        (visit_cycles (declared m) (suc (length (keys m))))
        (visit_cycles_lem (declared m) (keys m) (declared-Closed m) (suc (length (keys m))))
        (spec_ids m) start (λ x e. sym (elem-sort x (keys m)) ∙ e) (start-Steady m) (λ c e. tt)
        (omega (arith, unseen-length (keys m) [])) in
    (walk.0, rw (walk.1, ◌>>=◌), walk.2)

-- For every manifest the search for cycles returns within its fuel, and each list that it reports
-- is a path along declared relations between known ids that ends where it begins.
pub cycle_search_lem :
    (m : Manifest)
    → (cycles : List (List String)) × (cycle_search m ≡ ok cycles)
      × All (IsCycle (declared m)) cycles
cycle_search_lem m = let v = search m in (v.0.cycles, v.1, v.2.steady.genuine)

Edge-known : (m : Manifest) (x y : String) → Edge (declared m) x y → elem x (keys m) ≡ true
Edge-known m x y e = let r = bind_ok (spec m x) _ e.0 e.1 in known_spec m x r.0 r.1

-- If the search for cycles reports none, the declared relations have no cycle: from no id that an
-- id declares does a path lead back to it.
pub cycle_search-acyclic :
    (m : Manifest) (x y : String)
    → cycle_search m ≡ ok []
    → Edge (declared m) x y
    → ¬ Reach (declared m) y x
cycle_search-acyclic m x y h e =
    let v = search m in
    let quiet : v.0.cycles ≡ [] = ok_inj v.0.cycles [] (sym v.1 ∙ h) in
    Ranked-no_cycle (declared m) v.0.visited x y (v.2.steady.ranked quiet)
      (v.2.enters quiet x (elem-sort x (keys m) ∙ Edge-known m x y e)) e
