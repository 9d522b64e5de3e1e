-- ===== src/Release/Manifest/Cycles.antt =====
-- The last loop of `_validate_relations` in manifest.py: the search for cycles of the declared
-- relations.
pub mod Paths
pub mod Visit
pub mod Acyclic
pub mod Tests
use opcua_drafts.Prelude.{
  ℕ, zero, suc, String, true, false, not, Option, none, some, List, [], ◌∷◌, ◌++◌, length, ◌==◌,
  elem, filter, Result, ok, err, value_error, recursion_error, ◌>>=◌, refl, ◌≡◌,
}
use opcua_drafts.Release.Sorting.{sort}
use opcua_drafts.Release.Manifest.{Manifest, spec, keys, spec_ids, add_new}

-- `visiting`, `visited`, `stack` and the cycles that `problems` reports.
pub record Search : Type 0 where
  pub visiting : List String
  pub visited : List String
  pub stack : List String
  pub cycles : List (List String)

-- The known ids among `sorted(set(closure) | set(vendor))`.
abbrev pub declared : Manifest → String → Result (List String)
declared m current = do
  s ← spec m current
  ok (filter (λ dep. elem dep (keys m)) (sort (add_new s.vendors (add_new s.closes_over []))))

-- stack[stack.index(current):]
abbrev pub cut_from : String → List String → Result (List String)
cut_from current [] = err value_error
cut_from current (x ∷ xs) =
    let rest = cut_from current xs in elim (x == current) [ true ↦ ok (x ∷ xs) | false ↦ rest ]

-- stack.pop()
abbrev pub init : List String → List String
init [] = []
init (x ∷ []) = []
init (x ∷ y ∷ ys) = x ∷ init (y ∷ ys)

abbrev pub report : String → Search → Result Search
report current v = do
  back ← cut_from current v.stack
  ok (record {
    visiting = v.visiting;
    visited = v.visited;
    stack = v.stack;
    cycles = v.cycles ++ (back ++ current ∷ []) ∷ [];
  })

abbrev pub push : String → Search → Search
push current v = record {
  visiting = v.visiting ++ current ∷ [];
  visited = v.visited;
  stack = v.stack ++ current ∷ [];
  cycles = v.cycles;
}

abbrev pub finish : String → Search → Search
finish current v = record {
  visiting = filter (λ x. not (current == x)) v.visiting;
  visited = add_new (current ∷ []) v.visited;
  stack = init v.stack;
  cycles = v.cycles;
}

-- A loop of `visit` calls.
abbrev pub visit_each : (String → Search → Result Search) → List String → Search → Result Search
visit_each call [] v = ok v
visit_each call (x ∷ xs) v = call x v >>= λ w. visit_each call xs w

module _ (next : String → Result (List String)) where
  -- The branch of `visit` for an id that is neither in `visiting` nor in `visited`.
  abbrev pub explore : (String → Search → Result Search) → String → Search → Result Search
  explore call current v = do
    deps ← next current
    w ← visit_each call deps (push current v)
    ok (finish current w)

  -- `visit`; the fuel stands for Python's stack.
  unfoldable pub visit_cycles : ℕ → String → Search → Result Search
  visit_cycles zero current v = err recursion_error
  visit_cycles (suc n) current v =
      let call = visit_cycles n in
      elim (elem current v.visiting) [
        | true ↦ report current v
        | false ↦ elim (elem current v.visited) [ true ↦ ok v | false ↦ explore call current v ]
      ]

-- The loop over all ids.
unfoldable pub cycle_search : Manifest → Result (List (List String))
cycle_search m = do
  v ←
      visit_each (visit_cycles (declared m) (suc (length (keys m)))) (spec_ids m)
        (record { visiting = []; visited = []; stack = []; cycles = [] })
  ok v.cycles
