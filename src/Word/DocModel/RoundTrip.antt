-- ===== src/Word/DocModel/RoundTrip.antt =====
-- opcdocx/docmodel.py: a document is read back from what `to_json` writes, and `iter_blocks` walks
-- over its regions.
use opcua_drafts.Prelude.{
  append-nil, String, some, List, [], ◌∷◌, ◌++◌, NoDup, All, dict_keys, dict_keys-append, lookup,
  lookup-pairs, set, set-fresh, NoDup-before, ok, ◌>>=◌, ◌≡◌, refl, sym, ◌∙◌, ap, subst,
  append_assoc,
}
use opcua_drafts.Word.DocModel.{
  Block, DocModel, Raw, pick_regions, to_json, read_regions, from_json, in_region, region_blocks,
  iter_blocks,
}
use opcua_drafts.Word.DocModel.Regions.{Ordered}

abbrev Regions : Type 0
Regions = List (String × List Block)

-- The regions are those of the dict.
abbrev Holds : Regions → Regions → Type 0
Holds regions rest = All (λ p. lookup p.0 regions ≡ some p.1) rest

one_more :
    (acc rest : Regions) (k : String) (r : List Block)
    → NoDup (dict_keys (acc ++ (k, r) ∷ rest))
    → (set k r acc ≡ acc ++ (k, r) ∷ []) × NoDup (dict_keys ((acc ++ (k, r) ∷ []) ++ rest))
one_more acc rest k r h = (
  set-fresh k r acc (NoDup-before acc rest k r h),
  subst (λ xs. NoDup (dict_keys xs)) (sym (append_assoc acc ((k, r) ∷ []) rest)) h,
)

pick_regions_lem :
    (regions rest acc : Regions)
    → Holds regions rest
    → NoDup (dict_keys (acc ++ rest))
    → pick_regions regions (dict_keys rest) acc ≡ ok (acc ++ rest)
pick_regions_lem regions [] acc h n = ap ok (sym (append-nil acc))
pick_regions_lem regions ((k, r) ∷ rest) acc h n =
    let step = one_more acc rest k r n in
    rw (h.0, ◌>>=◌)
      (ap (pick_regions regions (dict_keys rest)) step.0
        ∙ pick_regions_lem regions rest (acc ++ (k, r) ∷ []) h.1 step.1
        ∙ ap ok (append_assoc acc ((k, r) ∷ []) rest))

abbrev model_of : Regions → DocModel
model_of regions = record { regions = regions; order = dict_keys regions }

read_regions_lem :
    (raw : Raw) (rest acc : Regions)
    → Holds raw.regions rest
    → NoDup (dict_keys (acc ++ rest))
    → read_regions raw (dict_keys rest) (model_of acc) ≡ ok (model_of (acc ++ rest))
read_regions_lem raw [] acc h n = ap (λ xs. ok (model_of xs)) (sym (append-nil acc))
read_regions_lem raw ((k, r) ∷ rest) acc h n =
    let step = one_more acc rest k r n in
    rw (h.0, ◌>>=◌)
      (ap (read_regions raw (dict_keys rest)) (grown step.0)
        ∙ read_regions_lem raw rest (acc ++ (k, r) ∷ []) h.1 step.1
        ∙ ap (λ xs. ok (model_of xs)) (append_assoc acc ((k, r) ∷ []) rest))
  where
    grown :
        set k r acc ≡ acc ++ (k, r) ∷ []
        → record { regions = set k r acc; order = dict_keys acc ++ k ∷ [] }
          ≡ model_of (acc ++ (k, r) ∷ [])
    grown e = cc (e, dict_keys-append acc ((k, r) ∷ []))

-- A document whose order lists its regions, each once, is written by to_json without an error and
-- read back by from_json as it was.
pub from_json-to_json :
    (d : DocModel) → Ordered d → (raw : Raw) × (to_json d ≡ ok raw) × (from_json raw ≡ ok d)
unfolding to_json from_json
from_json-to_json d h =
    let n : NoDup (dict_keys d.regions) = subst NoDup h.0 h.1 in
    let held = lookup-pairs d.regions n in
    let written : pick_regions d.regions d.order [] ≡ ok d.regions =
      ap (λ ks. pick_regions d.regions ks []) h.0
      ∙ pick_regions_lem d.regions d.regions [] held n in
    let raw : Raw = record { regions = d.regions; order = d.order } in
    (
      raw,
      rw (written, ◌>>=◌),
      ap (λ ks. read_regions raw ks (model_of [])) h.0
          ∙ read_regions_lem raw d.regions [] held n
          ∙ ap (λ ks. ok (record { regions = d.regions; order = ks })) (sym h.0),
    )

abbrev pub all_blocks : Regions → List (String × Block)
all_blocks [] = []
all_blocks ((name, r) ∷ regions) = in_region name r ++ all_blocks regions

region_blocks_lem :
    (regions rest : Regions)
    → Holds regions rest
    → region_blocks regions (dict_keys rest) ≡ ok (all_blocks rest)
region_blocks_lem regions [] h = refl
region_blocks_lem regions ((k, r) ∷ rest) h =
    rw (h.0, ◌>>=◌) (rw (region_blocks_lem regions rest h.1, ◌>>=◌))

-- The iteration over the blocks of a document whose order lists its regions, each once, ends
-- without an error and yields every block of every region, in the order of the regions.
pub iter_blocks_lem : (d : DocModel) → Ordered d → iter_blocks d ≡ ok (all_blocks d.regions)
unfolding iter_blocks
iter_blocks_lem d h =
    ap (region_blocks d.regions) h.0
    ∙ region_blocks_lem d.regions d.regions (lookup-pairs d.regions (subst NoDup h.0 h.1))
