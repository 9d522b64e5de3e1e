-- ===== src/Release/Spec/Agreement.antt =====
-- `vendor_specs` of release_spec.py against `Manifest.vendor`.
use opcua_drafts.Prelude.{String, true, List, elem, ok, ◌≡◌, sym, subst, ◌∙◌, ok_inj}
use opcua_drafts.Release.Sorting.{sort, elem-sort}
use opcua_drafts.Release.Manifest.{
  Manifest, Spec, spec, keys, closure_relation, vendor_relation, neighbours, vendor,
}
use opcua_drafts.Release.Manifest.Walk.{Reach, here, there}
use opcua_drafts.Release.Manifest.Known.{KnownIds, spec_known}
use opcua_drafts.Release.Manifest.Vendored.{vendor_lem}
use opcua_drafts.Release.Spec.{vendor_next, vendor_specs}
use opcua_drafts.Release.Spec.Vendors.{Normal, vendor_next-run, vendor_specs_lem}

neighbours-vendor :
    (m : Manifest) (x : String) (s : Spec)
    → spec m x ≡ ok s
    → neighbours m vendor_relation x ≡ ok (sort s.vendors)
neighbours-vendor m x s h = rw (h)

-- A path along the sorted vendor lists is one along the lists of release_spec.py.
Reach-vendor_next :
    (m : Manifest)
    → Normal m
    → KnownIds m vendor_relation
    → (x y : String) → elem x (keys m) ≡ true
    → Reach (neighbours m vendor_relation) x y
    → Reach (vendor_next m) x y
Reach-vendor_next m n h x y k here = here
Reach-vendor_next m n h x z k (there e r) =
    let found = spec_known m x k in
    let listed =
      sym (elem-sort _ found.0.vendors)
      ∙ subst (λ ys. elem _ ys ≡ true)
          (ok_inj e.0 (sort found.0.vendors) (sym e.1 ∙ neighbours-vendor m x found.0 found.1))
          e.2 in
    there (found.0.vendors, vendor_next-run m n h x found.0 found.1, listed)
      (Reach-vendor_next m n h _ z (h x found.0 found.1 _ listed) r)

-- For a known id and a manifest whose relations name known ids in their normal form, both
-- `Manifest.vendor` and `vendor_specs` of release_spec.py return, and every id that the former
-- returns is among those of the latter.
pub vendor_specs-vendor :
    (m : Manifest) (id : String)
    → Normal m
    → KnownIds m closure_relation
    → KnownIds m vendor_relation
    → elem id (keys m) ≡ true
    → (vs ws : List String) × (vendor m id ≡ ok vs)
      × (vendor_specs m id ≡ ok ws)
      × ((x : String) → elem x vs ≡ true → elem x ws ≡ true)
vendor_specs-vendor m id n h h2 k =
    let one = vendor_lem m id h h2 k in
    let two = vendor_specs_lem m id n h h2 k in
    (
      one.0,
      two.0,
      one.1,
      two.1,
      λ x e.
          (let p = (one.3 x).0 e in
            let w = p.2 in
            (two.3 x).1 (
              p.0,
              p.1,
              (w.1, w.2, w.3, w.4, Reach-vendor_next m n h2 w.3 x (h2 p.0 w.1 w.2 w.3 w.4) w.5),
            )),
    )
