-- ===== src/Package/Manifest/Atoms.antt =====
-- What `create_atoms` makes of the modules of a manifest.
use wasmer_js.Prelude.{
  ℕ, List, [], Option, none, some, Bool, ◌≡◌, refl, sym, ap, ◌∙◌, if◌then◌else◌, ◌≢◌, Bool-cases,
  inl, inr,
}
use wasmer_js.Package.Value.{
  Text, JsValue, undefined, Entries, end, entry, string, array, Items, nil, item, Outcome, done,
  bailed, panicked, unfinished, find, insert, lookup, same,
}
use wasmer_js.Package.Keys.{find-insert}
use wasmer_js.Package.Manifest.{
  module_key, source_key, atom_of, set_field, Atoms, after_atom, add_atoms, create_atoms,
  with_modules, update,
}
use wasmer_js.Package.Manifest.Volumes.{or_else, or_else_if, or_else-none}

abbrev pub atom_at : Outcome (Text × List ℕ) → Text → Option (Option Text × List ℕ)
atom_at (done (name, data_of)) p = if same p name then some (none, data_of) else none
atom_at _ p = none

-- The atom of the last module of a name.
unfoldable pub last_atom : ℕ → Items → Text → Option (Option Text × List ℕ)
last_atom fuel nil p = none
last_atom fuel (item o rest) p = or_else (last_atom fuel rest p) (atom_at (atom_of fuel o) p)

abbrev pub name_of : Outcome (Text × List ℕ) → JsValue → JsValue
name_of (done (name, data_of)) o = set_field o source_key (string name)
name_of _ o = o

-- The modules with their names for sources.
unfoldable pub renamed : ℕ → Items → Items
renamed fuel nil = nil
renamed fuel (item o rest) = item (name_of (atom_of fuel o) o) (renamed fuel rest)

after_atom-done :
    (o : JsValue) (rest : Items) (go_on : Text → List ℕ → Outcome Atoms × Items)
    (a : Outcome (Text × List ℕ)) {atoms : Atoms} {modules : Items}
    → after_atom o rest go_on a ≡ (done atoms, modules)
    → (name : Text) × (data_of : List ℕ) × (rest' : Items) × (a ≡ done (name, data_of))
      × (go_on name data_of ≡ (done atoms, rest'))
      × (modules ≡ item (set_field o source_key (string name)) rest')
after_atom-done o rest go_on (done (name, data_of)) {atoms} {modules} h = (
  name,
  data_of,
  (go_on name data_of).1,
  refl,
  ap (λ (r : Outcome Atoms). (let p : Outcome Atoms × Items = (r, (go_on name data_of).1) in p))
      (ap (λ (p : Outcome Atoms × Items). p.0) h),
  sym (ap (λ (p : Outcome Atoms × Items). p.1) h),
)
after_atom-done o rest go_on bailed h = cc
after_atom-done o rest go_on panicked h = cc
after_atom-done o rest go_on unfinished h = cc

add_atoms-done :
    (fuel : ℕ) (modules : Items) (atoms : Atoms) {atoms' : Atoms} {modules' : Items}
    → add_atoms fuel modules atoms ≡ (done atoms', modules')
    → ((p : Text) → find atoms' p ≡ or_else (last_atom fuel modules p) (find atoms p))
      × (modules' ≡ renamed fuel modules)
unfolding add_atoms last_atom renamed
add_atoms-done fuel nil atoms {atoms'} h =
    let e : atoms' ≡ atoms = cc in (λ p. ap (λ (m : Atoms). find m p) e, cc)
add_atoms-done fuel (item o rest) atoms {atoms'} h =
    let (name, data_of, rest', e, h', m) =
      after_atom-done o rest
        (λ name data_of. add_atoms fuel rest (insert atoms name (none, data_of))) (atom_of fuel o)
        h in
    let ih = add_atoms-done fuel rest (insert atoms name (none, data_of)) h' in
    (
      λ p.
          ih.0 p
          ∙ rw (find-insert atoms name (none, data_of) p, e)
              (or_else_if (last_atom fuel rest p) (same p name) (none, data_of) (find atoms p)),
      m ∙ ap (item (set_field o source_key (string name))) ih.1 ∙ rw e refl,
    )

update_self :
    (es : Entries) (k : Text) (u v : JsValue)
    → lookup es k ≡ u
    → u ≢ undefined
    → lookup (update es k v) k ≡ v
unfolding update lookup
update_self end k u v e h = absurd (h (sym e))
update_self (entry j w rest) k u v e h = elim (Bool-cases (same k j)) [
  | inl f ↦ rw (f, f) refl
  | inr f ↦
      rw (f, f)
        (update_self rest k u v (sym (ap (λ (b : Bool). if b then w else lookup rest k) f) ∙ e) h)
]

-- Where the manifest has modules and `create_atoms` succeeds, the atom of a name is the data of the
-- last module of that name, and there is none where no module has it; and the manifest's modules
-- are what they were, each with its name for its source.
pub create_atoms-done :
    (fuel : ℕ) (manifest : Entries) (modules : Items) {atoms : Atoms} {manifest' : Entries}
    → lookup manifest module_key ≡ array modules
    → create_atoms fuel manifest ≡ (done atoms, manifest')
    → ((p : Text) → find atoms p ≡ last_atom fuel modules p)
      × (lookup manifest' module_key ≡ array (renamed fuel modules))
unfolding create_atoms find
create_atoms-done fuel manifest modules {atoms} {manifest'} e h =
    let found : with_modules fuel manifest (array modules) ≡ (done atoms, manifest') =
      ap (with_modules fuel manifest) (sym e) ∙ h in
    let modules' : Items = (add_atoms fuel modules []).1 in
    let all_added : add_atoms fuel modules [] ≡ (done atoms, modules') =
      ap (λ (r : Outcome Atoms). (let p : Outcome Atoms × Items = (r, modules') in p))
        (ap (λ (p : Outcome Atoms × Entries). p.0) found) in
    let added = add_atoms-done fuel modules [] all_added in
    (
      λ p. added.0 p ∙ or_else-none (last_atom fuel modules p),
      ap (λ (es : Entries). lookup es module_key)
            (sym (ap (λ (p : Outcome Atoms × Entries). p.1) found))
          ∙ update_self manifest module_key (array modules) (array modules') e (λ n. cc)
          ∙ ap array added.1,
    )
