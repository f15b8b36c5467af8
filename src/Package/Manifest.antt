-- ===== src/Package/Manifest.antt =====
-- What is taken out of a package's manifest: `create_volumes`, `create_metadata` and `create_atoms`
-- of src/registry/package/package_utils/mem_volumes.rs, in the order in which `createPackage` of
-- src/registry/package/mod.rs calls them. The manifest is a plain object, which they change, also
-- where they fail later on. Its `fs` is no instance of a class without `Object`.
pub mod Volumes
pub mod Atoms
use wasmer_js.Prelude.{
  ℕ, List, [], ◌∷◌, ◌++◌, Option, none, some, Bool, true, false, ◌==◌, if◌then◌else◌,
}
use wasmer_js.Package.Value.{
  Text, JsValue, undefined, null, string, array, object, Items, nil, item, Entries, end, entry,
  Outcome, done, bailed, panicked, unfinished, ◌>>=◌, BTreeMap, insert, set, delete_property,
  lookup, get, object_entries, is_undefined, is_object, same,
}
use wasmer_js.Package.{
  MemoryNode, file, dir, MemoryFile, MemoryDir, MemoryVolume, create_node, create_dir,
  create_volume, unix_epoch,
}

-- "fs", "module", "name", "source", "package", "readme", "license", "README.md" and "License".
abbrev pub fs_key : Text
fs_key = 102 ∷ 115 ∷ []

abbrev pub module_key : Text
module_key = 109 ∷ 111 ∷ 100 ∷ 117 ∷ 108 ∷ 101 ∷ []

abbrev pub name_key : Text
name_key = 110 ∷ 97 ∷ 109 ∷ 101 ∷ []

abbrev pub source_key : Text
source_key = 115 ∷ 111 ∷ 117 ∷ 114 ∷ 99 ∷ 101 ∷ []

abbrev pub pkg_key : Text
pkg_key = 112 ∷ 97 ∷ 99 ∷ 107 ∷ 97 ∷ 103 ∷ 101 ∷ []

abbrev pub readme_key : Text
readme_key = 114 ∷ 101 ∷ 97 ∷ 100 ∷ 109 ∷ 101 ∷ []

abbrev pub license_key : Text
license_key = 108 ∷ 105 ∷ 99 ∷ 101 ∷ 110 ∷ 115 ∷ 101 ∷ []

abbrev pub readme_file : Text
readme_file = 82 ∷ 69 ∷ 65 ∷ 68 ∷ 77 ∷ 69 ∷ 46 ∷ 109 ∷ 100 ∷ []

abbrev pub license_file : Text
license_file = 76 ∷ 105 ∷ 99 ∷ 101 ∷ 110 ∷ 115 ∷ 101 ∷ []

-- Whether a separator goes behind a path that is joined to another.
unfoldable pub separator : Text → Text
separator [] = []
separator (c ∷ []) = if c == 47 then [] else 47 ∷ []
separator (c ∷ d ∷ rest) = separator (d ∷ rest)

-- `Path::join`: an absolute path replaces the base.
unfoldable pub join : Text → Text → Text
join base [] = base ++ separator base
join base (c ∷ rest) = if c == 47 then c ∷ rest else base ++ (separator base ++ c ∷ rest)

-- The loop of `create_volumes`, with the volumes and the new `fs`.
unfoldable pub add_volumes :
    ℕ → Text → Entries → BTreeMap MemoryVolume → Entries → Outcome (BTreeMap MemoryVolume × Entries)
add_volumes fuel base end volumes new_fs = done (volumes, new_fs)
add_volumes fuel base (entry key value rest) volumes new_fs = do
  volume ← create_volume fuel value
  add_volumes fuel base rest (insert volumes (join base key) volume) (set new_fs key (string key))

-- What `create_volumes` returns, and the manifest as it leaves it: without `fs` after a failure.
abbrev pub with_fs :
    Entries → Outcome (BTreeMap MemoryVolume × Entries) → Outcome (BTreeMap MemoryVolume) × Entries
with_fs removed (done (volumes, new_fs)) = (done volumes, set removed fs_key (object new_fs))
with_fs removed bailed = (bailed, removed)
with_fs removed panicked = (panicked, removed)
with_fs removed unfinished = (unfinished, removed)

abbrev pub entries_or_none : JsValue → Entries
entries_or_none fs = elim (object_entries fs) [ none ↦ end | some es ↦ es ]

unfoldable pub create_volumes : ℕ → Entries → Text → Outcome (BTreeMap MemoryVolume) × Entries
create_volumes fuel manifest base =
    let fs = lookup manifest fs_key in
    if is_object fs
    then with_fs (delete_property manifest fs_key)
        (add_volumes fuel base (entries_or_none fs) [] end)
    else (done [], manifest)

-- An atom's name and data, of a module in the manifest.
abbrev pub as_name : Option JsValue → Outcome Text
as_name (some (string name)) = done name
as_name _ = bailed

abbrev pub as_source : Option JsValue → Outcome JsValue
as_source none = bailed
as_source (some undefined) = bailed
as_source (some null) = bailed
as_source (some source) = done source

abbrev pub as_file : MemoryNode → Outcome (List ℕ)
as_file (file f) = done f.data_of
as_file (dir modified nodes) = bailed

-- The checks of the name and the source bail alike.
unfoldable pub atom_of : ℕ → JsValue → Outcome (Text × List ℕ)
atom_of fuel o = do
  name ← as_name (get o name_key)
  source ← as_source (get o source_key)
  created ← create_node fuel source
  data_of ← as_file created
  done (name, data_of)

-- `Reflect.set` of the field of an object that has it. Others are not met.
unfoldable pub set_field : JsValue → Text → JsValue → JsValue
set_field (object es) k v = object (set es k v)
set_field o k v = o

abbrev pub Atoms : Type 0
Atoms = BTreeMap (Option Text × List ℕ)

-- The rest of the loop goes on only behind an atom. A module keeps its name as its source.
abbrev pub after_atom :
    JsValue
    → Items
    → (Text → List ℕ → Outcome Atoms × Items)
    → Outcome (Text × List ℕ)
    → Outcome Atoms × Items
after_atom o rest go_on (done (name, data_of)) =
    let (r, rest') = go_on name data_of in (r, item (set_field o source_key (string name)) rest')
after_atom o rest go_on bailed = (bailed, item o rest)
after_atom o rest go_on panicked = (panicked, item o rest)
after_atom o rest go_on unfinished = (unfinished, item o rest)

-- The loop of `create_atoms`, with the atoms so far; and the modules as it leaves them.
unfoldable pub add_atoms : ℕ → Items → Atoms → Outcome Atoms × Items
add_atoms fuel nil atoms = (done atoms, nil)
add_atoms fuel (item o rest) atoms =
    after_atom o rest (λ name data_of. add_atoms fuel rest (insert atoms name (none, data_of)))
      (atom_of fuel o)

-- The value of a field that is there.
unfoldable pub update : Entries → Text → JsValue → Entries
update end k v = end
update (entry j u rest) k v =
    let rest' = update rest k v in if same k j then entry j v rest else entry j u rest'

abbrev pub with_modules : ℕ → Entries → JsValue → Outcome Atoms × Entries
with_modules fuel manifest undefined = (done [], manifest)
with_modules fuel manifest (array modules) =
    let (r, modules') = add_atoms fuel modules [] in
    (r, update manifest module_key (array modules'))
with_modules fuel manifest _ = (bailed, manifest)

unfoldable pub create_atoms : ℕ → Entries → Outcome Atoms × Entries
create_atoms fuel manifest = with_modules fuel manifest (lookup manifest module_key)

-- A file named in the package: it goes to the metadata, and its name in the guest takes its place.
unfoldable pub move_file : Entries × JsValue → Text → Text → Entries × JsValue
move_file (meta_obj, pkg) key guest_key = elim (get pkg key) [
  | none ↦ (meta_obj, pkg)
  | some found ↦
      if is_undefined found
      then (meta_obj, pkg)
      else (set meta_obj guest_key found, set_field pkg key (string guest_key))
]

unfoldable pub create_metadata : ℕ → Entries → Text → Outcome MemoryVolume × Entries
create_metadata fuel manifest base =
    let moved = move_file (end, lookup manifest pkg_key) readme_key (join base readme_file) in
    let (meta_obj, pkg) = move_file moved license_key (join base license_file) in
    let r = do
      root ← create_dir (create_node fuel) (object meta_obj) unix_epoch
      done (record { root = root })
    in (r, update manifest pkg_key pkg)

pub record Parts : Type 0 where
  pub volumes : BTreeMap MemoryVolume
  pub metadata : MemoryVolume
  pub atoms : Atoms

-- `createPackage` up to the parsing of the manifest. Each `?` returns what has failed.
unfoldable pub create_parts : ℕ → Entries → Outcome Parts × Entries
create_parts fuel manifest =
    let base = 47 ∷ [] in
    let (volumes, manifest1) = create_volumes fuel manifest base in
    let (metadata, manifest2) = create_metadata fuel manifest1 base in
    let (atoms, manifest3) = create_atoms fuel manifest2 in
    let parts : Outcome Parts = do
      v ← volumes
      m ← metadata
      a ← atoms
      done (record { volumes = v; metadata = m; atoms = a })
    in elim volumes [
      | done v ↦ elim metadata [ done m ↦ (parts, manifest3) | _ ↦ (parts, manifest2) ]
      | _ ↦ (parts, manifest1)
    ]
