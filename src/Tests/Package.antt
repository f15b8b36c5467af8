-- ===== src/Tests/Package.antt =====
-- A manifest with two volumes of one path, and with a module that is an atom.
use wasmer_js.Prelude.{◌<◌, ◌≤◌, ◌≡◌, refl, [], ◌∷◌, none, true, if◌then◌else◌, arith}
use wasmer_js.Package.Value.{
  Text, JsValue, undefined, string, bytes, number, whole, date, array, object, nil, item, Entries,
  end, entry, done, BTreeMap, find, set, lookup, delete_property, get, object_entries,
}
use wasmer_js.Package.Value
use wasmer_js.Package.{
  MemoryNode, file, dir, empty, node, MemoryVolume, data_key, modified_key, create_node,
  with_metadata, create_either, create_file, create_dir, create_nodes, create_volume, insert_node,
}
use wasmer_js.Package.Height.{height, is_finished, create_node-is_finished}
use wasmer_js.Package.Embed.{embed, IsTree, depth, create_node-embed}
use wasmer_js.Package.Manifest.{
  fs_key, module_key, name_key, source_key, Atoms, join, separator, add_volumes, create_volumes,
  create_atoms, add_atoms, atom_of, set_field, update,
}
use wasmer_js.Package.Manifest.Volumes.{last_volume, has_key, create_volumes-done}
use wasmer_js.Package.Manifest.Atoms.{last_atom, renamed, create_atoms-done}

-- A directory whose names are "data" and "modified", and one around it.
abbrev tree : MemoryNode
tree = dir 0 (
    node (97 ∷ [])
      (dir 0 (
        node data_key (file (record { modified = 0; data_of = 1 ∷ 2 ∷ [] }))
          (node modified_key (file (record { modified = 7; data_of = [] })) empty)))
      (node (98 ∷ []) (dir 9 empty) empty))

tree-IsTree : IsTree tree
unfolding IsTree
tree-IsTree = (
  omega arith,
  ((omega arith, (omega arith, (omega arith, tt, tt), refl)), ((omega arith, tt), tt, tt), refl),
)

tree-depth : depth tree ≤ 5
unfolding depth
tree-depth = omega arith

create_node-embed_example : create_node 5 (embed tree) ≡ done tree
create_node-embed_example = create_node-embed 5 tree tree-IsTree tree-depth

-- A date where a text is meant, which is refused, and not for want of fuel.
abbrev dated : JsValue
dated = object (entry data_key (string (104 ∷ [])) (entry modified_key (string (105 ∷ [])) end))

dated-height : height dated < 2
unfolding height
dated-height = omega arith

create_node-is_finished_example : is_finished (create_node 2 dated) ≡ true
create_node-is_finished_example = create_node-is_finished 2 dated dated-height

-- Of the paths "/a" and "a", both of which are "/a" behind the root.
abbrev rooted : Text
rooted = 47 ∷ 97 ∷ []

abbrev relative : Text
relative = 97 ∷ []

abbrev fs : Entries
fs =
    entry rooted (object (entry (120 ∷ []) (bytes (1 ∷ [])) end))
      (entry relative (object (entry (121 ∷ []) (string (104 ∷ [])) end)) end)

abbrev volumes : BTreeMap MemoryVolume
volumes =
    (
      rooted,
      record {
        root = record {
          modified = 0;
          nodes = node (121 ∷ []) (file (record { modified = 0; data_of = 104 ∷ [] })) empty;
        };
      },
    )
    ∷ []

abbrev new_fs : Entries
new_fs = entry rooted (string rooted) (entry relative (string relative) end)

created :
    create_volumes 3 (entry fs_key (object fs) end) (47 ∷ [])
    ≡ (done volumes, entry fs_key (object new_fs) end)
unfolding create_volumes lookup delete_property object_entries add_volumes create_volume
    with_metadata get create_dir create_nodes create_node create_either create_file insert_node
    Value.insert join separator set
created = refl

create_volumes-done_example :
    ((p : Text) → find volumes p ≡ last_volume 3 (47 ∷ []) fs p)
    × (made : Entries) × (lookup (entry fs_key (object new_fs) end) fs_key ≡ object made)
    × ((k : Text) → lookup made k ≡ (if has_key fs k then string k else undefined))
unfolding lookup object_entries
create_volumes-done_example =
    create_volumes-done 3 (entry fs_key (object fs) end) (47 ∷ []) refl created

-- A module named "m" whose source is the bytes 7 and 8.
abbrev modules : Value.Items
modules =
    item (object (entry name_key (string (109 ∷ [])) (entry source_key (bytes (7 ∷ 8 ∷ [])) end)))
      nil

abbrev atoms : Atoms
atoms = (109 ∷ [], (none, 7 ∷ 8 ∷ [])) ∷ []

abbrev manifest : Entries
manifest = entry module_key (array modules) end

abbrev manifest' : Entries
manifest' =
    entry module_key
      (array (
        item
          (object (entry name_key (string (109 ∷ [])) (entry source_key (string (109 ∷ [])) end)))
          nil))
      end

atoms_created : create_atoms 3 manifest ≡ (done atoms, manifest')
unfolding create_atoms lookup add_atoms atom_of get create_node with_metadata create_either
    create_file Value.insert set_field set update
atoms_created = refl

create_atoms-done_example :
    ((p : Text) → find atoms p ≡ last_atom 3 modules p)
    × (lookup manifest' module_key ≡ array (renamed 3 modules))
unfolding lookup
create_atoms-done_example = create_atoms-done 3 manifest modules refl atoms_created
