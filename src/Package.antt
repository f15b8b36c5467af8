-- ===== src/Package.antt =====
-- The trees of files in a manifest: `to_systime`, `create_node`, `create_file`, `create_dir` and
-- `create_volume` of src/registry/package/package_utils/mem_volumes.rs. `create_node` and
-- `create_dir` call each other, and run on fuel, one for each level of the tree.
pub mod Value
pub mod Keys
pub mod Manifest
pub mod Height
pub mod Embed
use wasmer_js.Prelude.{
  ℕ, zero, suc, ◌^◌, List, [], ◌∷◌, Option, none, some, Bool, ltb, if◌then◌else◌,
}
use wasmer_js.Package.Value.{
  Text, Number, not_a_number, negative, whole, JsValue, number, string, bytes, date, Entries, end,
  entry, Outcome, done, bailed, panicked, unfinished, ◌>>=◌, same, before, get, object_entries,
  undefined,
}

-- A `SystemTime` in seconds since the epoch.
abbrev pub unix_epoch : ℕ
unix_epoch = 0

pub record MemoryFile : Type 0 where
  pub modified : ℕ
  pub data_of : List ℕ

mutual
  pub data MemoryNode : Type 0 where
    file : MemoryFile → MemoryNode
    dir : ℕ → Nodes → MemoryNode

  pub data Nodes : Type 0 where
    empty : Nodes
    node : Text → MemoryNode → Nodes → Nodes

pub record MemoryDir : Type 0 where
  pub modified : ℕ
  pub nodes : Nodes

pub record MemoryVolume : Type 0 where
  pub root : MemoryDir

-- The `insert` of the `BTreeMap` of a directory's nodes.
unfoldable pub insert_node : Nodes → Text → MemoryNode → Nodes
insert_node empty k n = node k n empty
insert_node (node j o rest) k n =
    let rest' = insert_node rest k n in
    if same k j
    then node k n rest
    else if before k j
    then node k n (node j o rest)
    else node j o rest'

-- "data" and "modified".
abbrev pub data_key : Text
data_key = 100 ∷ 97 ∷ 116 ∷ 97 ∷ []

abbrev pub modified_key : Text
modified_key = 109 ∷ 111 ∷ 100 ∷ 105 ∷ 102 ∷ 105 ∷ 101 ∷ 100 ∷ []

-- `Duration::from_secs_f64`, which panics on what is no duration, behind the epoch.
unfoldable pub from_secs : Number → Outcome ℕ
from_secs not_a_number = panicked
from_secs negative = panicked
from_secs (whole n) = if ltb n (2 ^ 64) then done n else panicked

unfoldable pub to_systime : JsValue → Outcome ℕ
to_systime (date millis) = from_secs millis
to_systime (number millis) = from_secs millis
to_systime _ = bailed

abbrev pub both : JsValue → JsValue → Option (JsValue × JsValue)
both undefined _ = none
both _ undefined = none
both data_value modified = some (data_value, modified)

-- The data and the time of a value that has both.
unfoldable pub with_metadata : JsValue → Option (JsValue × JsValue)
with_metadata value = elim (get value data_key) [
  | none ↦ none
  | some data_value ↦ elim (get value modified_key) [
    | none ↦ none
    | some modified ↦ both data_value modified
  ]
]

-- `create_file` is called with a text or a `Uint8Array`, and bails otherwise.
unfoldable pub create_file : JsValue → ℕ → Outcome MemoryFile
create_file (string text) modified = done (record { modified = modified; data_of = text })
create_file (bytes xs) modified = done (record { modified = modified; data_of = xs })
create_file _ modified = bailed

-- The loop of `create_dir`. No two entries of an object have one key, so that the order in which the
-- nodes are inserted makes no difference; they are created in the order of the entries.
unfoldable pub create_nodes : (JsValue → Outcome MemoryNode) → Entries → Outcome Nodes
create_nodes create end = done empty
create_nodes create (entry key value rest) = do
  created ← create value
  nodes ← create_nodes create rest
  done (insert_node nodes key created)

-- `create_dir`, with the `create_node` that it calls: the `unwrap` panics for what is no object.
unfoldable pub create_dir : (JsValue → Outcome MemoryNode) → JsValue → ℕ → Outcome MemoryDir
create_dir create data_value modified = elim (object_entries data_value) [
  | none ↦ panicked
  | some entries ↦ do
    nodes ← create_nodes create entries
    done (record { modified = modified; nodes = nodes })
]

-- The end of `create_node`: a file or a directory.
unfoldable pub create_either : (JsValue → Outcome MemoryNode) → JsValue → ℕ → Outcome MemoryNode
create_either create (string text) modified = do
  created ← create_file (string text) modified
  done (file created)
create_either create (bytes xs) modified = do
  created ← create_file (bytes xs) modified
  done (file created)
create_either create data_value modified = do
  created ← create_dir create data_value modified
  done (dir created.modified created.nodes)

unfoldable pub create_node : ℕ → JsValue → Outcome MemoryNode
create_node zero value = unfinished
create_node (suc fuel) value = elim (with_metadata value) [
  | none ↦ create_either (create_node fuel) value unix_epoch
  | some (data_value, time) ↦ do
    modified ← to_systime time
    create_either (create_node fuel) data_value modified
]

unfoldable pub create_volume : ℕ → JsValue → Outcome MemoryVolume
create_volume fuel value = elim (with_metadata value) [
  | none ↦ do root ← create_dir (create_node fuel) value unix_epoch; done (record { root = root })
  | some (data_value, time) ↦ do
    modified ← to_systime time
    root ← create_dir (create_node fuel) data_value modified
    done (record { root = root })
]
