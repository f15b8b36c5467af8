-- ===== src/FileSystem.antt =====
-- The creation of a directory with its parents: `create_dir_all` of src/fs/directory.rs, which goes
-- through the ancestors of a path, and `Instance::create_dir_all_internal` of src/instance.rs, which
-- calls itself. The file system is an implementation of `virtual_fs::FileSystem`, and is a parameter.
pub mod Parents
use wasmer_js.Prelude.{ℕ, List, [], ◌∷◌, Bool, true, false, if◌then◌else◌}

-- The names of an absolute path, the last one first; `[]` is the root.
abbrev pub FilePath : Type 0
FilePath = List ℕ

-- `Result<(), FsError>` with the file system behind the call.
pub data Made (S : Type 0) : Type 0 where
  made : S → Made S
  already_exists failed : Made S

infixl 5 ◌>>=◌
abbrev pub ◌>>=◌ : {S : Type 0} → Made S → (S → Made S) → Made S
made s >>= f = f s
already_exists >>= f = already_exists
failed >>= f = failed

-- What the two functions call, of which `metadata` and `read_dir` are asked only whether they are
-- `Ok`.
pub record Calls (S : Type 0) : Type 0 where
  pub metadata : S → FilePath → Bool
  pub read_dir : S → FilePath → Bool
  pub create_dir : S → FilePath → Made S

module _ {S : Type 0} (fs : Calls S) where
  -- The body of the loop of `create_dir_all`.
  abbrev pub ensure : S → FilePath → Made S
  ensure s path = if fs.read_dir s path then made s else fs.create_dir s path

  unfoldable pub create_dir_all : S → FilePath → Made S
  create_dir_all s [] = ensure s []
  create_dir_all s (name ∷ parent) = create_dir_all s parent >>= λ s'. ensure s' (name ∷ parent)

  -- The match on what `create_dir` returns.
  abbrev pub settle : S → Made S → Made S
  settle s (made s') = made s'
  settle s already_exists = made s
  settle s failed = failed

  unfoldable pub create_dir_all_internal : S → FilePath → Made S
  create_dir_all_internal s [] = if fs.metadata s [] then made s else settle s (fs.create_dir s [])
  create_dir_all_internal s (name ∷ parent) =
      if fs.metadata s (name ∷ parent)
      then made s
      else create_dir_all_internal s parent >>= λ s'. settle s' (fs.create_dir s' (name ∷ parent))
