-- ===== src/Tests/FileSystem.antt =====
-- A file system in memory that has directories only, in which `/1/2` is created.
use wasmer_js.Prelude.{
  ◌≡◌, ◌≢◌, refl, sym, ap, ◌∙◌, List, [], ◌∷◌, Bool, true, false, if◌then◌else◌, Bool-cases, inl,
  inr,
}
use wasmer_js.Package.Value.{same}
use wasmer_js.Package.Keys.{same→eq, true-false}
use wasmer_js.FileSystem.{
  FilePath, Made, made, already_exists, failed, Calls, create_dir_all, create_dir_all_internal,
}
use wasmer_js.FileSystem.Parents.{IsFileSystem, OnlyDirs, create_dir_all-internal}

abbrev has : List FilePath → FilePath → Bool
has s [] = true
has [] (n ∷ p) = false
has (q ∷ s) (n ∷ p) = if same (n ∷ p) q then true else has s (n ∷ p)

abbrev has_parent : List FilePath → FilePath → Bool
has_parent s [] = true
has_parent s (n ∷ p) = has s p

abbrev add : List FilePath → FilePath → Made (List FilePath)
add s p = if has s p then already_exists else if has_parent s p then made (p ∷ s) else failed

abbrev dirs : Calls (List FilePath)
dirs = record { metadata = has; read_dir = has; create_dir = add }

has_other : (s : List FilePath) (p q : FilePath) → q ≢ p → has (p ∷ s) q ≡ has s q
has_other s p [] h = refl
has_other s p (n ∷ q) h = elim (Bool-cases (same (n ∷ q) p)) [
  | inl e ↦ absurd (h (same→eq (n ∷ q) p e))
  | inr e ↦ rw e refl
]

if_made :
    {S : Type 0} (b c : Bool) (s s' : S)
    → (if b then already_exists else if c then made s else failed) ≡ made s'
    → s ≡ s'
if_made true c s s' h = cc
if_made false true s s' h = cc
if_made false false s s' h = cc

if_exists :
    {S : Type 0} (b c : Bool) (s : S)
    → (if b then already_exists else if c then made s else failed) ≡ already_exists
    → b ≡ true
if_exists true c s h = refl
if_exists false true s h = cc
if_exists false false s h = cc

dirs-IsFileSystem : IsFileSystem dirs
dirs-IsFileSystem = record {
  has_metadata = λ s p h. h;
  leaves_others = λ s s' p q e ne.
      let same_state : p ∷ s ≡ s' = if_made (has s p) (has_parent s p) (p ∷ s) s' e in
      let kept : has s' q ≡ has s q =
        ap (λ (t : List FilePath). has t q) (sym same_state) ∙ has_other s p q ne in
      (kept, kept);
  exists_already = λ s p e. if_exists (has s p) (has_parent s p) (p ∷ s) e;
}

only_root : OnlyDirs dirs []
only_root = record { is_dir = λ p h. h; has_parent = λ n p h. absurd (true-false (sym h)) }

created : create_dir_all dirs [] (2 ∷ 1 ∷ []) ≡ made ((2 ∷ 1 ∷ []) ∷ (1 ∷ []) ∷ [])
unfolding create_dir_all
created = refl

create_dir_all-internal_example :
    create_dir_all_internal dirs [] (2 ∷ 1 ∷ []) ≡ create_dir_all dirs [] (2 ∷ 1 ∷ [])
create_dir_all-internal_example =
    create_dir_all-internal dirs dirs-IsFileSystem [] (2 ∷ 1 ∷ []) only_root
