-- ===== src/Package/Manifest/Volumes.antt =====
-- What `create_volumes` makes of the `fs` of a manifest.
use wasmer_js.Prelude.{
  ℕ, [], Option, none, some, Bool, true, false, ◌≡◌, refl, sym, ap, ◌∙◌, Bool-cases, inl, inr,
  if◌then◌else◌,
}
use wasmer_js.Package.Value.{
  Text, JsValue, undefined, string, object, Entries, end, entry, Outcome, done, bailed, panicked,
  unfinished, BTreeMap, insert, find, set, delete_property, lookup, is_object, same,
}
use wasmer_js.Package.{MemoryVolume, create_volume}
use wasmer_js.Package.Keys.{lookup-set_self, same→eq, find-insert, lookup-set, >>=-done}
use wasmer_js.Package.Manifest.{fs_key, join, add_volumes, with_fs, entries_or_none, create_volumes}

abbrev pub or_else {ℓ} : {A : Type ℓ} → Option A → Option A → Option A
or_else none o = o
or_else (some a) o = some a

abbrev pub created : Outcome MemoryVolume → Option MemoryVolume
created (done volume) = some volume
created _ = none

-- The volume of the last entry of `fs` whose path is the given one.
unfoldable pub last_volume : ℕ → Text → Entries → Text → Option MemoryVolume
last_volume fuel base end p = none
last_volume fuel base (entry key value rest) p =
    or_else (last_volume fuel base rest p)
      (if same p (join base key) then created (create_volume fuel value) else none)

unfoldable pub has_key : Entries → Text → Bool
has_key end k = false
has_key (entry j u rest) k = if same k j then true else has_key rest k

pub or_else_if {ℓ} :
    {A : Type ℓ} (o : Option A) (b : Bool) (a : A) (o' : Option A)
    → or_else o (if b then some a else o') ≡ or_else (or_else o (if b then some a else none)) o'
or_else_if (some x) b a o' = refl
or_else_if none true a o' = refl
or_else_if none false a o' = refl

add_volumes-find :
    (fuel : ℕ) (base : Text) (es : Entries) (volumes : BTreeMap MemoryVolume) (new_fs : Entries)
    {r : BTreeMap MemoryVolume × Entries}
    → add_volumes fuel base es volumes new_fs ≡ done r
    → (p : Text) → find r.0 p ≡ or_else (last_volume fuel base es p) (find volumes p)
unfolding add_volumes last_volume
add_volumes-find fuel base end volumes new_fs {r} h p =
    let e : r ≡ (volumes, new_fs) = cc in rw e refl
add_volumes-find fuel base (entry key value rest) volumes new_fs h p =
    let (volume, e, h') =
      >>=-done (create_volume fuel value)
        (λ volume.
          add_volumes fuel base rest (insert volumes (join base key) volume)
            (set new_fs key (string key)))
        h in
    add_volumes-find fuel base rest (insert volumes (join base key) volume)
      (set new_fs key (string key)) h' p
    ∙ rw (find-insert volumes (join base key) volume p, e)
        (or_else_if (last_volume fuel base rest p) (same p (join base key)) volume (find volumes p))

string_if :
    (k key : Text) (b : Bool) (v : JsValue)
    → (if b then string k else (if same k key then string key else v))
      ≡ (if (if same k key then true else b) then string k else v)
string_if k key true v = elim (Bool-cases (same k key)) [ inl e ↦ rw e refl | inr e ↦ rw e refl ]
string_if k key false v = elim (Bool-cases (same k key)) [
  | inl e ↦ rw (e, same→eq k key e) refl
  | inr e ↦ rw e refl
]

add_volumes-lookup :
    (fuel : ℕ) (base : Text) (es : Entries) (volumes : BTreeMap MemoryVolume) (new_fs : Entries)
    {r : BTreeMap MemoryVolume × Entries}
    → add_volumes fuel base es volumes new_fs ≡ done r
    → (k : Text) → lookup r.1 k ≡ (if has_key es k then string k else lookup new_fs k)
unfolding add_volumes has_key
add_volumes-lookup fuel base end volumes new_fs {r} h k =
    let e : r ≡ (volumes, new_fs) = cc in rw e refl
add_volumes-lookup fuel base (entry key value rest) volumes new_fs h k =
    let (volume, e, h') =
      >>=-done (create_volume fuel value)
        (λ volume.
          add_volumes fuel base rest (insert volumes (join base key) volume)
            (set new_fs key (string key)))
        h in
    add_volumes-lookup fuel base rest (insert volumes (join base key) volume)
      (set new_fs key (string key)) h' k
    ∙ rw (lookup-set new_fs key (string key) k) (string_if k key (has_key rest k) (lookup new_fs k))

with_fs-done :
    (removed : Entries) (o : Outcome (BTreeMap MemoryVolume × Entries))
    {volumes : BTreeMap MemoryVolume} {manifest' : Entries}
    → with_fs removed o ≡ (done volumes, manifest')
    → (new_fs : Entries) × (o ≡ done (volumes, new_fs))
      × (manifest' ≡ set removed fs_key (object new_fs))
with_fs-done removed (done (v, new_fs)) h = (new_fs, cc, cc)
with_fs-done removed bailed h = cc
with_fs-done removed panicked h = cc
with_fs-done removed unfinished h = cc

pub or_else-none {ℓ} : {A : Type ℓ} (o : Option A) → or_else o none ≡ o
or_else-none none = refl
or_else-none (some a) = refl

-- Where the manifest has an object as its `fs` and `create_volumes` succeeds, the volume found at a
-- path is the one created from the last entry that is joined to it, and none where no entry is;
-- and the manifest's `fs` is an object then, in which each key that `fs` had stands for itself,
-- and which has no other.
pub create_volumes-done :
    (fuel : ℕ) (manifest : Entries) (base : Text) {volumes : BTreeMap MemoryVolume}
    {manifest' : Entries}
    → is_object (lookup manifest fs_key) ≡ true
    → create_volumes fuel manifest base ≡ (done volumes, manifest')
    → let es = entries_or_none (lookup manifest fs_key) in
      ((p : Text) → find volumes p ≡ last_volume fuel base es p)
      × (new_fs : Entries) × (lookup manifest' fs_key ≡ object new_fs)
      × ((k : Text) → lookup new_fs k ≡ (if has_key es k then string k else undefined))
unfolding create_volumes find lookup
create_volumes-done fuel manifest base {volumes} {manifest'} o h =
    let es : Entries = entries_or_none (lookup manifest fs_key) in
    let removed : Entries = delete_property manifest fs_key in
    let found : with_fs removed (add_volumes fuel base es [] end) ≡ (done volumes, manifest') =
      ap
        (λ (b : Bool).
          (if b then with_fs removed (add_volumes fuel base es [] end) else (done [], manifest)))
        (sym o)
      ∙ h in
    let (new_fs, e, m) = with_fs-done removed (add_volumes fuel base es [] end) found in
    (
      λ p. add_volumes-find fuel base es [] end e p ∙ or_else-none (last_volume fuel base es p),
      new_fs,
      ap (λ (es : Entries). lookup es fs_key) m ∙ lookup-set_self removed fs_key (object new_fs),
      add_volumes-lookup fuel base es [] end e,
    )
