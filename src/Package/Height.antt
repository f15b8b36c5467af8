-- ===== src/Package/Height.antt =====
-- How much fuel `create_node` needs: as much as a value is high.
use wasmer_js.Prelude.{
  ℕ, zero, suc, ◌≤◌, ◌<◌, ◌≡◌, refl, sym, ap, List, [], ◌∷◌, some, Bool, true, false, ltb, ◌^◌,
  Bool-cases, Option-cases, inl, inr, if◌then◌else◌, arith,
}
use Prim.Native.Nat.{max}
use wasmer_js.Package.Value.{
  Text, Number, not_a_number, negative, whole, JsValue, undefined, null, boolean, number, string,
  bytes, date, array, object, Items, nil, item, Entries, end, entry, Outcome, done, bailed,
  panicked, unfinished, ◌>>=◌, same, before, set, lookup, get, index_entries, byte_items,
  object_entries, digits,
}
use wasmer_js.Package.{
  MemoryNode, dir, MemoryDir, unix_epoch, insert_node, data_key, modified_key, both, with_metadata,
  from_secs, to_systime, create_file, create_nodes, create_dir, create_either, create_node,
}

-- How deep the objects of a value are nested.
unfoldable mutual
  pub height : JsValue → ℕ
  height (bytes xs) = 1
  height (date t) = 1
  height (array xs) = suc (height_items xs)
  height (object es) = suc (height_entries es)
  height _ = 0

  pub height_items : Items → ℕ
  height_items nil = 0
  height_items (item v rest) = max (height v) (height_items rest)

  pub height_entries : Entries → ℕ
  height_entries end = 0
  height_entries (entry k v rest) = max (height v) (height_entries rest)

if-height :
    (b : Bool) (x y : Entries) (n : ℕ)
    → height_entries x ≤ n
    → height_entries y ≤ n
    → height_entries (if b then x else y) ≤ n
if-height true x y n h k = h
if-height false x y n h k = k

set-height :
    (es : Entries) (k : Text) (v : JsValue)
    → height_entries (set es k v) ≤ max (height v) (height_entries es)
unfolding set height
set-height end k v = omega arith
set-height (entry j u rest) k v =
    if-height (same k j) (entry k v rest)
      (if before k j then entry k v (entry j u rest) else entry j u (set rest k v))
      (max (height v) (max (height u) (height_entries rest))) (omega arith)
      (if-height (before k j) (entry k v (entry j u rest)) (entry j u (set rest k v))
        (max (height v) (max (height u) (height_entries rest))) (omega arith)
        (omega (arith, set-height rest k v)))

index_entries-height : (i : ℕ) (xs : Items) → height_entries (index_entries i xs) ≤ height_items xs
unfolding index_entries height
index_entries-height i nil = omega arith
index_entries-height i (item v rest) = omega (
  arith,
  set-height (index_entries (suc i) rest) (digits (suc i) i []) v,
  index_entries-height (suc i) rest,
)

byte_items-height : (xs : List ℕ) → height_items (byte_items xs) ≡ 0
unfolding byte_items height
byte_items-height [] = refl
byte_items-height (x ∷ xs) = omega (arith, byte_items-height xs)

lookup-height : (es : Entries) (k : Text) → height (lookup es k) ≤ height_entries es
unfolding lookup height
lookup-height end k = omega arith
lookup-height (entry j u rest) k = elim (Bool-cases (same k j)) [
  | inl e ↦ rw e (omega arith)
  | inr e ↦ rw e (omega (arith, lookup-height rest k))
]

object_entries-height :
    (v : JsValue) (es : Entries) → object_entries v ≡ some es → height_entries es < height v
unfolding object_entries height
object_entries-height undefined es h = cc
object_entries-height null es h = cc
object_entries-height (boolean b) es h = cc
object_entries-height (number n) es h = cc
object_entries-height (string t) es h = cc
object_entries-height (bytes xs) es h =
    let e : es ≡ index_entries 0 (byte_items xs) = cc in
    rw e (omega (arith, index_entries-height 0 (byte_items xs), byte_items-height xs))
object_entries-height (date t) es h = let e : es ≡ end = cc in rw e (omega arith)
object_entries-height (array xs) es h =
    let e : es ≡ index_entries 0 xs = cc in rw e (omega (arith, index_entries-height 0 xs))
object_entries-height (object fs) es h = let e : es ≡ fs = cc in rw e (omega arith)

both-eq : (d t : JsValue) {r : JsValue × JsValue} → both d t ≡ some r → (d, t) ≡ r
both-eq d t h = ground arith

-- The data of a value is no higher than the value.
with_metadata-height :
    (v : JsValue) {d t : JsValue} → with_metadata v ≡ some (d, t) → height d ≤ height v
unfolding with_metadata get height
with_metadata-height (object es) {d} {t} h =
    let e : lookup es data_key ≡ d =
      ap (λ (p : JsValue × JsValue). p.0)
        (both-eq (lookup es data_key) (lookup es modified_key) h) in
    rw (sym e) (omega (arith, lookup-height es data_key))
with_metadata-height (bytes xs) h = cc
with_metadata-height (date m) h = cc
with_metadata-height (array xs) h = cc
with_metadata-height undefined h = cc
with_metadata-height null h = cc
with_metadata-height (boolean b) h = cc
with_metadata-height (number n) h = cc
with_metadata-height (string s) h = cc

-- What has an `Outcome` that is not for want of fuel.
abbrev pub is_finished {ℓ} : {A : Type ℓ} → Outcome A → Bool
is_finished unfinished = false
is_finished _ = true

>>=-is_finished {ℓ κ} :
    {A : Type ℓ} {B : Type κ} (m : Outcome A) (f : A → Outcome B)
    → is_finished m ≡ true
    → ((a : A) → is_finished (f a) ≡ true)
    → is_finished (m >>= f) ≡ true
>>=-is_finished (done a) f h k = k a
>>=-is_finished bailed f h k = refl
>>=-is_finished panicked f h k = refl
>>=-is_finished unfinished f h k = h

abbrev FinishesBelow : (JsValue → Outcome MemoryNode) → ℕ → Type 0
FinishesBelow create n = (v : JsValue) → height v < n → is_finished (create v) ≡ true

create_nodes-is_finished :
    (create : JsValue → Outcome MemoryNode) (n : ℕ) (es : Entries)
    → FinishesBelow create n
    → height_entries es < n
    → is_finished (create_nodes create es) ≡ true
unfolding create_nodes height
create_nodes-is_finished create n end f h = refl
create_nodes-is_finished create n (entry k v rest) f h =
    >>=-is_finished (create v)
      (λ created. do nodes ← create_nodes create rest; done (insert_node nodes k created))
      (f v (omega arith))
      (λ created.
        >>=-is_finished (create_nodes create rest) (λ nodes. done (insert_node nodes k created))
          (create_nodes-is_finished create n rest f (omega arith)) (λ nodes. refl))

create_dir-is_finished :
    (create : JsValue → Outcome MemoryNode) (n : ℕ) (v : JsValue) (modified : ℕ)
    → FinishesBelow create n
    → height v ≤ n
    → is_finished (create_dir create v modified) ≡ true
unfolding create_dir
create_dir-is_finished create n v modified f h = elim (Option-cases (object_entries v)) [
  | inl e ↦ rw (create_dir, e) refl
  | inr (es, e) ↦
      rw (create_dir, e)
        (>>=-is_finished (create_nodes create es)
          (λ nodes. done (record { modified = modified; nodes = nodes }))
          (create_nodes-is_finished create n es f (omega (arith, object_entries-height v es e)))
          (λ nodes. refl))
]

as_dir :
    (create : JsValue → Outcome MemoryNode) (n : ℕ) (v : JsValue) (modified : ℕ)
    → FinishesBelow create n
    → height v ≤ n
    → is_finished
        (create_dir create v modified >>= λ (d : MemoryDir). done (dir d.modified d.nodes))
      ≡ true
as_dir create n v modified f h =
    >>=-is_finished (create_dir create v modified)
      (λ (d : MemoryDir). done (dir d.modified d.nodes))
      (create_dir-is_finished create n v modified f h) (λ d. refl)

create_either-is_finished :
    (create : JsValue → Outcome MemoryNode) (n : ℕ) (v : JsValue) (modified : ℕ)
    → FinishesBelow create n
    → height v ≤ n
    → is_finished (create_either create v modified) ≡ true
unfolding create_either create_file
create_either-is_finished create n (string s) modified f h = refl
create_either-is_finished create n (bytes xs) modified f h = refl
create_either-is_finished create n undefined modified f h = as_dir create n undefined modified f h
create_either-is_finished create n null modified f h = as_dir create n null modified f h
create_either-is_finished create n (boolean b) modified f h =
    as_dir create n (boolean b) modified f h
create_either-is_finished create n (number m) modified f h = as_dir create n (number m) modified f h
create_either-is_finished create n (date m) modified f h = as_dir create n (date m) modified f h
create_either-is_finished create n (array xs) modified f h = as_dir create n (array xs) modified f h
create_either-is_finished create n (object es) modified f h =
    as_dir create n (object es) modified f h

from_secs-is_finished : (m : Number) → is_finished (from_secs m) ≡ true
unfolding from_secs
from_secs-is_finished not_a_number = refl
from_secs-is_finished negative = refl
from_secs-is_finished (whole n) = elim (Bool-cases (ltb n (2 ^ 64))) [
  | inl e ↦ rw e refl
  | inr e ↦ rw e refl
]

to_systime-is_finished : (v : JsValue) → is_finished (to_systime v) ≡ true
unfolding to_systime
to_systime-is_finished (date m) = from_secs-is_finished m
to_systime-is_finished (number m) = from_secs-is_finished m
to_systime-is_finished undefined = refl
to_systime-is_finished null = refl
to_systime-is_finished (boolean b) = refl
to_systime-is_finished (string s) = refl
to_systime-is_finished (bytes xs) = refl
to_systime-is_finished (array xs) = refl
to_systime-is_finished (object es) = refl

-- With more fuel than a value is high, `create_node` does not run out of it: it creates a node,
-- returns an error, or panics.
pub create_node-is_finished :
    (fuel : ℕ) (v : JsValue) → height v < fuel → is_finished (create_node fuel v) ≡ true
unfolding create_node
create_node-is_finished zero v h = absurd (omega arith)
create_node-is_finished (suc fuel) v h = elim (Option-cases (with_metadata v)) [
  | inl e ↦
      rw (create_node, e)
        (create_either-is_finished (create_node fuel) fuel v unix_epoch
          (create_node-is_finished fuel) (omega arith))
  | inr ((d, t), e) ↦
      rw (create_node, e)
        (>>=-is_finished (to_systime t) (λ modified. create_either (create_node fuel) d modified)
          (to_systime-is_finished t)
          (λ modified.
            create_either-is_finished (create_node fuel) fuel d modified
              (create_node-is_finished fuel) (omega (arith, with_metadata-height v e))))
]
