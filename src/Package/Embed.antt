-- ===== src/Package/Embed.antt =====
-- How a tree of files is written in a manifest, and that it is read back.
use wasmer_js.Prelude.{
  ℕ, zero, suc, ◌≤◌, ◌<◌, ◌^◌, ◌==◌, ==→eq, lt→ltb, le→ltb_false, ◌||◌, Option-cases, ◌≡◌, refl,
  sym, ap, ◌∙◌, [], ◌∷◌, Option, none, some, Bool, true, false, ◌&&◌, ltb, Bool-cases, inl, inr,
  if◌then◌else◌, arith,
}
use Prim.Native.Nat.{max}
use wasmer_js.Package.Value.{
  Text, whole, JsValue, number, bytes, object, Entries, end, entry, Outcome, done, ◌>>=◌, same,
  before, lookup, get, object_entries,
}
use wasmer_js.Package.Keys.{true-false, and-true}
use wasmer_js.Package.{
  MemoryNode, file, dir, Nodes, empty, node, MemoryDir, insert_node, data_key, modified_key, both,
  with_metadata, from_secs, to_systime, create_file, create_nodes, create_dir, create_either,
  create_node, unix_epoch,
}

-- A file's contents, or a directory's entries, as they are where the time is the epoch and where
-- they are not taken for a pair of data and a time; otherwise with the time.
abbrev is_none {ℓ} : {A : Type ℓ} → Option A → Bool
is_none none = true
is_none (some a) = false

abbrev pub is_plain : JsValue → Bool
is_plain v = is_none (with_metadata v)

abbrev pub wrapped : ℕ → JsValue → JsValue
wrapped t v = object (entry data_key v (entry modified_key (number (whole t)) end))

unfoldable pub with_time : ℕ → JsValue → JsValue
with_time t v = if t == unix_epoch && is_plain v then v else wrapped t v

unfoldable mutual
  pub embed : MemoryNode → JsValue
  embed (file f) = with_time f.modified (bytes f.data_of)
  embed (dir modified nodes) = with_time modified (object (embed_nodes nodes))

  pub embed_nodes : Nodes → Entries
  embed_nodes empty = end
  embed_nodes (node k n rest) = entry k (embed n) (embed_nodes rest)

abbrev pub IsFirst : Text → Nodes → Type 0
IsFirst k empty = Unit
IsFirst k (node j n rest) = before k j ≡ true

-- Each time fits in a `Duration`, and the nodes of a directory stand in the order of their names.
unfoldable mutual
  pub IsTree : MemoryNode → Type 0
  IsTree (file f) = f.modified < 2 ^ 64
  IsTree (dir modified nodes) = (modified < 2 ^ 64) × AreTrees nodes

  pub AreTrees : Nodes → Type 0
  AreTrees empty = Unit
  AreTrees (node k n rest) = IsTree n × AreTrees rest × IsFirst k rest

unfoldable mutual
  pub depth : MemoryNode → ℕ
  depth (file f) = 1
  depth (dir modified nodes) = suc (depth_nodes nodes)

  pub depth_nodes : Nodes → ℕ
  depth_nodes empty = 0
  depth_nodes (node k n rest) = max (depth n) (depth_nodes rest)

or_and : (a b c : Bool) → a ≡ false → (a || b && c) ≡ true → c ≡ true
or_and a b c p h = ground arith

before-same : (j k : Text) → before j k ≡ true → same j k ≡ false
before-same [] [] h = cc
before-same [] (y ∷ ys) h = refl
before-same (x ∷ xs) [] h = refl
before-same (x ∷ xs) (y ∷ ys) h = elim (Bool-cases (x == y)) [
  | inl e ↦
      let not_less : ltb x y ≡ false = le→ltb_false x y (omega (arith, ==→eq x y e)) in
      rw e (before-same xs ys (or_and (ltb x y) (x == y) (before xs ys) not_less h))
  | inr e ↦ rw e refl
]

insert_node-first :
    (k : Text) (n : MemoryNode) (nodes : Nodes)
    → IsFirst k nodes
    → insert_node nodes k n ≡ node k n nodes
unfolding insert_node
insert_node-first k n empty h = refl
insert_node-first k n (node j o rest) h = rw (before-same k j h, h) refl

plain-none : (v : JsValue) → is_plain v ≡ true → with_metadata v ≡ none
plain-none v h = elim (Option-cases (with_metadata v)) [
  | inl e ↦ e
  | inr (p, e) ↦ absurd (true-false (sym h ∙ ap (λ o. is_none o) e))
]

with_metadata-wrapped :
    (t : ℕ) (v : JsValue) → with_metadata (wrapped t v) ≡ both v (number (whole t))
unfolding with_metadata get lookup
with_metadata-wrapped t v = refl

to_systime-number : (t : ℕ) → t < 2 ^ 64 → to_systime (number (whole t)) ≡ done t
unfolding to_systime from_secs
to_systime-number t h = rw (lt→ltb t (2 ^ 64) h) refl

create_node-plain :
    (fuel : ℕ) (v : JsValue)
    → with_metadata v ≡ none
    → create_node (suc fuel) v ≡ create_either (create_node fuel) v unix_epoch
unfolding create_node
create_node-plain fuel v e = rw (create_node, e) refl

-- A value with a time is read with that time.
create_node-with_time :
    (fuel t : ℕ) (v : JsValue)
    → t < 2 ^ 64
    → both v (number (whole t)) ≡ some (v, number (whole t))
    → create_node (suc fuel) (with_time t v) ≡ create_either (create_node fuel) v t
unfolding with_time create_node
create_node-with_time fuel t v h e = elim (Bool-cases (t == unix_epoch && is_plain v)) [
  | inl p ↦
      let parts : ((t == unix_epoch) ≡ true) × (is_plain v ≡ true) =
        and-true (t == unix_epoch) (is_plain v) p in
      let plain : with_time t v ≡ v = rw p refl in
      ap (create_node (suc fuel)) plain
      ∙ create_node-plain fuel v (plain-none v parts.1)
      ∙ ap (create_either (create_node fuel) v) (sym (==→eq t unix_epoch parts.0))
  | inr p ↦ rw (p, create_node, with_metadata-wrapped t v, e, to_systime-number t h) refl
]

mutual
  unfolding embed IsTree depth create_either create_file create_dir object_entries create_nodes

  create_node-embed_lem :
      (fuel : ℕ) (n : MemoryNode) → IsTree n → depth n ≤ fuel → create_node fuel (embed n) ≡ done n
  create_node-embed_lem zero (file f) t h = absurd (omega arith)
  create_node-embed_lem zero (dir modified nodes) t h = absurd (omega arith)
  create_node-embed_lem (suc fuel) (file f) t h =
      create_node-with_time fuel f.modified (bytes f.data_of) t refl
  create_node-embed_lem (suc fuel) (dir modified nodes) t h =
      create_node-with_time fuel modified (object (embed_nodes nodes)) t.0 refl
      ∙ ap
          (λ (o : Outcome Nodes).
            (o >>= λ nodes. done (record { modified = modified; nodes = nodes }))
            >>= λ (d : MemoryDir). done (dir d.modified d.nodes))
          (create_nodes-embed fuel nodes t.1 (omega arith))

  create_nodes-embed :
      (fuel : ℕ) (nodes : Nodes)
      → AreTrees nodes
      → depth_nodes nodes ≤ fuel
      → create_nodes (create_node fuel) (embed_nodes nodes) ≡ done nodes
  create_nodes-embed fuel empty t h = refl
  create_nodes-embed fuel (node k n rest) t h =
      rw
        (
          create_node-embed_lem fuel n t.0 (omega arith),
          create_nodes-embed fuel rest t.1 (omega arith),
          insert_node-first k n rest t.2,
        )
        refl

-- A tree of files whose times fit in a `Duration` and whose names are in order in each directory,
-- written as values, with the time where it is not the epoch or where the directory would be taken
-- for a pair of data and a time, is read back as it was, if there is fuel for its depth.
pub create_node-embed :
    (fuel : ℕ) (n : MemoryNode) → IsTree n → depth n ≤ fuel → create_node fuel (embed n) ≡ done n
create_node-embed fuel n t h = create_node-embed_lem fuel n t h
