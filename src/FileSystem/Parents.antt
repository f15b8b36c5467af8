-- ===== src/FileSystem/Parents.antt =====
-- That the two functions agree.
use wasmer_js.Prelude.{
  ℕ, ◌<◌, ◌≡◌, ◌≢◌, refl, sym, ap, ◌∙◌, [], ◌∷◌, Bool, true, false, if◌then◌else◌, Bool-cases, inl,
  inr, length, arith,
}
use wasmer_js.FileSystem.{
  FilePath, Made, made, already_exists, failed, ◌>>=◌, Calls, ensure, create_dir_all, settle,
  create_dir_all_internal,
}

-- What a file system promises: a directory has metadata, the creation of a directory leaves the
-- other paths alone, and it is not said to exist where nothing is.
pub record IsFileSystem {S : Type 0} (fs : Calls S) : Type 0 where
  pub has_metadata : (s : S) (p : FilePath) → fs.read_dir s p ≡ true → fs.metadata s p ≡ true
  pub leaves_others :
      (s s' : S) (p q : FilePath)
      → fs.create_dir s p ≡ made s'
      → q ≢ p
      → (fs.read_dir s' q ≡ fs.read_dir s q) × (fs.metadata s' q ≡ fs.metadata s q)
  pub exists_already :
      (s : S) (p : FilePath) → fs.create_dir s p ≡ already_exists → fs.metadata s p ≡ true

-- There are only directories, each in a directory, and the root.
pub record OnlyDirs {S : Type 0} (fs : Calls S) (s : S) : Type 0 where
  pub is_dir : (p : FilePath) → fs.metadata s p ≡ true → fs.read_dir s p ≡ true
  pub has_parent :
      (name : ℕ) (p : FilePath) → fs.metadata s (name ∷ p) ≡ true → fs.metadata s p ≡ true

true-false : true ≢ false
true-false h = cc

made-inj : {S : Type 0} {s s' : S} → made s ≡ made s' → s ≡ s'
made-inj h = cc

>>=-made :
    {S : Type 0} (m : Made S) (f : S → Made S) {s' : S}
    → (m >>= f) ≡ made s'
    → (s : S) × (m ≡ made s) × (f s ≡ made s')
>>=-made (made s) f h = (s, refl, h)
>>=-made already_exists f h = cc
>>=-made failed f h = cc

module _ {S : Type 0} (fs : Calls S) (laws : IsFileSystem fs) where
  abbrev Same : S → S → FilePath → Type 0
  Same s s' q = (fs.read_dir s' q ≡ fs.read_dir s q) × (fs.metadata s' q ≡ fs.metadata s q)

  longer : (p q : FilePath) → length p < length q → q ≢ p
  longer p q h e = absurd (omega (arith, ap length e))

  ensure-Same :
      (s s' : S) (p q : FilePath) → length p < length q → ensure fs s p ≡ made s' → Same s s' q
  ensure-Same s s' p q h e = elim (Bool-cases (fs.read_dir s p)) [
    | inl r ↦
        let same : s ≡ s' =
          made-inj (sym (ap (λ (b : Bool). if b then made s else fs.create_dir s p) r) ∙ e) in
        (ap (λ (t : S). fs.read_dir t q) (sym same), ap (λ (t : S). fs.metadata t q) (sym same))
    | inr r ↦
        laws.leaves_others s s' p q
          (sym (ap (λ (b : Bool). if b then made s else fs.create_dir s p) r) ∙ e) (longer p q h)
  ]

  -- The creation of a directory with its parents leaves deeper paths alone.
  create_dir_all-Same :
      (s s' : S) (p q : FilePath)
      → length p < length q
      → create_dir_all fs s p ≡ made s'
      → Same s s' q
  unfolding create_dir_all
  create_dir_all-Same s s' [] q h e = ensure-Same s s' [] q h e
  create_dir_all-Same s s' (name ∷ p) q h e =
      let (t, a, b) = >>=-made (create_dir_all fs s p) (λ t. ensure fs t (name ∷ p)) e in
      let first = create_dir_all-Same s t p q (omega arith) a in
      let second = ensure-Same t s' (name ∷ p) q h b in (second.0 ∙ first.0, second.1 ∙ first.1)

  -- Where a path exists, nothing is created.
  create_dir_all-exists :
      (s : S) (p : FilePath)
      → OnlyDirs fs s
      → fs.metadata s p ≡ true
      → create_dir_all fs s p ≡ made s
  unfolding create_dir_all
  create_dir_all-exists s [] d h = rw (d.is_dir [] h) refl
  create_dir_all-exists s (name ∷ p) d h =
      rw (create_dir_all-exists s p d (d.has_parent name p h), d.is_dir (name ∷ p) h) refl

  no_dir : (s : S) (p : FilePath) → fs.metadata s p ≡ false → fs.read_dir s p ≡ false
  no_dir s p h = elim (Bool-cases (fs.read_dir s p)) [
    | inl r ↦ absurd (true-false (sym (laws.has_metadata s p r) ∙ h))
    | inr r ↦ r
  ]

  -- What is not there is created by both in the same way.
  settle-ensure :
      (s : S) (p : FilePath)
      → fs.metadata s p ≡ false
      → settle fs s (fs.create_dir s p) ≡ ensure fs s p
  settle-ensure s p h = rw (no_dir s p h) (go (fs.create_dir s p) refl)
    where
      go : (m : Made S) → fs.create_dir s p ≡ m → settle fs s m ≡ m
      go (made s') e = refl
      go already_exists e = absurd (true-false (sym (laws.exists_already s p e) ∙ h))
      go failed e = refl

  >>=-eq :
      (m : Made S) (f g : S → Made S) → ((s : S) → m ≡ made s → f s ≡ g s) → (m >>= f) ≡ (m >>= g)
  >>=-eq (made s) f g h = h s refl
  >>=-eq already_exists f g h = refl
  >>=-eq failed f g h = refl

  -- In a file system that keeps its promises and has only directories, each but the root within
  -- another, `create_dir_all_internal` and `create_dir_all` create the same directories of an
  -- absolute path, or fail alike.
  pub create_dir_all-internal :
      (s : S) (p : FilePath)
      → OnlyDirs fs s
      → create_dir_all_internal fs s p ≡ create_dir_all fs s p
  unfolding create_dir_all_internal create_dir_all
  create_dir_all-internal s [] d = elim (Bool-cases (fs.metadata s [])) [
    | inl h ↦ rw (h, d.is_dir [] h) refl
    | inr h ↦ rw h (settle-ensure s [] h)
  ]
  create_dir_all-internal s (name ∷ p) d = elim (Bool-cases (fs.metadata s (name ∷ p))) [
    | inl h ↦ rw h (sym (create_dir_all-exists s (name ∷ p) d h))
    | inr h ↦ rw h (
        ap (λ (m : Made S). m >>= λ t. settle fs t (fs.create_dir t (name ∷ p)))
          (create_dir_all-internal s p d)
        ∙ >>=-eq (create_dir_all fs s p) (λ t. settle fs t (fs.create_dir t (name ∷ p)))
            (λ t. ensure fs t (name ∷ p))
            (λ t e.
              settle-ensure t (name ∷ p)
                ((create_dir_all-Same s t p (name ∷ p) (omega arith) e).1 ∙ h)))
  ]
