-- ===== src/Package/Keys.antt =====
-- The keys of the maps and objects of a manifest, and what is found behind an insertion.
use wasmer_js.Prelude.{
  ℕ, [], ◌∷◌, some, Bool, true, false, ◌≡◌, ◌≢◌, refl, sym, ap₂, ◌∙◌, ◌==◌, ==→eq, eq→==, ◌&&◌,
  Bool-cases, inl, inr, if◌then◌else◌,
}
use wasmer_js.Package.Value.{
  Text, BTreeMap, insert, find, same, before, JsValue, Entries, end, entry, set, lookup, Outcome,
  done, bailed, panicked, unfinished, ◌>>=◌,
}

pub true-false : true ≢ false
true-false h = cc

pub and-true : (a b : Bool) → (a && b) ≡ true → (a ≡ true) × (b ≡ true)
and-true true b h = (refl, h)
and-true false b h = absurd (true-false (sym h))

pub same→eq : (k j : Text) → same k j ≡ true → k ≡ j
same→eq [] [] h = refl
same→eq [] (y ∷ ys) h = absurd (true-false (sym h))
same→eq (x ∷ xs) [] h = absurd (true-false (sym h))
same→eq (x ∷ xs) (y ∷ ys) h =
    let parts : ((x == y) ≡ true) × (same xs ys ≡ true) = and-true (x == y) (same xs ys) h in
    ap₂ (λ (a : ℕ) (cs : Text). a ∷ cs) (==→eq x y parts.0) (same→eq xs ys parts.1)

pub same_self : (k : Text) → same k k ≡ true
same_self [] = refl
same_self (x ∷ xs) = rw (eq→== x x refl) (same_self xs)

other_key : (p k j : Text) → same k j ≡ false → same p k ≡ true → same p j ≡ false
other_key p k j e h = rw (same→eq p k h) e

if_twice {ℓ} :
    {A : Type ℓ} (b : Bool) (x y z : A)
    → (if b then x else z) ≡ (if b then x else (if b then y else z))
if_twice true x y z = refl
if_twice false x y z = refl

if_swap {ℓ} :
    {A : Type ℓ} (b c : Bool) (x y z : A)
    → (c ≡ true → b ≡ false)
    → (if b then x else (if c then y else z)) ≡ (if c then y else (if b then x else z))
if_swap b true x y z h = rw (h refl) refl
if_swap b false x y z h = refl

-- What is found at a key behind an insertion, or was found before.
pub find-insert {ℓ} :
    {A : Type ℓ} (m : BTreeMap A) (k : Text) (a : A) (p : Text)
    → find (insert m k a) p ≡ (if same p k then some a else find m p)
unfolding find insert
find-insert [] k a p = refl
find-insert ((j, b) ∷ rest) k a p = elim (Bool-cases (same k j)) [
  | inl e ↦ rw (e, sym (same→eq k j e)) (if_twice (same p k) (some a) (some b) (find rest p))
  | inr e ↦ rw e (elim (Bool-cases (before k j)) [
    | inl f ↦ rw f refl
    | inr f ↦
        rw (f, find-insert rest k a p)
          (if_swap (same p j) (same p k) (some b) (some a) (find rest p) (other_key p k j e))
  ])
]

-- What a field is behind the setting of another.
pub lookup-set :
    (es : Entries) (k : Text) (v : JsValue) (p : Text)
    → lookup (set es k v) p ≡ (if same p k then v else lookup es p)
unfolding lookup set
lookup-set end k v p = refl
lookup-set (entry j u rest) k v p = elim (Bool-cases (same k j)) [
  | inl e ↦ rw (e, sym (same→eq k j e)) (if_twice (same p k) v u (lookup rest p))
  | inr e ↦ rw e (elim (Bool-cases (before k j)) [
    | inl f ↦ rw f refl
    | inr f ↦
        rw (f, lookup-set rest k v p)
          (if_swap (same p j) (same p k) u v (lookup rest p) (other_key p k j e))
  ])
]

pub lookup-set_self : (es : Entries) (k : Text) (v : JsValue) → lookup (set es k v) k ≡ v
lookup-set_self es k v = lookup-set es k v k ∙ rw (same_self k) refl

pub >>=-done {ℓ κ} :
    {A : Type ℓ} {B : Type κ} (m : Outcome A) (f : A → Outcome B) {b : B}
    → (m >>= f) ≡ done b
    → (a : A) × (m ≡ done a) × (f a ≡ done b)
>>=-done (done a) f h = (a, refl, h)
>>=-done bailed f h = cc
>>=-done panicked f h = cc
>>=-done unfinished f h = cc
