-- ===== src/Common/Maps.antt =====
-- Go's maps with string keys, as association lists without a second entry for a key.
use tele_portal.Common.{
  Bool-cases, List, Option, [], ap, false, if◌then◌else◌, inl, inr, none, refl, some, suc, sym,
  true, ℕ, ◌∙◌, ◌∷◌, ◌≡◌,
}
use tele_portal.Common.Text.{Text, same_text, same_text_refl, same_text_sym, same_text→eq}

abbrev pub Map {ℓ} : Type ℓ → Type ℓ
Map V = List (Text × V)

unfoldable pub lookup {ℓ} : {V : Type ℓ} → Text → Map V → Option V
lookup k [] = none
lookup k (e ∷ m) = if same_text k e.0 then some e.1 else lookup k m

unfoldable pub delete {ℓ} : {V : Type ℓ} → Text → Map V → Map V
delete k [] = []
delete k (e ∷ m) = let rest = delete k m in if same_text k e.0 then rest else e ∷ rest

unfoldable pub insert {ℓ} : {V : Type ℓ} → Text → V → Map V → Map V
unfolding delete
insert k v m = (k, v) ∷ delete k m

-- The number of entries, `len(m)`.
unfoldable pub size {ℓ} : {V : Type ℓ} → Map V → ℕ
size [] = 0
size (e ∷ m) = suc (size m)

pub lookup-delete_self {ℓ} : {V : Type ℓ} → (k : Text) → (m : Map V) → lookup k (delete k m) ≡ none
unfolding lookup delete
lookup-delete_self k [] = refl
lookup-delete_self k (e ∷ m) = elim (Bool-cases (same_text k e.0)) [
  | inl g ↦ rw g (lookup-delete_self k m)
  | inr g ↦ rw (g, g) (lookup-delete_self k m)
]

pub same_text-trans_false :
    (j k x : Text) → same_text j k ≡ false → same_text k x ≡ true → same_text j x ≡ false
same_text-trans_false j k x ne g = rw (sym (same_text→eq k x g)) ne

pub lookup-delete_ne {ℓ} :
    {V : Type ℓ}
    → (j k : Text) → (m : Map V) → same_text j k ≡ false
    → lookup j (delete k m) ≡ lookup j m
unfolding lookup delete
lookup-delete_ne j k [] ne = refl
lookup-delete_ne j k (e ∷ m) ne = elim (Bool-cases (same_text k e.0)) [
  | inl g ↦ rw (g, same_text-trans_false j k e.0 ne g) (lookup-delete_ne j k m ne)
  | inr g ↦ elim (Bool-cases (same_text j e.0)) [
    | inl h ↦ rw (g, h) refl
    | inr h ↦ rw (g, h) (lookup-delete_ne j k m ne)
  ]
]

pub lookup-insert_self {ℓ} :
    {V : Type ℓ} → (k : Text) → (v : V) → (m : Map V) → lookup k (insert k v m) ≡ some v
unfolding lookup insert
lookup-insert_self k v m = rw (same_text_refl k) refl

pub lookup-insert_ne {ℓ} :
    {V : Type ℓ}
    → (j k : Text) → (v : V) → (m : Map V) → same_text j k ≡ false
    → lookup j (insert k v m) ≡ lookup j m
unfolding lookup insert
lookup-insert_ne j k v m ne = rw ne (lookup-delete_ne j k m ne)

pub true-false : ¬ (true ≡ false)
true-false e = cc

pub some-none {ℓ} : {A : Type ℓ} {a : A} → ¬ (some a ≡ none)
some-none e = cc

pub some-inj {ℓ} : {A : Type ℓ} {a b : A} → some a ≡ some b → a ≡ b
some-inj e = cc

pub delete-absent {ℓ} : {V : Type ℓ} → (k : Text) → (m : Map V) → lookup k m ≡ none → delete k m ≡ m
unfolding lookup delete
delete-absent k [] a = refl
delete-absent k (e ∷ m) a = elim (Bool-cases (same_text k e.0)) [
  | inl g ↦ absurd (some-none (rw g at a))
  | inr g ↦ rw g (ap (λ l. e ∷ l) (delete-absent k m (rw g at a)))
]

-- No key has two entries.
unfoldable pub IsMap {ℓ} : {V : Type ℓ} → Map V → Type ℓ
IsMap [] = Unit
IsMap (e ∷ m) = (lookup e.0 m ≡ none) × IsMap m

pub delete-IsMap {ℓ} : {V : Type ℓ} → (k : Text) → (m : Map V) → IsMap m → IsMap (delete k m)
unfolding IsMap delete
delete-IsMap k [] h = tt
delete-IsMap k (e ∷ m) h = elim (Bool-cases (same_text k e.0)) [
  | inl g ↦ rw g (delete-IsMap k m h.1)
  | inr g ↦ rw g (lookup-delete_ne e.0 k m (rw (same_text_sym e.0 k) g) ∙ h.0, delete-IsMap k m h.1)
]

pub insert-IsMap {ℓ} :
    {V : Type ℓ} → (k : Text) → (v : V) → (m : Map V) → IsMap m → IsMap (insert k v m)
unfolding IsMap insert
insert-IsMap k v m h = (lookup-delete_self k m, delete-IsMap k m h)

-- A key that is there takes one entry with it.
pub size-delete {ℓ} :
    {V : Type ℓ}
    → (k : Text) → (v : V) → (m : Map V) → IsMap m
    → lookup k m ≡ some v
    → suc (size (delete k m)) ≡ size m
unfolding IsMap lookup delete size
size-delete k v [] h e = absurd (some-none (sym e))
size-delete k v (x ∷ m) h e = elim (Bool-cases (same_text k x.0)) [
  | inl g ↦
      let absent : lookup k m ≡ none = rw (same_text→eq k x.0 g) (h.0) in
      rw (g, delete-absent k m absent) refl
  | inr g ↦ rw g (ap suc (size-delete k v m h.1 (rw g at e)))
]
