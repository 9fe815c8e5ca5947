-- ===== src/Format/Split.antt =====
-- `strings.Split` at a separator.
use go_hydra.Base.{
  ℕ, ◌≡◌, ◌≢◌, refl, inl, inr, List, [], ◌∷◌, ◌++◌, arith, ◌==◌, Bool-cases, Bytes, All,
}
use go_hydra.Format.{split}

-- There is a first field.
split-cons : (sep : ℕ) (s : Bytes) → (f : Bytes) × (fs : List Bytes) × (split sep s ≡ f ∷ fs)
unfolding split
split-cons sep [] = ([], [], refl)
split-cons sep (c ∷ s) =
    let (f, fs, e) = split-cons sep s in
    elim (Bool-cases (c == sep)) [
      | inl same ↦ ([], f ∷ fs, ground arith)
      | inr other ↦ (c ∷ f, fs, ground arith)
    ]

-- A field without the separator ends at the separator behind it.
pub split-append :
    (sep : ℕ) (s rest : Bytes)
    → All (λ c. c ≢ sep) s
    → split sep (s ++ (sep ∷ rest)) ≡ s ∷ split sep rest
unfolding split
split-append sep [] rest h = let (f, fs, e) = split-cons sep rest in ground arith
split-append sep (c ∷ s) rest h = ground (arith, split-append sep s rest h.1)
