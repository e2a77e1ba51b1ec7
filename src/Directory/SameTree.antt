-- ===== src/Directory/SameTree.antt =====
-- Trees of the same nesting with the same names, paths and levels.
use control_system_adapter_o.Prelude.{
  ℕ, ◌+◌, ◌≡◌, refl, ◌∙◌, List, [], ◌∷◌, map, Bool-cases, inl, inr,
}
use control_system_adapter_o.Prelude.Text.{Text, text_eq}
use control_system_adapter_o.Variable.{XmlVar, reset_var}
use control_system_adapter_o.Directory.{
  DirectoryInfo, XmlDirectory, directory, Directories, nil, cons, reset, reset_all, change_dir,
  change_in, change_var, change_var_in, change_among, find_dir, is_found, find_var, find_among,
}
use control_system_adapter_o.Directory.Invariant.{
  KeepsPlace, KeepsName, AreNamed, IsWellFormed, AreWellFormed,
}

abbrev pub SamePlace : DirectoryInfo → DirectoryInfo → Type 0
SamePlace i j = (j.path ≡ i.path) × (j.name ≡ i.name) × (j.hierarchy_level ≡ i.hierarchy_level)

abbrev pub SameVars : List XmlVar → List XmlVar → Type 0
SameVars [] [] = Unit {0}
SameVars [] (_ ∷ _) = ⊥
SameVars (_ ∷ _) [] = ⊥
SameVars (v ∷ vs) (u ∷ us) = (u.name ≡ v.name) × (u.full_name ≡ v.full_name) × SameVars vs us

abbrev mutual
  pub SameTree : XmlDirectory → XmlDirectory → Type 0
  SameTree (directory i ds vs) (directory j es us) =
      SamePlace i j × SameTrees ds es × SameVars vs us

  pub SameTrees : Directories → Directories → Type 0
  SameTrees nil nil = Unit {0}
  SameTrees nil (cons _ _) = ⊥
  SameTrees (cons _ _) nil = ⊥
  SameTrees (cons d ds) (cons e es) = SameTree d e × SameTrees ds es

pub SameVars-refl : (vs : List XmlVar) → SameVars vs vs
SameVars-refl [] = tt
SameVars-refl (v ∷ vs) = (refl, refl, SameVars-refl vs)

mutual
  pub SameTree-refl : (d : XmlDirectory) → SameTree d d
  SameTree-refl (directory i ds vs) = ((refl, refl, refl), SameTrees-refl ds, SameVars-refl vs)

  pub SameTrees-refl : (ds : Directories) → SameTrees ds ds
  SameTrees-refl nil = tt
  SameTrees-refl (cons d ds) = (SameTree-refl d, SameTrees-refl ds)

SameVars-trans : (a b c : List XmlVar) → SameVars a b → SameVars b c → SameVars a c
SameVars-trans [] [] [] h k = tt
SameVars-trans [] [] (_ ∷ _) h k = absurd k
SameVars-trans [] (_ ∷ _) c h k = absurd h
SameVars-trans (_ ∷ _) [] c h k = absurd h
SameVars-trans (u ∷ us) (v ∷ vs) [] h k = absurd k
SameVars-trans (u ∷ us) (v ∷ vs) (w ∷ ws) h k =
    (k.0 ∙ h.0, k.1 ∙ h.1, SameVars-trans us vs ws h.2 k.2)

mutual
  pub SameTree-trans : (a b c : XmlDirectory) → SameTree a b → SameTree b c → SameTree a c
  SameTree-trans (directory i xs us) (directory j ys vs) (directory k zs ws) h l = (
    (l.0.0 ∙ h.0.0, l.0.1 ∙ h.0.1, l.0.2 ∙ h.0.2),
    SameTrees-trans xs ys zs h.1 l.1,
    SameVars-trans us vs ws h.2 l.2,
  )

  SameTrees-trans : (a b c : Directories) → SameTrees a b → SameTrees b c → SameTrees a c
  SameTrees-trans nil nil nil h k = tt
  SameTrees-trans nil nil (cons _ _) h k = absurd k
  SameTrees-trans nil (cons _ _) c h k = absurd h
  SameTrees-trans (cons _ _) nil c h k = absurd h
  SameTrees-trans (cons a xs) (cons b ys) nil h k = absurd k
  SameTrees-trans (cons a xs) (cons b ys) (cons c zs) h k =
      (SameTree-trans a b c h.0 k.0, SameTrees-trans xs ys zs h.1 k.1)

-- Such trees have the same invariant.
AreNamed-SameVars :
    (path : Text) (vs us : List XmlVar) → SameVars vs us → AreNamed path vs → AreNamed path us
AreNamed-SameVars path [] [] h k = tt
AreNamed-SameVars path [] (_ ∷ _) h k = absurd h
AreNamed-SameVars path (_ ∷ _) [] h k = absurd h
AreNamed-SameVars path (v ∷ vs) (u ∷ us) h k =
    (rw (h.1, h.0) k.0, AreNamed-SameVars path vs us h.2 k.1)

mutual
  pub IsWellFormed-SameTree :
      (path : Text) (level : ℕ) (d e : XmlDirectory)
      → SameTree d e
      → IsWellFormed path level d
      → IsWellFormed path level e
  IsWellFormed-SameTree path level (directory i ds vs) (directory j es us) h k = (
    rw (h.0.0, h.0.1) k.0,
    h.0.2 ∙ k.1,
    rw h.0.0 (AreWellFormed-SameTrees i.path (level + 1) ds es h.1 k.2),
    rw h.0.0 (AreNamed-SameVars i.path vs us h.2 k.3),
  )

  AreWellFormed-SameTrees :
      (path : Text) (level : ℕ) (ds es : Directories)
      → SameTrees ds es
      → AreWellFormed path level ds
      → AreWellFormed path level es
  AreWellFormed-SameTrees path level nil nil h k = tt
  AreWellFormed-SameTrees path level nil (cons _ _) h k = absurd h
  AreWellFormed-SameTrees path level (cons _ _) nil h k = absurd h
  AreWellFormed-SameTrees path level (cons d ds) (cons e es) h k = (
    IsWellFormed-SameTree path level d e h.0 k.0,
    AreWellFormed-SameTrees path level ds es h.1 k.1,
  )

module _ (f : DirectoryInfo → DirectoryInfo) (keeps : KeepsPlace f) where
  mutual
    unfolding change_dir

    pub change_dir-SameTree : (t : Text) (d : XmlDirectory) → SameTree d (change_dir f t d)
    change_dir-SameTree t (directory i ds vs) = elim (Bool-cases (text_eq t i.path)) [
      | inl here ↦
          rw here ((keeps.path i, keeps.name i, keeps.level i), SameTrees-refl ds, SameVars-refl vs)
      | inr later ↦ rw later ((refl, refl, refl), change_in-SameTrees t ds, SameVars-refl vs)
    ]

    change_in-SameTrees : (t : Text) (ds : Directories) → SameTrees ds (change_in f t ds)
    change_in-SameTrees t nil = tt
    change_in-SameTrees t (cons d ds) = elim (Bool-cases (is_found (find_dir d t))) [
      | inl here ↦ rw here (change_dir-SameTree t d, SameTrees-refl ds)
      | inr later ↦ rw later (SameTree-refl d, change_in-SameTrees t ds)
    ]

module _ (f : XmlVar → XmlVar) (keeps : KeepsName f) where
  change_among-SameVars : (t : Text) (vs : List XmlVar) → SameVars vs (change_among f t vs)
  unfolding change_among
  change_among-SameVars t [] = tt
  change_among-SameVars t (v ∷ vs) = elim (Bool-cases (text_eq t v.full_name)) [
    | inl here ↦ rw here (keeps.name v, keeps.full_name v, SameVars-refl vs)
    | inr later ↦ rw later (refl, refl, change_among-SameVars t vs)
  ]

  mutual
    unfolding change_var

    pub change_var-SameTree : (t : Text) (d : XmlDirectory) → SameTree d (change_var f t d)
    change_var-SameTree t (directory i ds vs) = elim (Bool-cases (is_found (find_among vs t))) [
      | inl here ↦ rw here ((refl, refl, refl), SameTrees-refl ds, change_among-SameVars t vs)
      | inr later ↦ rw later ((refl, refl, refl), change_var_in-SameTrees t ds, SameVars-refl vs)
    ]

    change_var_in-SameTrees : (t : Text) (ds : Directories) → SameTrees ds (change_var_in f t ds)
    change_var_in-SameTrees t nil = tt
    change_var_in-SameTrees t (cons d ds) = elim (Bool-cases (is_found (find_var d t))) [
      | inl here ↦ rw here (change_var-SameTree t d, SameTrees-refl ds)
      | inr later ↦ rw later (SameTree-refl d, change_var_in-SameTrees t ds)
    ]

reset-SameVars : (vs : List XmlVar) → SameVars vs (map reset_var vs)
unfolding reset_var
reset-SameVars [] = tt
reset-SameVars (v ∷ vs) = (refl, refl, reset-SameVars vs)

mutual
  unfolding reset

  pub reset-SameTree : (d : XmlDirectory) → SameTree d (reset d)
  reset-SameTree (directory i ds vs) =
      ((refl, refl, refl), reset_all-SameTrees ds, reset-SameVars vs)

  reset_all-SameTrees : (ds : Directories) → SameTrees ds (reset_all ds)
  reset_all-SameTrees nil = tt
  reset_all-SameTrees (cons d ds) = (reset-SameTree d, reset_all-SameTrees ds)
