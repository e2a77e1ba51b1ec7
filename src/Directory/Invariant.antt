-- ===== src/Directory/Invariant.antt =====
-- The invariant of a directory tree: paths, full names and levels fit the nesting.
use control_system_adapter_o.Prelude.{
  ℕ, zero, suc, ◌+◌, ◌≡◌, refl, ◌∙◌, List, [], ◌∷◌, ◌++◌, map, arith, Bool-cases, inl, inr,
}
use control_system_adapter_o.Prelude.Text.{Text, codes, text_eq}
use control_system_adapter_o.Prelude.Result.{Result, ok, key_error, require, bind-ok, ok-injective}
use mathlib.Core.Path.{subst}
use control_system_adapter_o.Etree.{Etree}
use control_system_adapter_o.Variable.{XmlVar, new_var, reset_var}
use control_system_adapter_o.Directory.{
  DirectoryInfo, XmlDirectory, directory, Directories, nil, cons, reset, reset_all, change_dir,
  change_in, change_var, change_var_in, change_among, find_dir, is_found, find_var, find_among,
}
use control_system_adapter_o.Directory.Parse.{parse_dirs, parse_vars, new_directory}

abbrev pub below : Text → Text → Text
below path name = path ++ (codes "/" ++ name)

abbrev pub AreNamed : Text → List XmlVar → Type 0
AreNamed path [] = Unit
AreNamed path (v ∷ vs) = (v.full_name ≡ below path v.name) × AreNamed path vs

abbrev mutual
  pub IsWellFormed : Text → ℕ → XmlDirectory → Type 0
  IsWellFormed path level (directory i ds vs) =
      (i.path ≡ below path i.name)
      × (i.hierarchy_level ≡ level)
      × AreWellFormed i.path (level + 1) ds
      × AreNamed i.path vs

  pub AreWellFormed : Text → ℕ → Directories → Type 0
  AreWellFormed path level nil = Unit
  AreWellFormed path level (cons d ds) = IsWellFormed path level d × AreWellFormed path level ds

module _ (L : Etree) where
  new_var-named :
      (e : L.Element) (path : Text) (v : XmlVar)
      → new_var L e path ≡ ok v
      → v.full_name ≡ below path v.name
  unfolding new_var
  new_var-named e path v h = ground arith

  parse_vars-AreNamed :
      (path : Text) (es : List L.Element) (vs : List XmlVar)
      → parse_vars L path es ≡ ok vs
      → AreNamed path vs
  unfolding parse_vars
  parse_vars-AreNamed path [] vs h = subst (AreNamed path) (ok-injective h) tt
  parse_vars-AreNamed path (e ∷ es) vs h =
      let a = bind-ok (new_var L e path) _ h in
      let b = bind-ok (parse_vars L path es) _ a.2 in
      subst (AreNamed path) (ok-injective b.2)
        (new_var-named e path a.0 a.1, parse_vars-AreNamed path es b.0 b.1)

  parse_dirs-AreWellFormed :
      (make : Text → L.Element → Result XmlDirectory) (path : Text) (level : ℕ)
      → ((n : Text) (e : L.Element) (d : XmlDirectory)
          → make n e ≡ ok d
          → IsWellFormed path level d)
      → (es : List L.Element) (ds : Directories) → parse_dirs L make es ≡ ok ds
      → AreWellFormed path level ds
  unfolding parse_dirs
  parse_dirs-AreWellFormed make path level keep [] ds h =
      subst (AreWellFormed path level) (ok-injective h) tt
  parse_dirs-AreWellFormed make path level keep (e ∷ es) ds h =
      let a = bind-ok (require key_error (L.attrib e "name")) _ h in
      let b = bind-ok (make a.0 e) _ a.2 in
      let c = bind-ok (parse_dirs L make es) _ b.2 in
      subst (AreWellFormed path level) (ok-injective c.2)
        (keep a.0 e b.0 b.1, parse_dirs-AreWellFormed make path level keep es c.0 c.1)

  -- In a tree that the constructor of `XMLDirectory` gives, each path is the parent's path, a slash and
  -- the name, each level is one more than the parent's, and each full name of a variable is its
  -- directory's path, a slash and its name, from the path and level that the constructor is given.
  pub new_directory-IsWellFormed :
      (fuel : ℕ) (name : Text) (e : L.Element) (level : ℕ) (path : Text) (d : XmlDirectory)
      → new_directory L fuel name e level path ≡ ok d
      → IsWellFormed path level d
  unfolding new_directory
  new_directory-IsWellFormed zero name e level path d h = cc
  new_directory-IsWellFormed (suc fuel) name e level path d h =
      let a =
        bind-ok
          (parse_dirs L (λ n c. new_directory L fuel n c (level + 1) (below path name))
            (L.findall e "directory" (L.nsmap e)))
          _ h in
      let b = bind-ok (parse_vars L (below path name) (L.findall e "variable" (L.nsmap e))) _ a.2 in
      subst (IsWellFormed path level) (ok-injective b.2) (
        refl,
        refl,
        parse_dirs-AreWellFormed _ (below path name) (level + 1)
            (λ n c x. new_directory-IsWellFormed fuel n c (level + 1) (below path name) x)
            (L.findall e "directory" (L.nsmap e)) a.0 a.1,
        parse_vars-AreNamed (below path name) (L.findall e "variable" (L.nsmap e)) b.0 b.1,
      )

-- What a change of a directory must leave alone.
pub record KeepsPlace (f : DirectoryInfo → DirectoryInfo) : Type 0 where
  pub path : (i : DirectoryInfo) → (f i).path ≡ i.path
  pub name : (i : DirectoryInfo) → (f i).name ≡ i.name
  pub level : (i : DirectoryInfo) → (f i).hierarchy_level ≡ i.hierarchy_level

pub record KeepsName (f : XmlVar → XmlVar) : Type 0 where
  pub name : (v : XmlVar) → (f v).name ≡ v.name
  pub full_name : (v : XmlVar) → (f v).full_name ≡ v.full_name

module _ (f : XmlVar → XmlVar) (keeps : KeepsName f) where
  map-AreNamed : (path : Text) (vs : List XmlVar) → AreNamed path vs → AreNamed path (map f vs)
  map-AreNamed path [] h = tt
  map-AreNamed path (v ∷ vs) h =
      (rw (keeps.full_name v, keeps.name v) h.0, map-AreNamed path vs h.1)

  change_among-AreNamed :
      (t path : Text) (vs : List XmlVar) → AreNamed path vs → AreNamed path (change_among f t vs)
  unfolding change_among
  change_among-AreNamed t path [] h = tt
  change_among-AreNamed t path (v ∷ vs) h = elim (Bool-cases (text_eq t v.full_name)) [
    | inl here ↦ rw here (rw (keeps.full_name v, keeps.name v) h.0, h.1)
    | inr later ↦ rw later (h.0, change_among-AreNamed t path vs h.1)
  ]

  mutual
    unfolding change_var

    pub change_var-IsWellFormed :
        (t path : Text) (level : ℕ) (d : XmlDirectory)
        → IsWellFormed path level d
        → IsWellFormed path level (change_var f t d)
    change_var-IsWellFormed t path level (directory i ds vs) h =
        elim (Bool-cases (is_found (find_among vs t))) [
          | inl here ↦ rw here (h.0, h.1, h.2, change_among-AreNamed t i.path vs h.3)
          | inr later ↦
              rw later (h.0, h.1, change_var_in-AreWellFormed t i.path (level + 1) ds h.2, h.3)
        ]

    change_var_in-AreWellFormed :
        (t path : Text) (level : ℕ) (ds : Directories)
        → AreWellFormed path level ds
        → AreWellFormed path level (change_var_in f t ds)
    change_var_in-AreWellFormed t path level nil h = tt
    change_var_in-AreWellFormed t path level (cons d ds) h =
        elim (Bool-cases (is_found (find_var d t))) [
          | inl here ↦ rw here (change_var-IsWellFormed t path level d h.0, h.1)
          | inr later ↦ rw later (h.0, change_var_in-AreWellFormed t path level ds h.1)
        ]

module _ (f : DirectoryInfo → DirectoryInfo) (keeps : KeepsPlace f) where
  mutual
    unfolding change_dir

    pub change_dir-IsWellFormed :
        (t path : Text) (level : ℕ) (d : XmlDirectory)
        → IsWellFormed path level d
        → IsWellFormed path level (change_dir f t d)
    change_dir-IsWellFormed t path level (directory i ds vs) h =
        elim (Bool-cases (text_eq t i.path)) [
          | inl here ↦ rw here (
            rw (keeps.path i, keeps.name i) h.0,
            keeps.level i ∙ h.1,
            rw (keeps.path i) h.2,
            rw (keeps.path i) h.3,
          )
          | inr later ↦
              rw later (h.0, h.1, change_in-AreWellFormed t i.path (level + 1) ds h.2, h.3)
        ]

    change_in-AreWellFormed :
        (t path : Text) (level : ℕ) (ds : Directories)
        → AreWellFormed path level ds
        → AreWellFormed path level (change_in f t ds)
    change_in-AreWellFormed t path level nil h = tt
    change_in-AreWellFormed t path level (cons d ds) h =
        elim (Bool-cases (is_found (find_dir d t))) [
          | inl here ↦ rw here (change_dir-IsWellFormed t path level d h.0, h.1)
          | inr later ↦ rw later (h.0, change_in-AreWellFormed t path level ds h.1)
        ]

reset_var-KeepsName : KeepsName reset_var
unfolding reset_var
reset_var-KeepsName = record { name = λ v. refl; full_name = λ v. refl }

mutual
  unfolding reset

  pub reset-IsWellFormed :
      (path : Text) (level : ℕ) (d : XmlDirectory)
      → IsWellFormed path level d
      → IsWellFormed path level (reset d)
  reset-IsWellFormed path level (directory i ds vs) h = (
    h.0,
    h.1,
    reset_all-AreWellFormed i.path (level + 1) ds h.2,
    map-AreNamed reset_var reset_var-KeepsName i.path vs h.3,
  )

  reset_all-AreWellFormed :
      (path : Text) (level : ℕ) (ds : Directories)
      → AreWellFormed path level ds
      → AreWellFormed path level (reset_all ds)
  reset_all-AreWellFormed path level nil h = tt
  reset_all-AreWellFormed path level (cons d ds) h =
      (reset-IsWellFormed path level d h.0, reset_all-AreWellFormed path level ds h.1)
