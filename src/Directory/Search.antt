-- ===== src/Directory/Search.antt =====
-- `findDir` and `findVar` as searches in a list, and what an assignment through their result does.
use control_system_adapter_o.Prelude.{
  ◌≡◌, refl, Bool, true, Option, none, some, List, [], ◌∷◌, ◌++◌, arith, if◌then◌else◌,
}
use control_system_adapter_o.Prelude.Text.{Text, text_eq}
use control_system_adapter_o.Variable.{XmlVar, var_eq}
use control_system_adapter_o.Directory.{
  XmlDirectory, directory, Directories, nil, cons, info, is_at, find_dir, find_in, find_among,
  find_var, find_var_in,
}

-- All directories, each in front of those below it.
unfoldable mutual
  pub all_dirs : XmlDirectory → List XmlDirectory
  all_dirs (directory i ds vs) = directory i ds vs ∷ all_dirs_in ds

  pub all_dirs_in : Directories → List XmlDirectory
  all_dirs_in nil = []
  all_dirs_in (cons d ds) = all_dirs d ++ all_dirs_in ds

-- All variables, those of a directory in front of those of its directories.
unfoldable mutual
  pub all_vars : XmlDirectory → List XmlVar
  all_vars (directory i ds vs) = vs ++ all_vars_in ds

  pub all_vars_in : Directories → List XmlVar
  all_vars_in nil = []
  all_vars_in (cons d ds) = all_vars d ++ all_vars_in ds

-- The first element of a list that passes a test.
unfoldable pub first_of_list {ℓ} : {A : Type ℓ} → (A → Bool) → List A → Option A
first_of_list p [] = none
first_of_list p (x ∷ xs) = if p x then some x else first_of_list p xs

abbrev or_else {ℓ} : {A : Type ℓ} → Option A → Option A → Option A
or_else none o = o
or_else (some a) o = some a

first-append {ℓ} :
    {A : Type ℓ} (p : A → Bool) (xs ys : List A)
    → first_of_list p (xs ++ ys) ≡ or_else (first_of_list p xs) (first_of_list p ys)
unfolding first_of_list
first-append p [] ys = refl
first-append p (x ∷ xs) ys = ground (arith, first-append p xs ys)

module _ (t : Text) where
  abbrev at : XmlDirectory → Bool
  at d = is_at d t

  pub find_dir_self : (d : XmlDirectory) → text_eq t (info d).path ≡ true → find_dir d t ≡ some d
  unfolding find_dir
  find_dir_self (directory i ds vs) h = rw h refl

  mutual
    unfolding find_dir all_dirs first_of_list

    find_dir-first : (d : XmlDirectory) → find_dir d t ≡ first_of_list at (all_dirs d)
    find_dir-first (directory i ds vs) = rw (find_in-first ds) refl

    find_in-first : (ds : Directories) → find_in ds t ≡ first_of_list at (all_dirs_in ds)
    find_in-first nil = refl
    find_in-first (cons d ds) =
        rw (first-append at (all_dirs d), ← find_dir-first d, ← find_in-first ds)
          (ground (arith, find_dir_self d))

  -- `findDir` gives the first directory whose path is the text, in the list of all directories that has
  -- each directory in front of those below it, and nothing if there is none.
  pub find_dir-eq-first :
      (d : XmlDirectory) → find_dir d t ≡ first_of_list (λ e. is_at e t) (all_dirs d)
  find_dir-eq-first d = find_dir-first d

  abbrev named : XmlVar → Bool
  named v = var_eq v t

  find_among-first : (vs : List XmlVar) → find_among vs t ≡ first_of_list named vs
  unfolding find_among first_of_list
  find_among-first [] = refl
  find_among-first (v ∷ vs) = rw (find_among-first vs) refl

  mutual
    unfolding find_var all_vars first_of_list

    find_var-first : (d : XmlDirectory) → find_var d t ≡ first_of_list named (all_vars d)
    find_var-first (directory i ds vs) =
        rw (first-append named vs, ← find_among-first vs, ← find_var_in-first ds) (ground arith)

    find_var_in-first : (ds : Directories) → find_var_in ds t ≡ first_of_list named (all_vars_in ds)
    find_var_in-first nil = refl
    find_var_in-first (cons d ds) =
        rw (first-append named (all_vars d), ← find_var-first d, ← find_var_in-first ds)
          (ground arith)

  -- `findVar` gives the first variable whose full name is the text, in the list of all variables that has
  -- those of a directory in front of those below it, and nothing if there is none.
  pub find_var-eq-first :
      (d : XmlDirectory) → find_var d t ≡ first_of_list (λ v. var_eq v t) (all_vars d)
  find_var-eq-first d = find_var-first d
