-- ===== src/Directory/Change.antt =====
-- An assignment through the result of `findDir` is seen by the next search.
use control_system_adapter_o.Prelude.{
  ◌≡◌, refl, Option, none, some, arith, Bool-cases, Option-cases, inl, inr,
}
use control_system_adapter_o.Prelude.Text.{Text, text_eq}
use control_system_adapter_o.Directory.{
  DirectoryInfo, XmlDirectory, directory, Directories, nil, cons, info, change_dir, change_in,
  find_dir, find_in,
}
use control_system_adapter_o.Directory.Search.{find_dir_self}
use control_system_adapter_o.Directory.Invariant.{KeepsPlace}

abbrev pub changed : (DirectoryInfo → DirectoryInfo) → XmlDirectory → XmlDirectory
changed f (directory i ds vs) = directory (f i) ds vs

abbrev pub option_map {ℓ κ} : {A : Type ℓ} {B : Type κ} → (A → B) → Option A → Option B
option_map f none = none
option_map f (some a) = some (f a)

module _ (f : DirectoryInfo → DirectoryInfo) (keeps : KeepsPlace f) (t : Text) where
  path-change_dir : (d : XmlDirectory) → (info (change_dir f t d)).path ≡ (info d).path
  unfolding change_dir
  path-change_dir (directory i ds vs) = ground (arith, keeps.path i)

  mutual
    unfolding change_dir find_dir

    find_dir-changed :
        (d : XmlDirectory) → find_dir (change_dir f t d) t ≡ option_map (changed f) (find_dir d t)
    find_dir-changed (directory i ds vs) = elim (Bool-cases (text_eq t i.path)) [
      | inl here ↦ simp (here, keeps.path i)
      | inr below ↦ simp (below, find_in-change_in ds)
    ]

    find_in-change_in :
        (ds : Directories) → find_in (change_in f t ds) t ≡ option_map (changed f) (find_in ds t)
    find_in-change_in nil = refl
    find_in-change_in (cons d ds) = elim (Option-cases (find_dir d t)) [
      | inl absent ↦ ground (arith, absent, find_dir_self t d, find_in-change_in ds)
      | inr found ↦ ground (
        arith,
        found.1,
        find_dir_self t d,
        find_dir_self t (change_dir f t d),
        find_dir-changed d,
      )
    ]

  -- After a change of the directory that `findDir` gives, which keeps name, path and level, the same search
  -- gives that directory as changed, and still nothing if it gave nothing.
  pub find_dir-change_dir :
      (d : XmlDirectory) → find_dir (change_dir f t d) t ≡ option_map (changed f) (find_dir d t)
  find_dir-change_dir d = find_dir-changed d
