-- ===== src/Directory/Total.antt =====
-- The fuel of the constructor of `XMLDirectory` does not run out.
use control_system_adapter_o.Prelude.{
  ℕ, zero, suc, ◌+◌, ◌<◌, ◌≤◌, String, ◌≢◌, Option, none, some, List, [], ◌∷◌, ◌++◌, arith,
}
use control_system_adapter_o.Prelude.Text.{Text, codes}
use control_system_adapter_o.Prelude.Result.{
  Result, ok, err, key_error, recursion_error, require, ◌>>=◌,
}
use control_system_adapter_o.Etree.{Etree, Every}
use control_system_adapter_o.Variable.{new_var, child_text, int_of}
use control_system_adapter_o.Directory.{XmlDirectory}
use control_system_adapter_o.Directory.Parse.{parse_dirs, parse_vars, new_directory}

-- The fuel did not run out.
abbrev IsReached {ℓ} : {A : Type ℓ} → Result A → Type ℓ
IsReached r = r ≢ err recursion_error

bind-IsReached {ℓ κ} :
    {A : Type ℓ} {B : Type κ} (m : Result A) (f : A → Result B)
    → IsReached m
    → ((a : A) → IsReached (f a))
    → IsReached (m >>= f)
bind-IsReached (ok a) f h k = k a
bind-IsReached (err x) f h k = λ p. h (cc p)

ok-IsReached {ℓ} : {A : Type ℓ} (a : A) → IsReached (ok a)
ok-IsReached a = λ p. cc p

name-IsReached {ℓ} : {A : Type ℓ} (o : Option A) → IsReached (require key_error o)
name-IsReached none = λ p. cc p
name-IsReached (some t) = λ p. cc p

int_of-IsReached : (o : Option Text) → IsReached (int_of o)
unfolding int_of
int_of-IsReached o = ground arith

module _ (L : Etree) where
  child_text-IsReached : (e : L.Element) (t : String) → IsReached (child_text L e t)
  unfolding child_text
  child_text-IsReached e t = ground arith

  new_var-IsReached : (e : L.Element) (path : Text) → IsReached (new_var L e path)
  unfolding new_var
  new_var-IsReached e path = bind-IsReached _ _ (name-IsReached (L.attrib e "name")) λ name.
      bind-IsReached _ _ (child_text-IsReached e "value_type") λ t.
        bind-IsReached _ _ (child_text-IsReached e "numberOfElements") λ n.
          bind-IsReached _ _ (int_of-IsReached n) λ z.
            bind-IsReached _ _ (child_text-IsReached e "unit") λ u.
              bind-IsReached _ _ (child_text-IsReached e "direction")
                λ d. bind-IsReached _ _ (child_text-IsReached e "description") λ s. ok-IsReached _

  parse_vars-IsReached : (path : Text) (es : List L.Element) → IsReached (parse_vars L path es)
  unfolding parse_vars
  parse_vars-IsReached path [] = ok-IsReached []
  parse_vars-IsReached path (e ∷ es) =
      bind-IsReached _ _ (new_var-IsReached e path)
        λ v. bind-IsReached _ _ (parse_vars-IsReached path es) λ vs. ok-IsReached _

  parse_dirs-IsReached :
      (make : Text → L.Element → Result XmlDirectory) (es : List L.Element)
      → Every (λ e. (n : Text) → IsReached (make n e)) es
      → IsReached (parse_dirs L make es)
  unfolding parse_dirs
  parse_dirs-IsReached make [] h = ok-IsReached _
  parse_dirs-IsReached make (e ∷ es) h =
      bind-IsReached _ _ (name-IsReached (L.attrib e "name")) λ name.
        bind-IsReached _ _ (h.0 name)
          λ d. bind-IsReached _ _ (parse_dirs-IsReached make es h.1) λ ds. ok-IsReached _

  Every-below :
      {P : L.Element → Type 0} (a b : ℕ) (es : List L.Element)
      → b ≤ a
      → ((c : L.Element) → L.height c < a → P c)
      → Every (λ c. L.height c < b) es
      → Every P es
  Every-below a b [] k f h = tt
  Every-below a b (e ∷ es) k f h = (f e (omega (arith, h.0)), Every-below a b es k f h.1)

  -- The constructor of `XMLDirectory`, with fuel above the height of the element, does not run out of it:
  -- every result is a directory or an exception that the code raises.
  pub new_directory-IsReached :
      (fuel : ℕ) (name : Text) (e : L.Element) (level : ℕ) (path : Text)
      → L.height e < fuel
      → new_directory L fuel name e level path ≢ err recursion_error
  unfolding new_directory
  new_directory-IsReached zero name e level path h = elim h [ ]
  new_directory-IsReached (suc fuel) name e level path h =
      let p = path ++ (codes "/" ++ name) in
      bind-IsReached _ _
        (parse_dirs-IsReached (λ n c. new_directory L fuel n c (level + 1) p)
          (L.findall e "directory" (L.nsmap e))
          (Every-below fuel (L.height e) (L.findall e "directory" (L.nsmap e)) (omega arith)
            (λ c lt n. new_directory-IsReached fuel n c (level + 1) p lt)
            (L.height-findall e "directory" (L.nsmap e))))
        λ ds.
          bind-IsReached _ _ (parse_vars-IsReached p (L.findall e "variable" (L.nsmap e)))
            λ vs. ok-IsReached _
