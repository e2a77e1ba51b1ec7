-- ===== src/Prelude/Result.antt =====
-- Exceptions as values. A method that changes `self` and may raise gives the state that it leaves
-- in both cases, since what was assigned before an exception stays assigned.
use Prim.Native.String.{String}
use mathlib.Core.Option.{Option, none, some}
use control_system_adapter_o.Prelude.Text.{Text}
use control_system_adapter_o.Prelude.Number.{ℤ, str, int, int-str}
use mathlib.Core.Path.{◌≡◌, refl}

pub data Exception : Type 0 where
  runtime_error : String → Exception
  value_error type_error key_error attribute_error index_error recursion_error name_error :
      Exception
  -- what opening, reading or writing a file raises
  input_error : Exception

-- A function without state that may raise.
pub data Result {ℓ} (A : Type ℓ) : Type ℓ where
  ok : A → Result A
  err : Exception → Result A

-- A method that returns nothing, from the state it starts in.
pub data Run {ℓ} (S : Type ℓ) : Type ℓ where
  done : S → Run S
  raised : Exception → S → Run S

infixl 5 ◌>>=◌ ◌▷◌ ◌>>◌
abbrev pub ◌>>=◌ {ℓ κ} : {B : Type ℓ} {C : Type κ} → Result B → (B → Result C) → Result C
err x >>= next = err x
ok b >>= next = next b

-- The next statement, on the state that the first one leaves.
abbrev pub ◌▷◌ {ℓ} : {S : Type ℓ} → Run S → (S → Run S) → Run S
done s ▷ f = f s
raised e s ▷ f = raised e s

abbrev pub state {ℓ} : {S : Type ℓ} → Run S → S
state (done s) = s
state (raised e s) = s

-- What follows a computation without state that may raise.
abbrev pub with_value {ℓ κ} : {A : Type ℓ} {S : Type κ} → Result A → S → (A → Run S) → Run S
with_value (ok a) s f = f a
with_value (err e) s f = raised e s

-- `if key in attrib: self.field = int(attrib[key])`, where the assignment is `put`
unfoldable pub read_int {ℓ} : {S : Type ℓ} → Option Text → S → (ℤ → S) → Run S
read_int none s put = done s
read_int (some t) s put = elim (int t) [ none ↦ raised value_error s | some z ↦ done (put z) ]

-- `if key in attrib: self.field = str(attrib[key])`
abbrev pub or_old : Option Text → Text → Text
or_old none old = old
or_old (some t) old = t

abbrev pub opt_or_old : Option Text → Option Text → Option Text
opt_or_old none old = old
opt_or_old (some t) old = some t

-- A number that was printed is read.
pub read_int-str {ℓ} :
    {S : Type ℓ} (z : ℤ) (s : S) (put : ℤ → S) → read_int (some (str z)) s put ≡ done (put z)
unfolding read_int
read_int-str z s put = rw (int-str z, read_int) refl

pub read_int-none {ℓ} : {S : Type ℓ} (s : S) (put : ℤ → S) → read_int none s put ≡ done s
unfolding read_int
read_int-none s put = refl

pub opt_or_old-none : (o : Option Text) → opt_or_old o none ≡ o
opt_or_old-none none = refl
opt_or_old-none (some t) = refl

abbrev pub ◌>>◌ {ℓ} : {C : Type ℓ} → Result (Unit {0}) → Result C → Result C
err x >> after = err x
ok _ >> after = after

-- A check that is followed by a value passes, if the whole gives a value.
pub check-ok {ℓ} :
    {A : Type ℓ} (r : Result (Unit {0})) {a b : A} → (r >> ok a) ≡ ok b → (r ≡ ok tt) × (a ≡ b)
check-ok (ok u) h = (refl, cc)
check-ok (err e) h = cc

-- A value that must be there; otherwise the exception is raised.
abbrev pub require {ℓ} : {A : Type ℓ} → Exception → Option A → Result A
require e none = err e
require e (some a) = ok a

-- What a result that is there says of the two computations behind it.
pub bind-ok {ℓ κ} :
    {B : Type ℓ} {C : Type κ} {c : C} (first : Result B) (next : B → Result C)
    → (first >>= next) ≡ ok c
    → (b : B) × (first ≡ ok b) × (next b ≡ ok c)
bind-ok (err x) next same = cc
bind-ok (ok b) next same = (b, refl, same)

pub ok-injective {ℓ} : {A : Type ℓ} {a b : A} → ok a ≡ ok b → a ≡ b
ok-injective h = cc
