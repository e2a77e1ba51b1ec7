-- ===== src/Form/Qt/Plain.antt =====
-- Plain values as input fields, which meet the assumptions on Qt; tests and witnesses run on them.
use control_system_adapter_o.Prelude.{
  ℕ, Option, none, ◌≡◌, refl, Bool, true, false, List, [], ◌∷◌, ◌++◌, if◌then◌else◌, leb, arith,
}
use control_system_adapter_o.Prelude.Text.{Text, text_eq}
use control_system_adapter_o.Prelude.Number.{ℤ, pos, negsuc}
use control_system_adapter_o.Form.Qt.{Qt, contains}

pub record Box : Type 0 where
  pub entries : List Text
  pub current : Text
  pub object : Option ℕ

abbrev pub choose : Box → Text → Box
choose w t = if contains w.entries t then record w { current = t } else w

abbrev first_current : List Text → Text → Text → Text
first_current [] old t = t
first_current (x ∷ xs) old t = old

abbrev pub extend : Box → Text → Box
extend w t = record w {
  entries = w.entries ++ (t ∷ []);
  current = first_current w.entries w.current t;
}

abbrev replace : List Text → Text → Text → List Text
replace [] old t = []
replace (x ∷ xs) old t = if text_eq x old then t ∷ xs else x ∷ replace xs old t

abbrev pub relabel : Box → Text → Box
relabel w t = record w { entries = replace w.entries w.current t; current = t }

keep_entries :
    (b : Bool) (w : Box) (t : Text)
    → (if b then record w { current = t } else w).entries ≡ w.entries
keep_entries true w t = refl
keep_entries false w t = refl

pub choose-known : (w : Box) (t : Text) → contains w.entries t ≡ true → (choose w t).current ≡ t
choose-known w t h = rw h refl

pub choose-absent : (w : Box) (t : Text) → contains w.entries t ≡ false → choose w t ≡ w
choose-absent w t h = rw h refl

pub entries-choose : (w : Box) (t : Text) → (choose w t).entries ≡ w.entries
entries-choose w t = keep_entries (contains w.entries t) w t

pub extend-first : (w : Box) (t : Text) → w.entries ≡ [] → (extend w t).current ≡ t
extend-first w t h = rw h refl

-- A number field with the range from 0.
pub record Spin : Type 0 where
  pub high : ℕ
  pub raw : ℤ

abbrev pub in_range : ℕ → ℤ → Bool
in_range high (pos n) = leb n high
in_range high (negsuc n) = false

abbrev pub clamped : ℕ → ℤ → ℤ
clamped high z = if in_range high z then z else pos high

pub clamped-in_range : (high : ℕ) (z : ℤ) → in_range high (clamped high z) ≡ true
clamped-in_range high (pos n) = ground arith
clamped-in_range high (negsuc n) = ground arith

pub clamped-same : (w : Spin) (z : ℤ) → in_range w.high z ≡ true → clamped w.high z ≡ z
clamped-same w z h = rw h refl

abbrev pub plain : Qt
plain = record {
  LineEdit = Text;
  text = λ w. w;
  set_text = λ w t. t;
  text-set_text = λ w t. refl;
  CheckBox = Bool;
  is_checked = λ w. w;
  set_checked = λ w b. b;
  is_checked-set_checked = λ w b. refl;
  SpinBox = Spin;
  value = λ w. clamped w.high w.raw;
  set_value = λ w z. record w { raw = z };
  fits = λ w z. in_range w.high z;
  value_fits = λ w. clamped-in_range w.high w.raw;
  fits-set_value = λ w z y. refl;
  value-set_value = clamped-same;
  ComboBox = Box;
  items = λ w. w.entries;
  current_text = λ w. w.current;
  set_current_text = choose;
  add_item = extend;
  items-set_current_text = entries-choose;
  items-add_item = λ w t. refl;
  current_text-set_current_text = choose-known;
  set_current_text-absent = choose-absent;
  set_item_text = relabel;
  current_object = λ w. w.object;
  current_object-set_item_text = λ w t. refl;
  new_check_box = false;
  is_checked-new_check_box = refl;
  new_combo_box = record { entries = []; current = []; object = none };
  items-new_combo_box = refl;
  current_text-add_first = extend-first;
}
