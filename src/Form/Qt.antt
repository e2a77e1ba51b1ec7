-- ===== src/Form/Qt.antt =====
-- What the windows use of Qt, which is not part of the repository: the values that input fields hold,
-- with their documented behaviour. Fields are values here; a handler that changes a field gives the new
-- one. The signals of a field are the calls of the handlers in the model of the window.
pub mod Plain
use control_system_adapter_o.Prelude.{
  ℕ, ◌≡◌, Bool, true, false, Option, none, some, List, [], ◌∷◌, ◌++◌, ◌||◌,
}
use control_system_adapter_o.Prelude.Text.{Text, text_eq}
use control_system_adapter_o.Prelude.Number.{ℤ}

abbrev pub contains : List Text → Text → Bool
contains [] t = false
contains (x ∷ xs) t = text_eq x t || contains xs t

pub record Qt : Type 1 where
  pub LineEdit : Type 0
  pub text : LineEdit → Text
  pub set_text : LineEdit → Text → LineEdit
  pub text-set_text : (w : LineEdit) (t : Text) → text (set_text w t) ≡ t
  pub CheckBox : Type 0
  pub is_checked : CheckBox → Bool
  pub set_checked : CheckBox → Bool → CheckBox
  pub is_checked-set_checked : (w : CheckBox) (b : Bool) → is_checked (set_checked w b) ≡ b
  -- A spin box takes a value outside its range to another, in the range.
  pub SpinBox : Type 0
  pub value : SpinBox → ℤ
  pub set_value : SpinBox → ℤ → SpinBox
  pub fits : SpinBox → ℤ → Bool
  pub value_fits : (w : SpinBox) → fits w (value w) ≡ true
  pub fits-set_value : (w : SpinBox) (z y : ℤ) → fits (set_value w z) y ≡ fits w y
  pub value-set_value : (w : SpinBox) (z : ℤ) → fits w z ≡ true → value (set_value w z) ≡ z
  -- `setCurrentText` chooses among the items and otherwise does nothing. An item that is added to an
  -- empty box becomes the current one.
  pub ComboBox : Type 0
  pub items : ComboBox → List Text
  pub current_text : ComboBox → Text
  pub set_current_text : ComboBox → Text → ComboBox
  pub add_item : ComboBox → Text → ComboBox
  pub items-set_current_text : (w : ComboBox) (t : Text) → items (set_current_text w t) ≡ items w
  pub items-add_item : (w : ComboBox) (t : Text) → items (add_item w t) ≡ items w ++ (t ∷ [])
  pub current_text-set_current_text :
      (w : ComboBox) (t : Text)
      → contains (items w) t ≡ true
      → current_text (set_current_text w t) ≡ t
  pub set_current_text-absent :
      (w : ComboBox) (t : Text) → contains (items w) t ≡ false → set_current_text w t ≡ w
  -- The text of the current item, and the object that it carries, by its number.
  pub set_item_text : ComboBox → Text → ComboBox
  pub current_object : ComboBox → Option ℕ
  pub current_object-set_item_text :
      (w : ComboBox) (t : Text) → current_object (set_item_text w t) ≡ current_object w
  -- `QCheckBox(text)` and `QComboBox()`
  pub new_check_box : CheckBox
  pub is_checked-new_check_box : is_checked new_check_box ≡ false
  pub new_combo_box : ComboBox
  pub items-new_combo_box : items new_combo_box ≡ []
  pub current_text-add_first :
      (w : ComboBox) (t : Text) → items w ≡ [] → current_text (add_item w t) ≡ t
