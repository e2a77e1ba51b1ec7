-- ===== src/Form/View/Exclude.antt =====
-- The exclude column of the tree: `_mapDirectory`, `_mapItem` and `_setState`.
use control_system_adapter_o.Prelude.{
  ◌≡◌, refl, Bool, true, false, not, some, [], if◌then◌else◌, Bool-cases, inl, inr,
}
use control_system_adapter_o.Variable.{XmlVar}
use control_system_adapter_o.Directory.{DirectoryInfo}
use control_system_adapter_o.Form.Qt.{Qt}
use control_system_adapter_o.Form.View.{Row, ViewDirectory, folder, nil}
use control_system_adapter_o.Form.View.Propagate.{Change, change_item, change_variable}

abbrev pub same : Bool → Bool → Bool
same true b = b
same false b = not b

module _ (Q : Qt) where
  -- `checkbox.setCheckState(state)` with `_mapDirectory` or `_mapItem`. The state of a directory is
  -- assigned inside of the loop over its children.
  unfoldable pub exclude_change : Bool → Change Q
  exclude_change b = record {
    is_there = λ r. same b (Q.is_checked r.exclude);
    set_widget = λ r. record r { exclude = Q.set_checked r.exclude b };
    set_directory = λ empty i. if empty then i else record i { exclude = some b };
    set_variable = λ v. record v { exclude = some b };
    after_child = λ r. r;
  }

  unfoldable pub map_directory : Bool → ViewDirectory Q → ViewDirectory Q
  unfolding exclude_change change_item
  map_directory b d = change_item Q (exclude_change b) d

  unfoldable pub map_item : Bool → Row Q × XmlVar → Row Q × XmlVar
  unfolding exclude_change change_variable
  map_item b v = change_variable Q (exclude_change b) v

  -- A directory without children keeps its own exclusion, whatever state its box gets.
  pub map_directory-empty :
      (b : Bool) (r : Row Q) (i : DirectoryInfo)
      → (x : Row Q) × (map_directory b (folder r i nil []) ≡ folder x i nil [])
  unfolding map_directory exclude_change
  map_directory-empty b r i = elim (Bool-cases (same b (Q.is_checked r.exclude))) [
    | inl there ↦ (r, rw there refl)
    | inr new ↦ (record r { exclude = Q.set_checked r.exclude b }, rw new refl)
  ]
