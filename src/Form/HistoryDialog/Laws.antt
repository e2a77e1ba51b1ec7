-- ===== src/Form/HistoryDialog/Laws.antt =====
-- The names of the history settings.
use control_system_adapter_o.Prelude.{
  ℕ, ◌==◌, ==_iff, ◌≡◌, ◌≢◌, refl, sym, ap, ◌∙◌, Bool, true, false, not, ◌||◌, List, [], ◌∷◌, arith,
  Bool-cases, inl, inr,
}
use control_system_adapter_o.Prelude.Text.{Text, text_eq, text_eq_refl}
use control_system_adapter_o.History.{HistorySetting}
use control_system_adapter_o.Form.Qt.{Qt}
use control_system_adapter_o.Form.HistoryDialog.{
  Store, put, Dialog, is_taken, check_name_exists, update_data, Action, enter_name, edit_entries,
  edit_buffer_length, edit_interval, choose_backend, edit_fields, act, act_all,
}

abbrev pub has_object : List ℕ → ℕ → Bool
has_object [] n = false
has_object (m ∷ ms) n = (m == n) || has_object ms n

-- Two settings of the list with the same name are one.
abbrev pub IsUnique : Store → List ℕ → Type 0
IsUnique store ns =
    (a b : ℕ)
    → has_object ns a ≡ true
    → has_object ns b ≡ true
    → (store a).name ≡ (store b).name
    → a ≡ b

not-is_taken :
    (store : Store) (ns : List ℕ) (t : Text) (n : ℕ)
    → is_taken store ns t ≡ false
    → has_object ns n ≡ true
    → (store n).name ≢ t
unfolding is_taken
not-is_taken store [] t n free h e = cc
not-is_taken store (m ∷ ms) t n free h e =
    ground (arith, ==_iff m n, text_eq_refl t, not-is_taken store ms t n)

-- A name that no setting of the list has.
put-IsUnique :
    (store : Store) (ns : List ℕ) (k : ℕ) (h : HistorySetting)
    → is_taken store ns h.name ≡ false
    → IsUnique store ns
    → IsUnique (put store k h) ns
unfolding put
put-IsUnique store ns k h free unique a b ha hb e = ground (
  arith,
  ==_iff a k,
  ==_iff b k,
  unique a b,
  not-is_taken store ns h.name a free ha,
  not-is_taken store ns h.name b free hb,
)

name-put :
    (store : Store) (k : ℕ) (h : HistorySetting) (a : ℕ)
    → h.name ≡ (store k).name
    → (put store k h a).name ≡ (store a).name
unfolding put
name-put store k h a same = elim (Bool-cases (a == k)) [
  | inl here ↦ rw here (same ∙ ap (λ n. (store n).name) (sym ((==_iff a k).0 here)))
  | inr other ↦ rw other refl
]

put_same-IsUnique :
    (store : Store) (ns : List ℕ) (k : ℕ) (h : HistorySetting)
    → h.name ≡ (store k).name
    → IsUnique store ns
    → IsUnique (put store k h) ns
put_same-IsUnique store ns k h same unique a b ha hb e =
    unique a b ha hb (sym (name-put store k h a same) ∙ e ∙ name-put store k h b same)

module _ (Q : Qt) where
  abbrev pub HasUnique : Dialog Q → Type 0
  HasUnique d = IsUnique d.store d.histories

  check_name_exists-HasUnique : (d : Dialog Q) → HasUnique d → HasUnique (check_name_exists Q d)
  unfolding check_name_exists
  check_name_exists-HasUnique d h =
      elim (Bool-cases
        (not d.edit || not (text_eq (Q.current_text d.combo) (Q.text d.fields.history_name)))) [
          | inl test ↦
              rw test
                (elim (Bool-cases (is_taken d.store d.histories (Q.text d.fields.history_name))) [
                  | inl taken ↦ rw taken h
                  | inr free ↦ rw free (
                      put-IsUnique d.store d.histories d.object
                        (record (d.store d.object) { name = Q.text d.fields.history_name }) free h)
                ])
          | inr same ↦ rw same h
        ]

  update_data-HasUnique : (d : Dialog Q) → HasUnique d → HasUnique (update_data Q d)
  unfolding update_data
  update_data-HasUnique d h = put_same-IsUnique d.store d.histories d.object _ refl h

  act-HasUnique : (a : Action) (d : Dialog Q) → HasUnique d → HasUnique (act Q a d)
  unfolding act
  act-HasUnique (enter_name t) d h = check_name_exists-HasUnique (edit_fields Q (enter_name t) d) h
  act-HasUnique (edit_entries z) d h = update_data-HasUnique (edit_fields Q (edit_entries z) d) h
  act-HasUnique (edit_buffer_length z) d h =
      update_data-HasUnique (edit_fields Q (edit_buffer_length z) d) h
  act-HasUnique (edit_interval z) d h = update_data-HasUnique (edit_fields Q (edit_interval z) d) h
  act-HasUnique (choose_backend t) d h =
      update_data-HasUnique (edit_fields Q (choose_backend t) d) h

  -- If the settings of the generator's list have different names when the dialog is opened, they have
  -- different names after everything that the user does in it.
  pub act_all-HasUnique :
      (actions : List Action) (d : Dialog Q) → HasUnique d → HasUnique (act_all Q actions d)
  unfolding act_all
  act_all-HasUnique [] d h = h
  act_all-HasUnique (a ∷ actions) d h = act_all-HasUnique actions (act Q a d) (act-HasUnique a d h)
