-- ===== src/Config/Setups.antt =====
-- Reading back the history settings that `createConfig` has written.
use mathlib.Core.Path.{fun_ext}
use control_system_adapter_o.Prelude.{
  ◌≡◌, refl, sym, ap, ◌∙◌, Bool, true, false, ◌||◌, none, some, List, [], ◌∷◌, ◌++◌, arith,
  Bool-cases, inl, inr, if◌then◌else◌,
}
use control_system_adapter_o.Prelude.Text.{Text, codes, text_eq, text_eq_iff}
use control_system_adapter_o.Prelude.Result.{Run, done, raised, ◌▷◌}
use control_system_adapter_o.Etree.{Etree, Nsmap, has_default}
use control_system_adapter_o.Etree.Laws.{etree_laws}
use control_system_adapter_o.Etree.Build.{build_laws}
use control_system_adapter_o.History.{HistorySetting, write_setting}
use control_system_adapter_o.History.RoundTrip.{stored, read_history-write_setting}
use control_system_adapter_o.Config.{Config}
use control_system_adapter_o.Config.Write.{add_setups}
use control_system_adapter_o.Config.Read.{find_setting, add_new, add_read, read_setups}

-- The settings that are stored, each if its name is not taken.
abbrev pub add_all : List HistorySetting → List HistorySetting → List HistorySetting
add_all [] hs = hs
add_all (h ∷ rest) hs = add_all rest (add_new (stored h) hs)

abbrev pub add_settings : List HistorySetting → Config → Config
add_settings rest c = record c { history_settings = add_all rest c.history_settings }

▷_assoc {ℓ} : {S : Type ℓ} (r : Run S) (f g : S → Run S) → (r ▷ f ▷ g) ≡ (r ▷ (λ s. f s ▷ g))
▷_assoc (done s) f g = refl
▷_assoc (raised e s) f g = refl

▷-done : (r : Run Config) → (r ▷ (λ c. done (add_settings [] c))) ≡ r
▷-done (done c) = refl
▷-done (raised e c) = refl

module _ (L : Etree) where
  read_setups-append :
      (xs ys : List L.Element) (c : Config)
      → read_setups L (xs ++ ys) c ≡ (read_setups L xs c ▷ read_setups L ys)
  unfolding read_setups
  read_setups-append [] ys c = refl
  read_setups-append (x ∷ xs) ys c = rw ▷_assoc (simp (read_setups-append xs ys) refl)

  read_one :
      (h : HistorySetting) (e : L.Element) (c : Config)
      → read_setups L (write_setting L h (L.sub_element e "setup") ∷ []) c
        ≡ done (add_settings (h ∷ []) c)
  unfolding read_setups add_read
  read_one h e c = rw (read_history-write_setting L e "setup" [] h) refl

  tag-setup :
      (h : HistorySetting) (e : L.Element)
      → L.tag (write_setting L h (L.sub_element e "setup")) ≡ codes "setup"
  unfolding write_setting
  tag-setup h e = simp (etree_laws, build_laws)

  findall-setup :
      (h : HistorySetting) (e : L.Element) (n : Nsmap)
      → has_default n ≡ false
      → L.findall (L.append e (write_setting L h (L.sub_element e "setup"))) "setup" n
        ≡ L.findall e "setup" n ++ (write_setting L h (L.sub_element e "setup") ∷ [])
  unfolding text_eq
  findall-setup h e n plain = rw (L.findall-append _ _ "setup" n plain, tag-setup h e) refl

  pub read_setups-add_setups :
      (hs : List HistorySetting) (e : L.Element) (n : Nsmap)
      → has_default n ≡ false
      → (c : Config)
      → read_setups L (L.findall (add_setups L hs e) "setup" n) c
        ≡ (read_setups L (L.findall e "setup" n) c ▷ (λ c1. done (add_settings hs c1)))
  unfolding add_setups
  read_setups-add_setups [] e n plain c = sym (▷-done (read_setups L (L.findall e "setup" n) c))
  read_setups-add_setups (h ∷ hs) e n plain c =
      read_setups-add_setups hs _ n plain c
      ∙ rw (findall-setup h e n plain, read_setups-append, ▷_assoc) (simp (read_one) refl)

-- The settings whose name is not the text
abbrev pub without : Text → List HistorySetting → List HistorySetting
without n [] = []
without n (h ∷ hs) = let rest = without n hs in if text_eq n h.name then rest else h ∷ rest

-- The first setting of each name
abbrev pub firsts : List HistorySetting → List HistorySetting
firsts [] = []
firsts (h ∷ hs) = h ∷ without h.name (firsts hs)

-- The settings whose name none of the first ones has
abbrev pub without_all : List HistorySetting → List HistorySetting → List HistorySetting
without_all [] hs = hs
without_all (k ∷ known) hs = without k.name (without_all known hs)

abbrev pub all_stored : List HistorySetting → List HistorySetting
all_stored [] = []
all_stored (h ∷ hs) = stored h ∷ all_stored hs

without_comm :
    (m n : Text) (hs : List HistorySetting) → without m (without n hs) ≡ without n (without m hs)
without_comm m n [] = refl
without_comm m n (h ∷ hs) = ground (arith, without_comm m n hs)

without-twice : (n : Text) (hs : List HistorySetting) → without n (without n hs) ≡ without n hs
without-twice n [] = refl
without-twice n (h ∷ hs) = ground (arith, without-twice n hs)

without-without_all :
    (n : Text) (known hs : List HistorySetting)
    → without n (without_all known hs) ≡ without_all known (without n hs)
without-without_all n [] hs = refl
without-without_all n (k ∷ known) hs =
    without_comm n k.name (without_all known hs)
    ∙ ap (without k.name) (without-without_all n known hs)

abbrev is_taken : Text → List HistorySetting → Bool
is_taken n [] = false
is_taken n (k ∷ known) = text_eq k.name n || is_taken n known

find_setting-some :
    (n : Text) (ks : List HistorySetting)
    → is_taken n ks ≡ true
    → (k : HistorySetting) × (find_setting n ks ≡ some k)
unfolding find_setting
find_setting-some n [] e = absurd (cc)
find_setting-some n (k ∷ ks) e = elim (Bool-cases (text_eq k.name n)) [
  | inl here ↦ (k, rw here refl)
  | inr later ↦
      let found = find_setting-some n ks (ground (arith, e, later)) in (found.0, rw later found.1)
]

find_setting-none :
    (n : Text) (ks : List HistorySetting) → is_taken n ks ≡ false → find_setting n ks ≡ none
unfolding find_setting
find_setting-none n [] e = refl
find_setting-none n (k ∷ ks) e = ground (arith, find_setting-none n ks)

add_new-taken :
    (h : HistorySetting) (known : List HistorySetting)
    → add_new h known ≡ (if is_taken h.name known then known else known ++ (h ∷ []))
unfolding add_new
add_new-taken h known = elim (Bool-cases (is_taken h.name known)) [
  | inl e ↦ let found = find_setting-some h.name known e in ground (arith, e, found.1)
  | inr e ↦ ground (arith, e, find_setting-none h.name known e)
]

without_all-cons :
    (known : List HistorySetting) (h : HistorySetting) (hs : List HistorySetting)
    → without_all known (h ∷ hs)
      ≡ (if is_taken h.name known then without_all known hs else h ∷ without_all known hs)
without_all-cons [] h hs = refl
without_all-cons (k ∷ known) h hs = rw (without_all-cons known h hs) (ground arith)

without_all-without :
    (n : Text) (known hs : List HistorySetting)
    → is_taken n known ≡ true
    → without_all known (without n hs) ≡ without_all known hs
without_all-without n [] hs e = absurd (cc)
without_all-without n (k ∷ known) hs e = elim (Bool-cases (text_eq k.name n)) [
  | inl here ↦
      let same = (text_eq_iff k.name n).0 here in
      ap (without k.name) (sym (without-without_all n known hs))
      ∙ rw same (without-twice n (without_all known hs))
  | inr later ↦ ap (without k.name) (without_all-without n known hs (ground (arith, e, later)))
]

without_all-snoc :
    (known : List HistorySetting) (h : HistorySetting) (hs : List HistorySetting)
    → without_all (known ++ (h ∷ [])) hs ≡ without_all known (without h.name hs)
without_all-snoc [] h hs = refl
without_all-snoc (k ∷ known) h hs = ap (without k.name) (without_all-snoc known h hs)

append-snoc {ℓ} :
    {A : Type ℓ} (xs : List A) (x : A) (ys : List A) → ((xs ++ (x ∷ [])) ++ ys) ≡ xs ++ (x ∷ ys)
append-snoc [] x ys = refl
append-snoc (y ∷ xs) x ys = ap (λ zs. y ∷ zs) (append-snoc xs x ys)

-- The settings that are known already stay, and behind them stand the first of each other name.
abbrev pub merged : List HistorySetting → List HistorySetting → List HistorySetting
merged hs known = known ++ without_all known (firsts (all_stored hs))

add_all-merged :
    (hs known : List HistorySetting)
    → add_all hs known ≡ known ++ without_all known (firsts (all_stored hs))
add_all-merged [] known = sym (kept known)
  where
    none_left : (ks : List HistorySetting) → without_all ks [] ≡ []
    none_left [] = refl
    none_left (k ∷ ks) = rw (none_left ks) refl

    nothing_behind : (ks : List HistorySetting) → (ks ++ []) ≡ ks
    nothing_behind [] = refl
    nothing_behind (k ∷ ks) = ap (λ zs. k ∷ zs) (nothing_behind ks)

    kept : (ks : List HistorySetting) → ks ++ without_all ks [] ≡ ks
    kept ks = rw (none_left ks) (nothing_behind ks)
add_all-merged (h ∷ hs) known =
    let s = stored h in
    let rest = firsts (all_stored hs) in
    elim (Bool-cases (is_taken s.name known)) [
      | inl e ↦
          rw (add_new-taken s known, e, without_all-cons known s (without s.name rest), e)
            (add_all-merged hs known
              ∙ ap (λ zs. known ++ zs) (sym (without_all-without s.name known rest e)))
      | inr e ↦
          rw (add_new-taken s known, e, without_all-cons known s (without s.name rest), e)
            (add_all-merged hs (known ++ (s ∷ []))
              ∙ ap (λ zs. (known ++ (s ∷ [])) ++ zs) (without_all-snoc known s rest)
              ∙ append-snoc known s (without_all known (without s.name rest)))
    ]

-- Reading the setups of an element, to which history settings were added as `createConfig` does, is
-- reading those that it had before, and then putting behind the settings that are known, which stay,
-- the added ones as `stored`, in their order: of each name that is not known, the first one. This is
-- for namespaces without a default.
pub read_setups-firsts :
    (L : Etree) (hs : List HistorySetting) (e : L.Element) (n : Nsmap)
    → has_default n ≡ false
    → (c : Config)
    → read_setups L (L.findall (add_setups L hs e) "setup" n) c ≡ (
        read_setups L (L.findall e "setup" n) c
        ▷ (λ c1. done (record c1 { history_settings = merged hs c1.history_settings })))
read_setups-firsts L hs e n plain c =
    read_setups-add_setups L hs e n plain c
    ∙ ap (λ f. read_setups L (L.findall e "setup" n) c ▷ f)
        (fun_ext (λ c1.
          ap (λ s. done (record c1 { history_settings = s }))
            (add_all-merged hs c1.history_settings)))
