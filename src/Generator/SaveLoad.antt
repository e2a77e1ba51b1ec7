-- ===== src/Generator/SaveLoad.antt =====
-- `save`, followed by `parseMapFile` of what was saved.
use mathlib.Core.Path.{subst}
use control_system_adapter_o.Prelude.{◌≡◌, refl, sym, ap, ◌∙◌, false, Option, none, some, []}
use control_system_adapter_o.Prelude.Text.{Text, codes, text_eq}
use control_system_adapter_o.Prelude.Result.{
  ok, Run, done, raised, state, ◌▷◌, bind-ok, ok-injective, check-ok,
}
use control_system_adapter_o.Etree.{Etree}
use control_system_adapter_o.Directory.{XmlDirectory}
use control_system_adapter_o.Directory.Sections.{Agrees, generate_map_entries-Agrees}
use control_system_adapter_o.Config.{Config, new_config}
use control_system_adapter_o.Config.Write.{create_config}
use control_system_adapter_o.Config.Read.{read_config, read_sections, read_historizing}
use control_system_adapter_o.Config.Check.{check, create_config_lem}
use control_system_adapter_o.Config.RoundTrip.{restored, read_config-create_config}
use control_system_adapter_o.Generator.{MapGenerator}
use control_system_adapter_o.Generator.MapFile.{
  Reading, csa_nsmap, reset_tree, add_entries, save, parse_map_file, parse_uamapping,
  parse_tree_entries, with_tree, read_entries,
}

module _ (L : Etree) where
  ▷_cong :
      (r : Run Config) (f g : Config → Run Config) → ((c : Config) → f c ≡ g c) → (r ▷ f) ≡ (r ▷ g)
  ▷_cong (done c) f g h = h c
  ▷_cong (raised x c) f g h = refl

  read_historizing_cong :
      (a b : L.Element)
      → L.nsmap a ≡ L.nsmap b
      → (o : Option L.Element) (c : Config) → read_historizing L o a c ≡ read_historizing L o b c
  unfolding read_historizing
  read_historizing_cong a b h none c = refl
  read_historizing_cong a b h (some e) c = rw h refl

  read_sections_cong :
      (a b e : L.Element) (c : Config)
      → L.nsmap a ≡ L.nsmap b
      → read_sections L a e c ≡ read_sections L b e c
  unfolding read_sections
  read_sections_cong a b e c h =
      ▷_cong _ (read_historizing L (L.find e "historizing" []) a)
        (read_historizing L (L.find e "historizing" []) b)
        (read_historizing_cong a b h (L.find e "historizing" []))

  read_found_cong :
      (a b : L.Element) (c : Config) (o : Option L.Element)
      → L.nsmap a ≡ L.nsmap b
      → elim o [ none ↦ done c | some e ↦ read_sections L a e c ]
        ≡ elim o [ none ↦ done c | some e ↦ read_sections L b e c ]
  read_found_cong a b c none h = refl
  read_found_cong a b c (some e) h = read_sections_cong a b e c h

  -- The settings that are read depend on the namespaces and the section only.
  read_config_cong :
      (a b : L.Element) (c : Config)
      → L.nsmap a ≡ L.nsmap b
      → L.find a "config" (L.nsmap a) ≡ L.find b "config" (L.nsmap b)
      → read_config L a c ≡ read_config L b c
  unfolding read_config
  read_config_cong a b c h k =
      read_found_cong a b c (L.find a "config" (L.nsmap a)) h
      ∙ ap (λ o. elim o [ none ↦ done c | some e ↦ read_sections L b e c ]) k

  abbrev root : L.Element
  root = L.element "uamapping" csa_nsmap

  with_tree-config :
      (g : MapGenerator) (r : Run Reading) → (state (with_tree L g r)).0.config ≡ g.config
  with_tree-config g (done s) = refl
  with_tree-config g (raised x s) = refl

  parse_tree_entries-config :
      (e : L.Element) (o : Option XmlDirectory) (g : MapGenerator)
      → (state (parse_tree_entries L e o g)).0.config ≡ g.config
  unfolding parse_tree_entries
  parse_tree_entries-config e none g = refl
  parse_tree_entries-config e (some d) g = with_tree-config g (read_entries L e d)

  parse_uamapping-config :
      (e : L.Element) (g : MapGenerator) (c : Config)
      → L.tag e ≡ codes "uamapping"
      → read_config L e g.config ≡ done c
      → (state (parse_uamapping L e g)).0.config ≡ c
  unfolding parse_uamapping text_eq
  parse_uamapping-config e g c h k =
      rw (h, k) (parse_tree_entries-config e g.dir (record g { config = c }))

  nsmap-created :
      (c : Config) (e : L.Element)
      → create_config L c root ≡ ok e
      → (L.tag e ≡ codes "uamapping") × (L.nsmap e ≡ csa_nsmap)
  nsmap-created c e h =
      let same = (check-ok (check c) (sym (create_config_lem L c root) ∙ h)).1 in
      subst (λ e. (L.tag e ≡ codes "uamapping") × (L.nsmap e ≡ csa_nsmap)) same
        (L.tag-append root _ ∙ L.tag-element _ _, L.nsmap-append root _ ∙ L.nsmap-element _ _)

  add_entries-Agrees :
      (o : Option XmlDirectory) (e : L.Element) → Agrees L csa_nsmap refl (add_entries L o e) e
  add_entries-Agrees none e = record { tag = refl; nsmap = refl; config = refl }
  add_entries-Agrees (some d) e = generate_map_entries-Agrees L csa_nsmap refl d e false false

  read_config-add_entries :
      (o : Option XmlDirectory) (c : Config) (e : L.Element)
      → create_config L c root ≡ ok e
      → read_config L (add_entries L o e) new_config ≡ done (restored c)
  read_config-add_entries o c e h =
      let agrees = add_entries-Agrees o e in
      let plain = (nsmap-created c e h).1 in
      read_config_cong (add_entries L o e) e new_config agrees.nsmap
        (rw (agrees.nsmap, plain, L.find-eq, L.find-eq, agrees.config) refl)
      ∙ read_config-create_config L c root e (rw L.nsmap-element refl)
          (L.findall-element "uamapping" csa_nsmap "config" _) h

  -- What `save` makes is read by `parseMapFile` of any generator with new settings, whatever the
  -- trees of the two and whether or not an entry raises an exception: the settings of the saving
  -- generator come back as `restored`.
  pub parse_map_file-save :
      (g loader : MapGenerator) (input : Text) (built : L.Element)
      → loader.config ≡ new_config
      → save L g ≡ ok built
      → (state (parse_map_file L (λ name. ok built) input loader)).0.config ≡ restored g.config
  unfolding save parse_map_file reset_tree
  parse_map_file-save g loader input built fresh saved =
      let created = bind-ok (create_config L g.config root) _ saved in
      let same = ok-injective created.2 in
      let agrees = add_entries-Agrees g.dir created.0 in
      parse_uamapping-config built (reset_tree L loader) (restored g.config)
        (subst (λ b. L.tag b ≡ codes "uamapping") same
          (agrees.tag ∙ (nsmap-created g.config created.0 created.1).0))
        (subst (λ b. read_config L b loader.config ≡ done (restored g.config)) same
          (rw fresh (read_config-add_entries g.dir g.config created.0 created.1)))
