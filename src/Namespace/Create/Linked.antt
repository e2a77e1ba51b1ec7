-- ===== src/Namespace/Create/Linked.antt =====
-- Reading whole files, and linking what was read.
use control_system_adapter_o.Prelude.{◌≡◌, false, List}
use control_system_adapter_o.Prelude.Result.{Result, Run, done, raised}
use control_system_adapter_o.Namespace.Space.{Space}
use control_system_adapter_o.Namespace.Space.Linking.{IsLinkable, link_open_pointers-IsResolved}
use control_system_adapter_o.Namespace.Create.{each, Dom}
use control_system_adapter_o.Namespace.Create.Parse.{Building, with_aliases, parse_xml}
use control_system_adapter_o.Namespace.Create.Waiting.{
  AreWaiting, HasWaiting, create_with_id-HasWaiting,
}
use control_system_adapter_o.Namespace.Create.Aliases.{LeavesNodes}
use control_system_adapter_o.Namespace.Create.Files.{parse_files-Whole}

module _ (D : Dom) where
  with_aliases-HasWaiting :
      (b : Building D) (r : Run Space)
      → LeavesNodes b.space r
      → HasWaiting D (done b)
      → HasWaiting D (with_aliases D b r)
  with_aliases-HasWaiting b (done s) e h = rw e.0 h
  with_aliases-HasWaiting b (raised x s) e h = rw e.0 h

  -- After the files of a program run are read, one after the other and without an exception, into a
  -- namespace whose list of nodes does not end with `None`, in whose heap no reference has a node as
  -- its type, and whose list of waiting references holds distinct ones: the list of nodes does not end
  -- with `None`, and the linking of what was read does not raise an exception. Each reference that
  -- waited still waits, or has a node of the namespace as its target, and another as its type, unless
  -- it has no type. One does not wait any more if its target, and its type, unless it has none, are
  -- texts that stand, as they are or as aliases, for ids of nodes of the namespace.
  pub link_open_pointers-parse_files :
      (files : List (Result (List D.Xml))) (b c : Building D)
      → each (parse_xml D) files b ≡ done c
      → b.ends_with_none ≡ false
      → AreWaiting b.heap b.space.link_later
      → (c.ends_with_none ≡ false) × IsLinkable c.heap c.space
  link_open_pointers-parse_files files b c e end h =
      let read =
        parse_files-Whole D (λ c. AreWaiting c.heap c.space.link_later) with_aliases-HasWaiting
          (create_with_id-HasWaiting D) files b c e (end, h) in
      (
        read.0,
        link_open_pointers-IsResolved c.heap c.space read.1.1 (λ r at. (read.1.2 r at, read.1.0 r)),
      )
