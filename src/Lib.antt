-- ===== src/Lib.antt =====
-- The map file generator of the repository, generatorClass.py and generatorForm.py in
-- tools/mapfileGenerator/ctk_opcua_generator_tools, the script cmake/fix-linter-for-all.py, and the
-- nodes of the namespace compiler in tools/pyUANamespace.
--
-- The generator reads the XML description of an application's variable tree, lets the user change
-- names, places, units, descriptions, histories and exclusions, and saves the changes with the settings
-- of the OPC UA server in a map file, which it can load again.
--
-- The files and what they model:
--   History            `HistorySetting`: `createHistory`, `readHistory`, `writeSetting`
--   Encryption         `EncryptionSettings`: `checkEncryptionSettings`, `createEncryption`,
--                      `readEncryption`
--   Config             `Config`; Config/Write is `createConfig` and Config/Read is `readConfig`, one
--                      function for each section of the element
--   Variable           `XMLVar`, its constructor, its comparison with a text and `reset`;
--                      Variable/Write is `generateMapEntry`, and Variable/Read the part of
--                      `parseMapFile` that changes a variable
--   Directory          `XMLDirectory`: `findDir`, `findVar`, `reset`; Directory/Parse is the constructor
--                      with `parseDir`, and Directory/Write is `generateMapEntries`
--   Generator          `MapGenerator`; Generator/Chimera is the constructor with `parseChimeraTK`,
--                      Generator/Folder the part of `parseMapFile` that changes a directory, and
--                      Generator/MapFile `parseMapFile` and `save`
--   Form               generatorForm.py; Form/EncryptionDialog, Form/HistoryDialog and Form/LdsDialog
--                      are its dialogs
--   Form/View          the tree view: Form/View/Rows makes it, Form/View/Edit is `_updateItem` and
--                      `dropEvent`, Form/View/Exclude and Form/View/History are the two columns with
--                      widgets, Form/View/Propagate is what these share, Form/View/Target finds the item
--                      that a signal comes from, and Form/View/Top is what starts at the item at the
--                      top of the visible part, whose place is an argument
--   Form/Window        `MapGeneratorForm`: its fields, Form/Window/Files with opening and saving,
--                      Form/Window/Histories with the list of settings and `loadMapFile`,
--                      Form/Window/Dialogs, and Form/Window/Events with the connections of signals to
--                      these handlers
--   Form/Qt            what the form uses of the widgets of Qt: a record of operations and laws, which
--                      Form/Qt/Plain fills with plain values
--   Linter             the loop of cmake/fix-linter-for-all.py that lints the files, applies the fixes
--                      and commits them; Linter/Main is the rest of its `main`
--   Namespace          tools/pyUANamespace; Namespace/NodeId is `opcua_node_id_t`, Namespace/Heap are the
--                      references and nodes of ua_node_types.py, and Namespace/Space is
--                      `opcua_namespace` of ua_namespace.py with `linkOpenPointers`
--   Namespace/Sanitize `sanitize` and `getFirstParentNode`
--   Namespace/Create   the creation of nodes from XML: `initiateDummyXMLReferences` and
--                      `buildAliasList`, Namespace/Create/Base is what `parseXML` reads of every
--                      node, Namespace/Create/Kinds what the `parseXMLSubType` of each class reads,
--                      and Namespace/Create/Parse is `createNode` and `parseXML` of the namespace
--   Namespace/Walk     `printDot` of a node, and `printDotGraphWalk`
--   Namespace/Reorder  `reorderNodesMinDependencies`, on the matrix of Namespace/Reorder/Matrix
--   Etree              what the code uses of `lxml.etree`: a record of operations and laws, which
--                      Etree/Tree fills with plain trees
--   Prelude            texts, numbers, exceptions, and tests
-- The other files hold proofs about the file that their folder is named for; Tests has runs on small
-- inputs.
--
-- How the code corresponds. An object is a record with the attributes in snake_case, and a method that
-- changes `self` gives the new record; when it raises, the record that it leaves comes with the
-- exception (`Run`). A method of the tree that gives an object which the caller then changes (`findDir`,
-- `findVar`) is the search together with `change_dir` and `change_var`, which change the tree at the
-- place that the search finds. Elements are values: `SubElement` with the changes of the child is the
-- finished child and `append`. Texts are lists of code points.
--
-- A handler of the form is a function from the state of its dialog or window, and what the user chooses
-- in a file dialog or types is an argument. A widget whose signal calls a handler is set by a function
-- that calls it; a widget whose signals are blocked is set without one. The items of the tree hold
-- references to the directories and variables of the generator: an item stands together with its
-- object, `shown` is the tree of these objects, and `put_view` gives it to the generator. A session
-- with the program is the start of the window and a list of events, each with what the user chooses in
-- the dialogs that it opens.
--
-- The nodes of a namespace refer to each other. A node or a reference is a number, and a heap gives the
-- attributes of the object with that number; a method that changes an object gives the new heap. Objects
-- are compared by their numbers, as Python 3 compares them by identity; Python 2, which the code allows
-- too, compares references by `__cmp__`.
--
-- Fuel. The constructor of `XMLDirectory` is recursive through `parseDir`. It runs on fuel, and the
-- callers give one more than the height of the element, which each level of directories lowers.
-- `str` and the parser of numbers run on fuel that the number or the text bounds. The loop that numbers
-- a new history setting gets two more than the number of names that are taken: the name behind them is
-- free. `hex` is like `str`. The loop that orders the nodes takes one turn for each node.
--
-- Not modelled: `lxml` and the opening of files (parameters), logging, the text output (`__str__`),
-- the `element` that objects keep, the layout of the saved file and its writing; upper case and digits
-- beyond ASCII; `checkSettings` of the history settings, whose tests for `None` the types exclude. Of
-- the linter script, the messages and the parser of arguments are left out. Of the form, message
-- boxes, the status bar, sizes of columns, flags of items and the question before closing are left
-- out, and so are the dialogs that pyuic generates. Of the namespace compiler, only the parts above
-- are modelled, without the values of variables, the encodings of data types and the printing as C;
-- its XML documents are a parameter, a record of what `xml.dom.minidom` gives, and so are
-- floating-point numbers. A namespace whose list of nodes ends with `None` behind an exception is one
-- with a mark (`ends_with_none`); the nodes of such a one are not worked on. What opening and
-- writing a saved file gives is a parameter of saving in the window. The adapter itself is C++ and not
-- modelled, nor is certs/create_self-signed.py, which is a copy of a tool of open62541.
pub mod Prelude
pub mod Etree
pub mod History
pub mod Encryption
pub mod Config
pub mod Variable
pub mod Directory
pub mod Generator
pub mod Form
pub mod Linter
pub mod Namespace
pub mod Tests
