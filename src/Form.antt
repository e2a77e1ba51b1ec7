-- ===== src/Form.antt =====
-- The windows of the map file generator,
-- tools/mapfileGenerator/ctk_opcua_generator_tools/generatorForm.py.
pub mod Qt
pub mod EncryptionDialog
pub mod LdsDialog
pub mod HistoryDialog
pub mod View
pub mod Window
