-- ===== src/Examples.antt =====
-- The theorems at concrete inputs.
pub mod Columns
pub mod Events
pub mod Inference
pub mod ToyJson
pub mod Device
pub mod Manager
pub mod Cloud
pub mod Logs
pub mod Center
pub mod Cells
pub mod Description
