-- ===== src/Executor.antt =====
-- nimblenet/Executors/onnx: the models that are loaded and their inferences.
pub mod Structs
pub mod Description
pub mod Inputs
pub mod Model
pub mod Manager
pub mod Torch
