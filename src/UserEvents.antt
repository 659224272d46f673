-- ===== src/UserEvents.antt =====
-- nimblenet/UserEvents: tables of user events and the features computed from them.
pub mod Structs
pub mod Scalar
pub mod AggregateColumn
pub mod Values
pub mod Represents
pub mod SumColumn
pub mod CountColumn
pub mod AverageColumn
pub mod ExtremeColumn
pub mod MaxColumn
pub mod MinColumn
pub mod Integers
pub mod Faults
pub mod Window
pub mod PreProcessor
pub mod Description
pub mod TableStore
pub mod Manager
