-- ===== src/Db.antt =====
-- The database: its log store, its indexes and its methods.
pub mod Discard
pub mod Store
pub mod Index
pub mod StrValues
pub mod Str
pub mod Keys
pub mod Trees
pub mod Hash
pub mod Lists
pub mod Sets
pub mod Recovery
pub mod Nodes
pub mod ZSets
pub mod Merge
pub mod Tx
