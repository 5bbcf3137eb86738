-- ===== src/Structs.antt =====
-- src/structs.rs: the packets of the Semtech UDP protocol and their conversions.
pub mod Decimal
pub mod Types
pub mod Error
pub mod TimeFormats
pub mod RxPk
pub mod Stat
pub mod Times
pub mod TxPk
pub mod Packets
pub mod Acks
pub mod PullResp
