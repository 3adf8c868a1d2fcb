-- ===== src/Protocol.antt =====
-- The protocol types of src/protocol that the control plane is written over.
pub mod Dag
pub mod Phase
pub mod Event
