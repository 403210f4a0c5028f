-- ===== src/Assigner.antt =====
-- pkg/agent/controller/networkpolicy/priority.go: the priorityAssigner, which keeps an OpenFlow
-- priority for each Priority in use, in the order of the Priorities. The children State, Boundaries
-- and Reassign define its parts, Register its entry points; Window, Mapping and Faults prove.
pub mod State
pub mod Boundaries
pub mod Reassign
pub mod Register
pub mod Window
pub mod Mapping
pub mod Insert
pub mod Faults
pub mod Tests
