-- ===== src/Sims.antt =====
-- ewp-sim and apigee-sim: the two HTTP servers that the agent is tried out with.
pub mod Http
pub mod Payload
pub mod Ewp
pub mod Apigee
pub mod Agree
