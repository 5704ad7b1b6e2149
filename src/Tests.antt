-- ===== src/Tests.antt =====
-- Runs of the model at concrete inputs, and the theorems at inputs that meet their hypotheses.
mod Http
mod Netstring
mod Server
mod Proxy
mod Worker
mod Client
mod Files
mod Programs
mod Beacon
mod Wire
