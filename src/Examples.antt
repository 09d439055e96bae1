-- ===== src/Examples.antt =====
-- Tests of the models and concrete instances of the theorems.
mod Serving
mod Wiring
mod Connection
mod Forwarding
mod Pooling
mod Tunnels
mod Selecting
