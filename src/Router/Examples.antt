-- ===== src/Router/Examples.antt =====
-- The theorems on the router, applied to one small network.
mod World
mod Packets
mod Control
mod Tables
