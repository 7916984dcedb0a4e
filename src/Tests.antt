-- ===== src/Tests.antt =====
-- Concrete inputs, and the theorems at them.
mod Keys
mod HashJoin
mod Rotating
mod Joins
mod Pool
mod PriorityPool
mod Serde
mod DelayPool
mod DataSource
mod Config
mod Service
mod Stream
mod App
mod Runtime
mod JoinCalls
