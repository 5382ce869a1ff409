-- ===== src/Tests.antt =====
-- Runs of the definitions at concrete inputs, and the theorems at inputs that meet their hypotheses.
mod LogTests
mod AuthTests
mod Base64Tests
mod TimeMapTests
mod FilterTests
mod SessionTests
mod StatsTests
mod GateTests
mod HostCacheTests
mod ConfigTests
mod SetupTests
mod RelayTests
mod SystemTests
mod SecureTests
mod ConnectTests
mod PoolTests
mod MessengerTests
mod DetectionTests
