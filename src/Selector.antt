-- ===== src/Selector.antt =====
-- pkg/selector/selector.go: which backend a request goes to. `float64` values and their arithmetic
-- are a parameter; so is the source of randomness.
pub mod Request
pub mod Floats
pub mod Filter
pub mod Choice
pub mod Sticky
pub mod Pick
pub mod Hash
