-- ===== src/Policy.antt =====
-- policy/: the policy engine.
pub mod Conclusion
pub mod Value
pub mod Reflect
pub mod Operators
pub mod Eval
pub mod Pattern
pub mod Evaluate
