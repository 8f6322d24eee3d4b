-- ===== src/InterestControl.antt =====
-- cpp/src/interest-control.cpp: the window of outstanding Interests. The object is a record, and a
-- method returns the new record. `unsigned int` and `int` members are 32-bit words; the counter
-- `pipeline_` never goes below 0, since `decrement` asserts it. A double is a value of the type `F`
-- of the parameter `Double`, which stands for IEEE arithmetic.
pub mod Defs
pub mod Limits
pub mod Window
