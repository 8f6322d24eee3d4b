-- ===== src/PipelineControl.antt =====
-- cpp/src/pipeline-control-state-machine.cpp and cpp/src/pipeline-control.cpp: the consumer's state
-- machine and its observer PipelineControl, which calls the machine again from inside a transition.
pub mod Types
pub mod Bootstrapping
pub mod States
pub mod Machine
pub mod Transitions
pub mod Restart
pub mod Bootstrap
pub mod Playout
