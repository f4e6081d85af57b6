-- ===== src/State.antt =====
-- src/darkfactory/state.py: the records of the pipeline, its channels, the reducers and `merge`.
pub mod Records
pub mod Channels
pub mod Reducers
pub mod Merge
pub mod BoundedLog
pub mod CommentMerge
pub mod PackageMerge
